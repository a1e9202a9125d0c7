-- ===== src/Stream/Segment/Recovered.antt =====
-- What opening a segment restores after a crash (internal/stream/segment.go, openSegment).
use boltq.Prelude.{
  ℕ, ◌+◌, ◌-◌, ◌<◌, ◌≡◌, ◌⊎◌, refl, sym, ap, ◌∙◌, List, [], ◌∷◌, ◌++◌, length, length-append, arith,
  All, false, inl, inr, get_or, drop, take-append, drop-append,
}
use boltq.Prelude.Words.{u64}
use boltq.Prelude.Bytes.{append_assoc}
use boltq.Stream.{Record}
use boltq.Stream.Segment.{IndexEntry, Segment, before, encode_index}
use boltq.Stream.Segment.Recovery.{
  trim_index, last_or, recover_loop, recover_from, recover, open_segment, with_scan,
}
use boltq.Stream.Segment.Frames.{
  Ascending, frames, frame_record, frames-append, Holds, Points, Stored, RunFrom, RunFrom-behind,
  Stored-behind,
}
use boltq.Stream.Segment.Indexes.{
  FitsEntry, load_index-encode, trim_index-All, trim_index-below, trim_index-Ascending, All-last_or,
}
use boltq.Stream.Segment.Scanned.{Stops, recover_loop-frames, pairs}

-- Of two beginnings of a list, one begins the other.
prefixes :
    (ahead behind rs lost : List Record)
    → ahead ++ behind ≡ rs ++ lost
    → ((q : List Record) × (rs ≡ ahead ++ q))
      ⊎ ((x : Record) × (q : List Record) × (left : List Record) × (ahead ≡ rs ++ x ∷ q)
          × (lost ≡ x ∷ left))
prefixes [] behind rs lost e = inl (rs, refl)
prefixes (x ∷ ahead) behind [] lost e = inr (x, ahead, ahead ++ behind, refl, sym e)
prefixes (x ∷ ahead) behind (r ∷ rs) lost e =
    let head : x ≡ r = ap (λ t. get_or t 0 x) e in
    elim (prefixes ahead behind rs lost (ap (drop 1) e)) [
      | inl (q, split) ↦ inl (q, cc (head, split))
      | inr (y, q, left, split, first) ↦ inr (y, q, left, cc (head, split), first)
    ]

-- Fewer bytes than the frame of the first record that was lost.
abbrev pub Short : List ℕ → List Record → Type 0
Short tail [] = Unit
Short tail (x ∷ lost) = length tail < length (frame_record x)

module _ (base : ℕ) (rs lost : List Record) (tail : List ℕ) where
  -- An entry within the file points into the records that survive.
  Points-within :
      (e : IndexEntry)
      → Short tail lost
      → Points base (rs ++ lost) e
      → e.pos < length (frames rs ++ tail)
      → Points base rs e
  Points-within e short p below = elim (prefixes p.ahead p.behind rs lost (sym p.split)) [
    | inl (q, split) ↦ record {
      ahead = p.ahead;
      behind = q;
      split = split;
      at_seq = p.at_seq;
      at_pos = p.at_pos;
    }
    | inr (x, q, left, split, first) ↦ absurd (
        let long = ap (λ t. length (frames t)) split in
        let fewer : length tail < length (frame_record x) = rw first at short in
        omega (
          arith,
          long,
          fewer,
          below,
          p.at_pos,
          ap length (frames-append rs (x ∷ q)),
          length-append (frames rs) (frames (x ∷ q)),
          length-append (frame_record x) (frames q),
          length-append (frames rs) tail,
        ))
  ]

  Points-left :
      (e : IndexEntry)
      → (p : Points base rs e) → drop e.pos (frames rs ++ tail) ≡ frames p.behind ++ tail
  Points-left e p =
      ap (λ t. drop e.pos (frames t ++ tail)) p.split
      ∙ ap (λ t. drop e.pos (t ++ tail)) (frames-append p.ahead p.behind)
      ∙ ap (drop e.pos) (append_assoc (frames p.ahead) (frames p.behind) tail)
      ∙ drop-append e.pos (frames p.ahead) (frames p.behind ++ tail) (sym p.at_pos)

before-pred : (x : ℕ) → 0 < x → x < u64 → before x ≡ x - 1
before-pred x low high = omega (arith, low, high)

-- The segment as `openSegment` fills it in before it recovers.
abbrev pub loaded : ℕ → ℕ → List ℕ → List ℕ → List IndexEntry → Segment
loaded base interval file idx_file index = record {
  base_seq = base;
  read_only = false;
  file = file;
  idx_file = idx_file;
  index = index;
  size = 0;
  last_seq = before base;
  since_idx = 0;
  index_interval = interval;
}

module _ (base interval : ℕ) (rs : List Record) (tail idx_file : List ℕ) (stored : All Stored rs)
    (run : RunFrom base rs) (low : 0 < base) (high : base + length rs < u64)
    (stop : Stops tail) where
  abbrev file : List ℕ
  file = frames rs ++ tail

  reached :
      (index : List IndexEntry)
      → All (Points base rs) index
      → Ascending index
      → Holds
          (with_scan
            (record (loaded base interval file idx_file []) { index = index })
            (base + length rs - 1, length (frames rs)))
          rs
  reached index points up = record {
    stored = stored;
    run = run;
    file = take-append (length (frames rs)) (frames rs) tail refl;
    size = refl;
    low = low;
    high = high;
    last = refl;
    index = points;
    order = up;
  }

  from_start :
      recover_loop (length file) file (before base) 0
      ≡ (base + length rs - 1, 0 + length (frames rs))
  from_start =
      recover_loop-frames (length file) base (before base) 0 rs tail (omega arith) stored run low
        (before-pred base low (omega (arith, high))) stop

  from_entry :
      (e : IndexEntry)
      → Points base rs e
      → recover_loop (length file) (drop e.pos file) (before e.seq) e.pos
        ≡ (base + length rs - 1, length (frames rs))
  from_entry e p =
      let n : length rs ≡ length p.ahead + length p.behind =
        ap length p.split ∙ length-append p.ahead p.behind in
      let m : length (frames rs) ≡ length (frames p.ahead) + length (frames p.behind) =
        ap (λ t. length (frames t)) p.split
        ∙ ap length (frames-append p.ahead p.behind)
        ∙ length-append (frames p.ahead) (frames p.behind) in
      let run_left : RunFrom e.seq p.behind =
        rw p.at_seq (RunFrom-behind base p.ahead p.behind (rw (sym p.split) run)) in
      ap (λ t. recover_loop (length file) t (before e.seq) e.pos) (Points-left base rs [] tail e p)
      ∙ recover_loop-frames (length file) e.seq (before e.seq) e.pos p.behind tail
          (omega (arith, m, length-append (frames p.behind) tail, length-append (frames rs) tail))
          (Stored-behind p.ahead p.behind (rw (sym p.split) stored)) run_left
          (omega (arith, p.at_seq, low))
          (before-pred e.seq (omega (arith, p.at_seq, low)) (omega (arith, p.at_seq, n, high))) stop
      ∙ pairs (omega (arith, n, p.at_seq)) (omega (arith, m, p.at_pos))

  recover_from-Holds :
      (old index : List IndexEntry)
      → All (Points base rs) index
      → Ascending index
      → Holds (recover_from (loaded base interval file idx_file old) index) rs
  recover_from-Holds old [] points up =
      let q = from_start ∙ pairs refl (omega arith) in rw q (reached [] tt tt)
  recover_from-Holds old (e ∷ es) points up =
      let q = from_entry (last_or es e) (All-last_or (Points base rs) es e points.0 points.1) in
      rw q (reached (e ∷ es) points up)

-- A segment that a crash left with the frames of some records, then fewer bytes than the next frame
-- that was being written, and with index entries of which some may be ahead of the file, opens as a
-- segment that holds exactly these records: the torn tail is cut off, and no entry of the index
-- points past them.
pub open_segment-Holds :
    (base interval : ℕ) (rs lost : List Record) (tail : List ℕ) (index : List IndexEntry)
    → All Stored rs
    → RunFrom base rs
    → 0 < base
    → base + length rs < u64
    → Stops tail
    → Short tail lost
    → All (Points base (rs ++ lost)) index
    → Ascending index
    → All FitsEntry index
    → Holds (open_segment (frames rs ++ tail) (encode_index index) base interval false) rs
unfolding open_segment recover
open_segment-Holds base interval rs lost tail index stored run low high stop short points up fits =
    let file = frames rs ++ tail in
    let kept = trim_index (length file) index in
    rw (load_index-encode index fits) (
      recover_from-Holds base interval rs tail (encode_index index) stored run low high stop index
        kept
        (All-within kept (trim_index-All (Points base (rs ++ lost)) (length file) index points)
          (trim_index-below (length file) index up))
        (trim_index-Ascending (length file) index up))
  where
    All-within :
        (es : List IndexEntry)
        → All (Points base (rs ++ lost)) es
        → All (λ x. x.pos < length (frames rs ++ tail)) es
        → All (Points base rs) es
    All-within [] p b = tt
    All-within (e ∷ es) p b =
        (Points-within base rs lost tail e short p.0 b.0, All-within es p.1 b.1)
