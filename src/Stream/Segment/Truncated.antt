-- ===== src/Stream/Segment/Truncated.antt =====
-- What a cut leaves in a segment (internal/stream/segment.go, truncateTo).
use boltq.Prelude.{
  ℕ, zero, suc, ◌+◌, ◌-◌, ◌≤◌, ◌<◌, ◌≡◌, refl, sym, ap, ◌∙◌, List, [], ◌∷◌, ◌++◌, none, some,
  length, length-append, arith, All, Bool, false, true, ltb, leb, if◌then◌else◌, inl, inr, get_or,
  take, drop, take-append, Bool-cases, take_nil, split_take, take-beyond, length-take, All-take,
  All-take_at, All-at,
}
use boltq.Prelude.Crc.{crc32}
use boltq.Prelude.Search.{search, search-IsFirst}
use boltq.Stream.{Record}
use boltq.Stream.Codec.{record_body}
use boltq.Stream.Segment.{
  IndexEntry, encode_index, Segment, before, frame, read_frame, no_index_entry, seek_pos,
}
use boltq.Stream.Segment.Cutting.{scan_loop, scan_for_offset, cut_index, cut_at, truncate_to}
use boltq.Stream.Segment.Frames.{
  Ascending, frames, frame_record, frames-append, Holds, Points, Stored, RunFrom, RunFrom-behind,
  Stored-behind, length-frame_of, read_frame-record, seq-of_body,
}
use boltq.Stream.Segment.Seek.{seek_pos-StartsAt, scanned-frames}

scan_loop-frame :
    (fuel seq pos size : ℕ) (bs : List ℕ) (r : Record) (rest : List ℕ)
    → Stored r
    → pos < size
    → read_frame bs ≡ frame (crc32 (record_body r)) (record_body r) rest
    → scan_loop (suc fuel) bs seq pos size ≡ (
        if leb seq r.seq
        then some pos
        else scan_loop fuel rest seq (pos + length (frame_record r)) size)
unfolding scan_loop
scan_loop-frame fuel seq pos size bs r rest st inside e =
    let n : pos + 8 + length (record_body r) ≡ pos + length (frame_record r) =
      omega (arith, length-frame_of (record_body r)) in
    rw (scan_loop, e, seq-of_body r st, n) (ground (arith, inside))

-- The scan finds the end of the records before `seq`.
scan_loop-frames :
    (fuel n seq pos size : ℕ) (rs : List Record)
    → length (frames rs) < fuel
    → All Stored rs
    → RunFrom n rs
    → n ≤ seq
    → pos + length (frames rs) ≡ size
    → scan_loop fuel (frames rs) seq pos size ≡ some (pos + length (frames (take (seq - n) rs)))
unfolding scan_loop
scan_loop-frames zero n seq pos size rs h st run le whole = absurd (omega arith)
scan_loop-frames (suc fuel) n seq pos size [] h st run le whole =
    rw (take_nil (seq - n)) (ground (arith, whole))
scan_loop-frames (suc fuel) n seq pos size (r ∷ rs) h st run le whole =
    let len = length-append (frame_record r) (frames rs) in
    let rl = length-frame_of (record_body r) in
    let step =
      scan_loop-frame fuel seq pos size (frames (r ∷ rs)) r (frames rs) st.0
        (omega (arith, whole, len, rl)) (read_frame-record r st.0 (frames rs)) in
    elim (Bool-cases (leb seq r.seq)) [
      | inl here ↦
          let z : seq - n ≡ 0 = ground (arith, here, run.0, le) in
          rw (step, here, z) (ap some (omega arith))
      | inr later ↦
          let z : seq - n ≡ suc (seq - suc n) = ground (arith, later, run.0, le) in
          let rest =
            scan_loop-frames fuel (suc n) seq (pos + length (frame_record r)) size rs
              (omega (arith, h, len, rl)) st.1 run.1 (ground (arith, later, run.0, le))
              (omega (arith, whole, len)) in
          rw (step, later, z, rest)
            (ap some
              (omega (arith, length-append (frame_record r) (frames (take (seq - suc n) rs)))))
    ]

RunFrom-take : (base k : ℕ) (rs : List Record) → RunFrom base rs → RunFrom base (take k rs)
RunFrom-take base zero rs run = tt
RunFrom-take base (suc k) [] run = tt
RunFrom-take base (suc k) (r ∷ rs) run = (run.0, RunFrom-take (suc base) k rs run.1)

Ascending-take : (k : ℕ) (es : List IndexEntry) → Ascending es → Ascending (take k es)
Ascending-take zero es up = tt
Ascending-take (suc k) [] up = tt
Ascending-take (suc k) (e ∷ es) up =
    (All-take (λ x. (e.pos ≤ x.pos) × (e.seq ≤ x.seq)) k es up.0, Ascending-take k es up.1)

Ascending-at :
    (es : List IndexEntry) (a b : ℕ)
    → Ascending es
    → a ≤ b
    → b < length es
    → (get_or es a no_index_entry).seq ≤ (get_or es b no_index_entry).seq
Ascending-at [] a b up le h = absurd (omega arith)
Ascending-at (e ∷ es) zero zero up le h = omega arith
Ascending-at (e ∷ es) zero (suc b) up le h =
    (All-at (λ x. (e.pos ≤ x.pos) × (e.seq ≤ x.seq)) no_index_entry es b up.0 (omega (arith, h))).1
Ascending-at (e ∷ es) (suc a) zero up le h = absurd (omega arith)
Ascending-at (e ∷ es) (suc a) (suc b) up le h =
    Ascending-at es a b up.1 (omega (arith, le)) (omega (arith, h))

frames_some : (rs : List Record) → 0 < length rs → 0 < length (frames rs)
frames_some [] h = absurd (omega (arith, h))
frames_some (r ∷ rs) h =
    omega (arith, length-append (frame_record r) (frames rs), length-frame_of (record_body r))

module _ (s : Segment) (rs : List Record) (seq : ℕ) (h : Holds s rs) (low : s.base_seq < seq)
    (inside : seq ≤ s.last_seq) where
  abbrev left : List Record
  left = take (seq - s.base_seq) rs

  enough : seq - s.base_seq ≤ length rs
  enough = omega (arith, h.last, inside, low)

  length-left : length left ≡ seq - s.base_seq
  length-left = length-take (seq - s.base_seq) rs enough

  scan_for_offset-left : scan_for_offset s seq ≡ some (length (frames left))
  unfolding scan_for_offset
  scan_for_offset-left =
      let st = seek_pos-StartsAt s rs seq h in
      let bytes = scanned-frames s rs seq h st in
      let n = s.base_seq + length st.ahead in
      let before_seq : n ≤ seq = ground (arith, st.early, low) in
      let total : length (frames rs) ≡ length (frames st.ahead) + length (frames st.behind) =
        ap (λ t. length (frames t)) st.split
        ∙ ap length (frames-append st.ahead st.behind)
        ∙ length-append (frames st.ahead) (frames st.behind) in
      let found =
        scan_loop-frames (suc (length (frames st.behind))) n seq (seek_pos s seq) s.size st.behind
          (omega arith) (Stored-behind st.ahead st.behind (rw (sym st.split) h.stored))
          (RunFrom-behind s.base_seq st.ahead st.behind (rw (sym st.split) h.run)) before_seq
          (omega (arith, h.size, total, st.position)) in
      let k : seq - s.base_seq - length st.ahead ≡ seq - n = omega arith in
      let cut : left ≡ st.ahead ++ take (seq - n) st.behind =
        ap (take (seq - s.base_seq)) st.split
        ∙ take-beyond (seq - s.base_seq) st.ahead st.behind (omega (arith, before_seq))
        ∙ ap (λ t. st.ahead ++ take t st.behind) k in
      ap (λ t. scan_loop (suc (length t)) t seq (seek_pos s seq) s.size) bytes
      ∙ found
      ∙ ap some (
          omega (
            arith,
            st.position,
            ap (λ t. length (frames t)) cut,
            ap length (frames-append st.ahead (take (seq - n) st.behind)),
            length-append (frames st.ahead) (frames (take (seq - n) st.behind)),
          ))

  Points-left : (e : IndexEntry) → Points s.base_seq rs e → e.seq < seq → Points s.base_seq left e
  Points-left e p below = record {
    ahead = p.ahead;
    behind = take (seq - s.base_seq - length p.ahead) p.behind;
    split =
        ap (take (seq - s.base_seq)) p.split
        ∙ take-beyond (seq - s.base_seq) p.ahead p.behind (omega (arith, p.at_seq, below));
    at_seq = p.at_seq;
    at_pos = p.at_pos;
  }

  cut_index-Points : All (Points s.base_seq left) (cut_index s seq)
  cut_index-Points =
      let f : ℕ → Bool = λ i. leb seq (get_or s.index i no_index_entry).seq in
      let first =
        search-IsFirst (length s.index) f
          (λ a b le bound hit. ground (arith, hit, Ascending-at s.index a b h.order le bound)) in
      All-take_at (Points s.base_seq left) no_index_entry (search (length s.index) f) s.index
        λ m below bound.
          Points-left (get_or s.index m no_index_entry)
            (All-at (Points s.base_seq rs) no_index_entry s.index m h.index bound)
            (ground (arith, first.before m below))

  -- A record is missing from what is left, so the file is shorter.
  shorter : length (frames left) < length (frames rs)
  shorter =
      let e = split_take (seq - s.base_seq) rs in
      let total = ap (λ t. length (frames t)) e in
      let both =
        ap length (frames-append left (drop (seq - s.base_seq) rs))
        ∙ length-append (frames left) (frames (drop (seq - s.base_seq) rs)) in
      let some_lost : 0 < length (drop (seq - s.base_seq) rs) = omega (
        arith,
        ap length e,
        length-append left (drop (seq - s.base_seq) rs),
        length-left,
        h.last,
        inside,
        low,
      ) in
      omega (arith, total, both, frames_some (drop (seq - s.base_seq) rs) some_lost)

  cut_file : take (length (frames left)) s.file ≡ frames left
  cut_file =
      ap (take (length (frames left))) (
        h.file
        ∙ ap frames (split_take (seq - s.base_seq) rs)
        ∙ frames-append left (drop (seq - s.base_seq) rs))
      ∙ take-append (length (frames left)) (frames left) (frames (drop (seq - s.base_seq) rs)) refl

  abbrev cut_segment : Segment
  cut_segment = record s {
    file = take (length (frames left)) s.file;
    index = cut_index s seq;
    idx_file = encode_index (cut_index s seq);
    size = length (frames left);
    last_seq = before seq;
    since_idx = 0;
  }

  cut_segment-Holds : Holds cut_segment left
  cut_segment-Holds = record {
    stored = All-take Stored (seq - s.base_seq) rs h.stored;
    run = RunFrom-take s.base_seq (seq - s.base_seq) rs h.run;
    file = cut_file;
    size = refl;
    low = h.low;
    high = omega (arith, h.high, length-left, enough);
    last = omega (arith, length-left, low, inside, h.last, h.high);
    index = cut_index-Points;
    order = Ascending-take _ s.index h.order;
  }

  truncate_to-cut : s.read_only ≡ false → truncate_to true s seq ≡ (none, true, cut_segment)
  unfolding truncate_to cut_at
  truncate_to-cut writable =
      let past : leb s.size (length (frames left)) ≡ false = ground (arith, h.size, shorter) in
      let late : ltb s.last_seq seq ≡ false = ground (arith, inside) in
      rw (scan_for_offset-left, past, late) (ground (arith, writable))

  -- A cut of a writable segment at a sequence that it holds, above its first, leaves exactly the
  -- records before that sequence, with the index entries that point to them, when the disk takes it.
  pub truncate_to-Holds :
      s.read_only ≡ false
      → ((truncate_to true s seq).0 ≡ none)
        × ((truncate_to true s seq).1 ≡ true)
        × Holds (truncate_to true s seq).2 left
  truncate_to-Holds writable = rw (truncate_to-cut writable) (refl, refl, cut_segment-Holds)

  pub truncate_to-same :
      s.read_only ≡ false
      → ((truncate_to true s seq).2.base_seq ≡ s.base_seq)
        × ((truncate_to true s seq).2.read_only ≡ false)
  truncate_to-same writable = rw (truncate_to-cut writable) (refl, writable)
