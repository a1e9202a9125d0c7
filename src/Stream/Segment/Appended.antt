-- ===== src/Stream/Segment/Appended.antt =====
-- What an append leaves in a segment (internal/stream/segment.go, append).
use boltq.Prelude.{
  ℕ, suc, ◌+◌, ◌≤◌, ◌<◌, ◌≡◌, refl, sym, ap, ◌∙◌, List, [], ◌∷◌, ◌++◌, none, length, length-append,
  append_nil, arith, All, All-append, All-mono, Bool, false, true, leb, ◌||◌, ◌==◌, if◌then◌else◌,
}
use boltq.Prelude.Words.{u64}
use boltq.Prelude.Bytes.{append_assoc}
use boltq.Stream.{Record}
use boltq.Stream.Segment.{IndexEntry, Segment, append, write_record, indexed}
use boltq.Stream.Segment.Frames.{
  Ascending, frames, frame_record, frames-append, Holds, Points, Stored, RunFrom,
}

Points-more :
    (base : ℕ) (rs qs : List Record) (e : IndexEntry) → Points base rs e → Points base (rs ++ qs) e
Points-more base rs qs e p = record {
  ahead = p.ahead;
  behind = p.behind ++ qs;
  split = ap (λ t. t ++ qs) p.split ∙ append_assoc p.ahead p.behind qs;
  at_seq = p.at_seq;
  at_pos = p.at_pos;
}

RunFrom-snoc :
    (base : ℕ) (rs : List Record) (r : Record)
    → RunFrom base rs
    → r.seq ≡ base + length rs
    → RunFrom base (rs ++ r ∷ [])
RunFrom-snoc base [] r run e = (omega (arith, e), tt)
RunFrom-snoc base (q ∷ rs) r run e = (run.0, RunFrom-snoc (suc base) rs r run.1 (omega (arith, e)))

Ascending-snoc :
    (es : List IndexEntry) (e : IndexEntry)
    → Ascending es
    → All (λ x. (x.pos ≤ e.pos) × (x.seq ≤ e.seq)) es
    → Ascending (es ++ e ∷ [])
Ascending-snoc [] e up le = (tt, tt)
Ascending-snoc (x ∷ es) e up le = (
  All-append (λ y. (x.pos ≤ y.pos) × (x.seq ≤ y.seq)) es (e ∷ []) up.0 (le.0, tt),
  Ascending-snoc es e up.1 le.1,
)

module _ (s : Segment) (rs : List Record) (r : Record) (h : Holds s rs) (st : Stored r)
    (next : r.seq ≡ s.base_seq + length rs) (room : s.base_seq + length rs + 1 < u64) where
  frames-snoc : frames (rs ++ r ∷ []) ≡ frames rs ++ frame_record r
  frames-snoc = frames-append rs (r ∷ []) ∙ ap (λ t. frames rs ++ t) (append_nil (frame_record r))

  -- Only the index differs when an entry is due.
  written-Holds :
      (idx : List ℕ) (index : List IndexEntry) (since : ℕ)
      → All (Points s.base_seq (rs ++ r ∷ [])) index
      → Ascending index
      → Holds
          (write_record true
            (record s { idx_file = idx; index = index; since_idx = since })
            (frame_record r)
            r.seq).1
          (rs ++ r ∷ [])
  written-Holds idx index since points up = record {
    stored = All-append Stored rs (r ∷ []) h.stored (st, tt);
    run = RunFrom-snoc s.base_seq rs r h.run next;
    file = ap (λ t. t ++ frame_record r) h.file ∙ sym frames-snoc;
    size = omega (arith, h.size, ap length frames-snoc, length-append (frames rs) (frame_record r));
    low = h.low;
    high = omega (arith, room, length-append rs (r ∷ []));
    last = omega (arith, next, length-append rs (r ∷ []));
    index = points;
    order = up;
  }

  -- The entries of a segment stand before its end.
  early : All (λ x. (x.pos ≤ s.size) × (x.seq ≤ r.seq)) s.index
  early = All-mono s.index (λ e p. Points-early e p) h.index
    where
      Points-early : (e : IndexEntry) → Points s.base_seq rs e → (e.pos ≤ s.size) × (e.seq ≤ r.seq)
      Points-early e p = (
        omega (
          arith,
          p.at_pos,
          h.size,
          ap (λ t. length (frames t)) p.split,
          ap length (frames-append p.ahead p.behind),
          length-append (frames p.ahead) (frames p.behind),
        ),
        omega (arith, p.at_seq, next, ap length p.split, length-append p.ahead p.behind),
      )

  old-Points : All (Points s.base_seq (rs ++ r ∷ [])) s.index
  old-Points = All-mono s.index (λ e p. Points-more s.base_seq rs (r ∷ []) e p) h.index

  new_point : Points s.base_seq (rs ++ r ∷ []) (record { seq = r.seq; pos = s.size })
  new_point = record { ahead = rs; behind = r ∷ []; split = refl; at_seq = next; at_pos = h.size }

  append-writable :
      s.read_only ≡ false
      → append true true s (frame_record r) r.seq
        ≡ write_record true
            (if leb s.index_interval s.since_idx || length s.index == 0 then indexed s r.seq else s)
            (frame_record r)
            r.seq
  unfolding append
  append-writable writable = ground (arith, writable)

  write-Holds :
      (due : Bool)
      → Holds
          (write_record true (if due then indexed s r.seq else s) (frame_record r) r.seq).1
          (rs ++ r ∷ [])
  write-Holds false = written-Holds s.idx_file s.index s.since_idx old-Points h.order
  write-Holds true =
      written-Holds (indexed s r.seq).idx_file (indexed s r.seq).index 0
        (All-append (Points s.base_seq (rs ++ r ∷ [])) s.index
          (record { seq = r.seq; pos = s.size } ∷ []) old-Points (new_point, tt))
        (Ascending-snoc s.index (record { seq = r.seq; pos = s.size }) h.order early)

  -- An append of the next record to a writable segment leaves the segment with the records that it
  -- held and this one, and every index entry at the start of the record that it names, when the disk
  -- takes the writes and the sequence is below the last of 64 bits.
  pub append-Holds :
      s.read_only ≡ false
      → ((append true true s (frame_record r) r.seq).0 ≡ none)
        × Holds (append true true s (frame_record r) r.seq).1 (rs ++ r ∷ [])
  append-Holds writable =
      rw (append-writable writable)
        (refl, write-Holds (leb s.index_interval s.since_idx || length s.index == 0))

  pub append-same :
      s.read_only ≡ false
      → ((append true true s (frame_record r) r.seq).1.base_seq ≡ s.base_seq)
        × ((append true true s (frame_record r) r.seq).1.read_only ≡ s.read_only)
  append-same writable =
      rw (append-writable writable) (same (leb s.index_interval s.since_idx || length s.index == 0))
    where
      same :
          (due : Bool)
          → ((if due then indexed s r.seq else s).base_seq ≡ s.base_seq)
            × ((if due then indexed s r.seq else s).read_only ≡ s.read_only)
      same false = (refl, refl)
      same true = (refl, refl)
