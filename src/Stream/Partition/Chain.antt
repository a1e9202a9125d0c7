-- ===== src/Stream/Partition/Chain.antt =====
-- The records that the segments of a partition hold (internal/stream/partition.go).
use boltq.Prelude.{
  ℕ, ◌+◌, ◌<◌, ◌≡◌, refl, sym, ap, ◌∙◌, List, [], ◌∷◌, ◌++◌, length, length-append, append_nil,
  arith, All, All-append, false,
}
use boltq.Prelude.Words.{u64}
use boltq.Prelude.Bytes.{append_assoc}
use boltq.Stream.{Record}
use boltq.Stream.Segment.{Segment, create_segment, is_empty}
use boltq.Stream.Segment.Frames.{Holds, RunFrom, RunFrom-append, Stored}
use boltq.Stream.Partition.{Partition}

-- Segments that hold the records one after the other, from the sequence `base` on: the sealed ones,
-- none of them empty, then the active one.
abbrev pub Chain : List Segment → Segment → ℕ → List Record → Type 0
Chain [] active base rs = Holds active rs × (active.base_seq ≡ base) × (active.read_only ≡ false)
Chain (s ∷ sealed) active base rs =
    (here : List Record) × (rest : List Record) × (rs ≡ here ++ rest)
    × Holds s here
    × (s.base_seq ≡ base)
    × (0 < length here)
    × Chain sealed active (base + length here) rest

-- The partition's log is exactly these records, from its first sequence to before its next.
pub record IsLog (p : Partition) (rs : List Record) : Type 0 where
  pub chain : Chain p.sealed p.active p.first_seq rs
  pub next : p.next_seq ≡ p.first_seq + length rs
  pub low : 0 < p.first_seq
  pub high : p.next_seq < u64

-- A new segment is empty.
pub create_segment-Holds :
    (base interval : ℕ) → 0 < base → base < u64 → Holds (create_segment base interval) []
unfolding create_segment
create_segment-Holds base interval low high = record {
  stored = tt;
  run = tt;
  file = refl;
  size = refl;
  low = low;
  high = omega (arith, high);
  last = omega (arith, low, high);
  index = tt;
  order = tt;
}

-- The active segment replaced by one with a record more.
pub Chain-grow :
    (sealed : List Segment) (active new : Segment) (base : ℕ) (rs : List Record) (r : Record)
    → Chain sealed active base rs
    → ((l : List Record)
        → Holds active l
        → active.base_seq + length l ≡ base + length rs
        → Holds new (l ++ r ∷ []))
    → new.base_seq ≡ active.base_seq
    → new.read_only ≡ false
    → Chain sealed new base (rs ++ r ∷ [])
Chain-grow [] active new base rs r (h, e, w) grow same open_seg =
    (grow rs h (omega (arith, e)), same ∙ e, open_seg)
Chain-grow (s ∷ sealed) active new base rs r (here, rest, split, h, e, some_here, c) grow same
      open_seg =
    (
      here,
      rest ++ r ∷ [],
      ap (λ t. t ++ r ∷ []) split ∙ append_assoc here rest (r ∷ []),
      h,
      e,
      some_here,
      Chain-grow sealed active new (base + length here) rest r c
          (λ l hl at. grow l hl (omega (arith, at, ap length split, length-append here rest))) same
          open_seg,
    )

-- The active segment sealed behind a new one.
pub Chain-roll :
    (sealed : List Segment) (active new : Segment) (base : ℕ) (rs : List Record)
    → Chain sealed active base rs
    → is_empty active ≡ false
    → Holds new []
    → new.base_seq ≡ base + length rs
    → new.read_only ≡ false
    → Chain (sealed ++ active ∷ []) new base rs
Chain-roll [] active new base rs (h, e, w) filled hn at open_seg =
    (rs, [], sym (append_nil rs), h, e, ground (arith, filled, h.last, h.low), (hn, at, open_seg))
Chain-roll (s ∷ sealed) active new base rs (here, rest, split, h, e, some_here, c) filled hn at
      open_seg =
    (
      here,
      rest,
      split,
      h,
      e,
      some_here,
      Chain-roll sealed active new (base + length here) rest c filled hn
          (omega (arith, at, ap length split, length-append here rest)) open_seg,
    )

-- The active segment ends where the log ends.
pub Chain-active :
    (sealed : List Segment) (active : Segment) (base : ℕ) (rs : List Record)
    → Chain sealed active base rs
    → (l : List Record) × Holds active l
      × (active.base_seq + length l ≡ base + length rs)
      × (active.read_only ≡ false)
Chain-active [] active base rs (h, e, w) = (rs, h, omega (arith, e), w)
Chain-active (s ∷ sealed) active base rs (here, rest, split, h, e, some_here, c) =
    let (l, hl, at, w) = Chain-active sealed active (base + length here) rest c in
    (l, hl, omega (arith, at, ap length split, length-append here rest), w)

-- The records of a log have consecutive sequences.
pub Chain-run :
    (sealed : List Segment) (active : Segment) (base : ℕ) (rs : List Record)
    → Chain sealed active base rs
    → RunFrom base rs × All Stored rs
Chain-run [] active base rs (h, e, w) = (rw (sym e) h.run, h.stored)
Chain-run (s ∷ sealed) active base rs (here, rest, split, h, e, some_here, c) =
    let tail = Chain-run sealed active (base + length here) rest c in
    rw split (
      RunFrom-append base here rest (rw (sym e) h.run) tail.0,
      All-append Stored here rest h.stored tail.1,
    )
