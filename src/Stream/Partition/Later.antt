-- ===== src/Stream/Partition/Later.antt =====
-- The records of a log from a sequence on (internal/stream/partition.go).
use boltq.Prelude.{
  ℕ, suc, ◌+◌, ◌%◌, ◌≤◌, ◌<◌, ◌≡◌, refl, ap, ◌∙◌, List, [], ◌∷◌, ◌++◌, length, arith, false, true,
  leb, inl, inr, Bool-cases,
}
use boltq.Prelude.Words.{u64}
use boltq.Stream.{Record}
use boltq.Stream.Segment.Frames.{RunFrom}
use boltq.Stream.Partition.Reads.{sizes, next_from}
use boltq.Stream.Partition.Parts.{later}

pub later-append :
    (from : ℕ) (rs qs : List Record) → later from (rs ++ qs) ≡ later from rs ++ later from qs
later-append from [] qs = refl
later-append from (r ∷ rs) qs = elim (Bool-cases (leb from r.seq)) [
  | inl e ↦ rw e (ap (λ t. r ∷ t) (later-append from rs qs))
  | inr e ↦ rw e (later-append from rs qs)
]

pub sizes-append : (rs qs : List Record) → sizes (rs ++ qs) ≡ sizes rs + sizes qs
sizes-append [] qs = omega arith
sizes-append (r ∷ rs) qs = omega (arith, sizes-append rs qs)

-- From a run that starts at `from` or later, all of it; from one that ends before it, nothing.
pub later_all :
    (from base : ℕ) (rs : List Record) → RunFrom base rs → from ≤ base → later from rs ≡ rs
later_all from base [] run le = refl
later_all from base (r ∷ rs) run le =
    let e : leb from r.seq ≡ true = ground (arith, run.0, le) in
    rw e (ap (λ t. r ∷ t) (later_all from (suc base) rs run.1 (omega (arith, le))))

pub later_none :
    (from base : ℕ) (rs : List Record)
    → RunFrom base rs
    → base + length rs ≤ from
    → later from rs ≡ []
later_none from base [] run le = refl
later_none from base (r ∷ rs) run le =
    let e : leb from r.seq ≡ false = ground (arith, run.0, le) in
    rw e (later_none from (suc base) rs run.1 (omega (arith, le)))

pub later_some :
    (from base : ℕ) (rs : List Record)
    → RunFrom base rs
    → from < base + length rs
    → 0 < length rs
    → 0 < length (later from rs)
later_some from base [] run lt some_left = absurd (omega (arith, some_left))
later_some from base (r ∷ rs) run lt some_left = elim (Bool-cases (leb from r.seq)) [
  | inl e ↦ rw e (omega arith)
  | inr e ↦
      rw e (later_some from (suc base) rs run.1 (omega (arith, lt)) (ground (arith, e, run.0, lt)))
]

-- After a segment that was read to its end, the next read goes on behind it.
pub next_from-run :
    (start base : ℕ) (rs : List Record)
    → RunFrom base rs
    → base + length rs < u64
    → 0 < length rs
    → next_from start rs ≡ base + length rs
next_from-run start base [] run fits some_left = absurd (omega (arith, some_left))
next_from-run start base (r ∷ []) run fits some_left = omega (arith, run.0, fits)
next_from-run start base (r ∷ (q ∷ rs)) run fits some_left =
    next_from-run ((r.seq + 1) % u64) (suc base) (q ∷ rs) run.1 (omega (arith, fits)) (omega arith)
    ∙ omega arith

pub next_from-later :
    (start from base : ℕ) (rs : List Record)
    → RunFrom base rs
    → base + length rs < u64
    → 0 < length (later from rs)
    → next_from start (later from rs) ≡ base + length rs
next_from-later start from base [] run fits some_left = absurd (omega (arith, some_left))
next_from-later start from base (r ∷ rs) run fits some_left = elim (Bool-cases (leb from r.seq)) [
  | inl e ↦
      let whole = later_all from base (r ∷ rs) run (ground (arith, e, run.0)) in
      rw whole (next_from-run start base (r ∷ rs) run fits (omega arith))
  | inr e ↦
      let some_more : 0 < length (later from rs) = rw e at some_left in
      rw e (
        next_from-later start from (suc base) rs run.1 (omega (arith, fits)) some_more
        ∙ omega arith)
]

-- From a sequence of the log on, its records run from that sequence.
pub later-run :
    (from base : ℕ) (rs : List Record)
    → RunFrom base rs
    → base ≤ from
    → RunFrom from (later from rs)
later-run from base [] run le = tt
later-run from base (r ∷ rs) run le = elim (Bool-cases (leb from r.seq)) [
  | inl e ↦
      let q : from ≡ base = ground (arith, e, le, run.0) in
      let whole = later_all from base (r ∷ rs) run (omega (arith, q)) in rw (whole, q) run
  | inr e ↦ rw e (later-run from (suc base) rs run.1 (ground (arith, e, run.0, le)))
]

pub RunFrom-front : (base : ℕ) (rs qs : List Record) → RunFrom base (rs ++ qs) → RunFrom base rs
RunFrom-front base [] qs run = tt
RunFrom-front base (r ∷ rs) qs run = (run.0, RunFrom-front (suc base) rs qs run.1)
