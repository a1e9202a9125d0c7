-- ===== src/Share/Slide.antt =====
-- The loop of advanceLocked (internal/queuelog/share.go).
use boltq.Prelude.{
  ℕ, zero, suc, ◌≤◌, ◌<◌, ◌≡◌, true, false, ◌&&◌, leb, nat_eq, arith, Bool-cases, inl, inr,
}
use boltq.Prelude.Dict.{Dict, has, remove, size, get-remove, size-remove}
use boltq.Share.{slide}

-- The base moves over retired sequences only, and what it passes leaves the retired.
pub slide-passes :
    (n base s : ℕ) (retired : Dict ℕ (Unit {0}))
    → ((t : ℕ) → has retired t ≡ true → base ≤ t)
    → (base ≤ (slide n base retired).0)
      × (has (slide n base retired).1 s ≡ (has retired s && leb (slide n base retired).0 s))
      × (base ≤ s → s < (slide n base retired).0 → has retired s ≡ true)
unfolding slide
slide-passes zero base s retired h = ground (arith, h s)
slide-passes (suc n) base s retired h = elim (Bool-cases (has retired base)) [
  | inl done ↦ rw done (
      ground (
        arith,
        slide-passes n (suc base) s (remove retired base)
            (λ t held. ground (arith, h t, held, get-remove retired base t)),
        get-remove retired base s,
        h s,
        done,
      ))
  | inr open_seq ↦ rw open_seq (ground (arith, h s))
]

-- With fuel for every retired sequence, the base is not retired at the end.
pub slide-stops :
    (n base : ℕ) (retired : Dict ℕ (Unit {0}))
    → size retired ≤ n
    → has (slide n base retired).1 (slide n base retired).0 ≡ false
unfolding slide
slide-stops zero base retired h = ground (arith, size-remove retired base)
slide-stops (suc n) base retired h = elim (Bool-cases (has retired base)) [
  | inl done ↦ rw done (
      slide-stops n (suc base) (remove retired base)
        (ground (arith, done, size-remove retired base)))
  | inr open_seq ↦ rw open_seq open_seq
]
