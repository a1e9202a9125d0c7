-- ===== src/Prelude/Taking.antt =====
-- The beginnings of lists.
use Prim.Native.Nat.{ℕ, zero, suc, ◌-◌, ◌≤◌, ◌<◌}
use mathlib.Core.Path.{◌≡◌, refl, ap}
use mathlib.Core.List.{List, [], ◌∷◌, ◌++◌}
use native.Mathlib.Omega.{arith}
use boltq.Prelude.Lists.{length, take, drop, All, get_or}

module _ {ℓ} {A : Type ℓ} where
  pub take_nil : (n : ℕ) → take {A = A} n [] ≡ []
  take_nil zero = refl
  take_nil (suc n) = refl

  pub split_take : (k : ℕ) (xs : List A) → xs ≡ take k xs ++ drop k xs
  split_take zero xs = refl
  split_take (suc k) [] = refl
  split_take (suc k) (x ∷ xs) = ap (λ t. x ∷ t) (split_take k xs)

  pub take-beyond :
      (k : ℕ) (ahead behind : List A)
      → length ahead ≤ k
      → take k (ahead ++ behind) ≡ ahead ++ take (k - length ahead) behind
  take-beyond k [] behind le = let z : k - 0 ≡ k = omega arith in rw z refl
  take-beyond zero (x ∷ ahead) behind le = absurd (omega arith)
  take-beyond (suc k) (x ∷ ahead) behind le =
      let z : suc k - suc (length ahead) ≡ k - length ahead = omega arith in
      rw z (ap (λ t. x ∷ t) (take-beyond k ahead behind (omega (arith, le))))

  pub take-within : (k : ℕ) (a b : List A) → k ≤ length a → take k (a ++ b) ≡ take k a
  take-within zero a b le = refl
  take-within (suc k) [] b le = absurd (omega arith)
  take-within (suc k) (x ∷ a) b le = ap (λ t. x ∷ t) (take-within k a b (omega (arith, le)))

  pub length-take : (k : ℕ) (xs : List A) → k ≤ length xs → length (take k xs) ≡ k
  length-take zero xs le = refl
  length-take (suc k) [] le = absurd (omega arith)
  length-take (suc k) (x ∷ xs) le = ap suc (length-take k xs (omega (arith, le)))

module _ {ℓ κ} {A : Type ℓ} (P : A → Type κ) where
  pub All-take : (k : ℕ) (xs : List A) → All P xs → All P (take k xs)
  All-take zero xs all = tt
  All-take (suc k) [] all = tt
  All-take (suc k) (x ∷ xs) all = (all.0, All-take k xs all.1)

  pub All-take_at :
      (d : A) (k : ℕ) (xs : List A)
      → ((m : ℕ) → m < k → m < length xs → P (get_or xs m d))
      → All P (take k xs)
  All-take_at d zero xs at = tt
  All-take_at d (suc k) [] at = tt
  All-take_at d (suc k) (x ∷ xs) at = (
    at 0 (omega arith) (omega arith),
    All-take_at d k xs λ m a b. at (suc m) (omega (arith, a)) (omega (arith, b)),
  )

  pub All-at : (d : A) (xs : List A) (m : ℕ) → All P xs → m < length xs → P (get_or xs m d)
  All-at d [] m all h = absurd (omega arith)
  All-at d (x ∷ xs) zero all h = all.0
  All-at d (x ∷ xs) (suc m) all h = All-at d xs m all.1 (omega (arith, h))
