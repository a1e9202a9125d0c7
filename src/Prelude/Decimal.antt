-- ===== src/Prelude/Decimal.antt =====
-- Numbers as text, %d of fmt, and texts that are joined by a 0 byte.
use Prim.Native.Nat.{ℕ, zero, suc, ◌+◌, ◌-◌, ◌*◌, ◌/◌, ◌%◌, ◌≤◌, ◌<◌}
use mathlib.Core.Path.{◌≡◌, refl, sym, ap, ◌∙◌}
use mathlib.Core.Logic.{◌≢◌, inl, inr}
use mathlib.Core.List.{List, [], ◌∷◌, ◌++◌}
use native.Mathlib.Omega.{arith}
use boltq.Prelude.Tests.{if◌then◌else◌, ltb, Bool-cases}
use boltq.Prelude.Lists.{All, All-append, All-mono}
use boltq.Prelude.Int.{ℤ, pos, negsuc}

-- The digits of a number, with fuel for them.
unfoldable pub decimal : ℕ → ℕ → List ℕ
decimal zero n = []
decimal (suc fuel) n =
    let high = decimal fuel (n / 10) in
    if ltb n 10 then (48 + n) ∷ [] else high ++ (48 + n % 10) ∷ []

-- A digit comes after '/', '-' and the 0 byte.
pub decimal-digits : (fuel n : ℕ) → All (λ c. 48 ≤ c) (decimal fuel n)
unfolding decimal
decimal-digits zero n = tt
decimal-digits (suc fuel) n = elim (Bool-cases (ltb n 10)) [
  | inl one ↦ rw one (omega arith, tt)
  | inr more ↦
      rw more
        (All-append _ (decimal fuel (n / 10)) _ (decimal-digits fuel (n / 10)) (omega arith, tt))
]

-- The number that digits stand for, behind those read already
value : ℕ → List ℕ → ℕ
value acc [] = acc
value acc (c ∷ s) = value (acc * 10 + (c - 48)) s

value-append : (acc : ℕ) (s t : List ℕ) → value acc (s ++ t) ≡ value (value acc s) t
unfolding value
value-append acc [] t = refl
value-append acc (c ∷ s) t = value-append (acc * 10 + (c - 48)) s t

value-decimal : (fuel n : ℕ) → n < fuel → value 0 (decimal fuel n) ≡ n
unfolding decimal value
value-decimal zero n h = absurd (omega arith)
value-decimal (suc fuel) n h = elim (Bool-cases (ltb n 10)) [
  | inl one ↦ rw one (omega arith)
  | inr more ↦
      let big : 10 ≤ n = ground (arith, more) in
      let smaller : n / 10 < fuel = omega (arith, big) in
      rw more (
        value-append 0 (decimal fuel (n / 10)) ((48 + n % 10) ∷ [])
        ∙ (rw (value-decimal fuel (n / 10) smaller) (omega arith)))
]

pub decimal-injective : (m n : ℕ) → decimal (suc m) m ≡ decimal (suc n) n → m ≡ n
decimal-injective m n e =
    sym (value-decimal (suc m) m (omega arith))
    ∙ (ap (value 0) e ∙ value-decimal (suc n) n (omega arith))

unfoldable pub decimal_ℤ : ℤ → List ℕ
unfolding decimal
decimal_ℤ (pos n) = decimal (suc n) n
decimal_ℤ (negsuc n) = 45 ∷ decimal (suc (suc n)) (suc n)

pub decimal_ℤ-digits : (n : ℤ) → All (λ c. 45 ≤ c) (decimal_ℤ n)
unfolding decimal_ℤ
decimal_ℤ-digits (pos n) =
    All-mono (decimal (suc n) n) (λ c h. omega (arith, h)) (decimal-digits (suc n) n)
decimal_ℤ-digits (negsuc n) = (
  omega arith,
  All-mono (decimal (suc (suc n)) (suc n)) (λ c h. omega (arith, h))
      (decimal-digits (suc (suc n)) (suc n)),
)

no_sign : {A : Type 0} (s t : List ℕ) → All (λ c. 48 ≤ c) s → s ≡ 45 ∷ t → A
no_sign [] t h e = absurd (ground (arith, e))
no_sign (c ∷ s) t h e = absurd (let first : c ≡ 45 = cc in omega (arith, first, h.0))

pub decimal_ℤ-injective : (m n : ℤ) → decimal_ℤ m ≡ decimal_ℤ n → m ≡ n
unfolding decimal_ℤ
decimal_ℤ-injective (pos m) (pos n) e = ap pos (decimal-injective m n e)
decimal_ℤ-injective (negsuc m) (negsuc n) e =
    let same : suc m ≡ suc n = decimal-injective (suc m) (suc n) cc in
    ap negsuc (omega (arith, same))
decimal_ℤ-injective (pos m) (negsuc n) e =
    no_sign (decimal (suc m) m) _ (decimal-digits (suc m) m) e
decimal_ℤ-injective (negsuc m) (pos n) e =
    no_sign (decimal (suc n) n) _ (decimal-digits (suc n) n) (sym e)

-- A string up to its first 0 byte determines it and what follows the byte.
pub split-at_zero :
    (a b x y : List ℕ)
    → All (λ c. c ≢ 0) a
    → All (λ c. c ≢ 0) b
    → a ++ 0 ∷ x ≡ b ++ 0 ∷ y
    → (a ≡ b) × (x ≡ y)
split-at_zero [] [] x y ha hb e = (refl, cc)
split-at_zero [] (c ∷ b) x y ha hb e = absurd (hb.0 cc)
split-at_zero (c ∷ a) [] x y ha hb e = absurd (ha.0 cc)
split-at_zero (c ∷ a) (d ∷ b) x y ha hb e =
    let rest = split-at_zero a b x y ha.1 hb.1 cc in (cc, rest.1)
