-- ===== src/Prelude/Words.antt =====
-- Machine words: the widths of the source's integers, and `x & (2^k - 1)`.
use Prim.Native.Nat.{
  ℕ, zero, suc, ◌+◌, ◌-◌, ◌*◌, ◌/◌, ◌%◌, ◌^◌, ◌≤◌, ◌<◌, min, bit_and, digits, bit_and-bitwise,
}
use mathlib.Core.Path.{◌≡◌, ap, ◌∙◌}
use native.Mathlib.Omega.{arith}
use native.Mathlib.Nat.{
  pow-suc, one-le-pow, zero-mod, mod-eq_of_lt, mod-lt, mul-add-mod_self_left, div-add-mod,
}

abbrev pub u64 : ℕ
u64 = 2 ^ 64

abbrev pub u32 : ℕ
u32 = 2 ^ 32

-- The lowest digit of a remainder by an even number splits off.
pub mod-double : (a m : ℕ) → 0 < m → a % (m * 2) ≡ (a / 2 % m) * 2 + a % 2
mod-double a m pos =
    ap (λ (t : ℕ). t % (m * 2)) split ∙ mul-add-mod_self_left (m * 2) q low ∙ mod-eq_of_lt fits
  where
    q : ℕ
    q = a / 2 / m

    r : ℕ
    r = a / 2 % m

    low : ℕ
    low = r * 2 + a % 2

    small : r < m
    small = mod-lt (a / 2) pos

    fits : low < m * 2
    fits = omega (arith, small)

    whole : m * q + r ≡ a / 2
    whole = div-add-mod (a / 2) m

    split : a ≡ m * 2 * q + low
    split = omega (arith, whole)

-- The digits that the native `bit_and` stands for, with their fuel apart.
abbrev and_digits : ℕ → ℕ → ℕ → ℕ
and_digits n a b = digits (λ _. zero) min n a b

halved : (k : ℕ) → (2 ^ suc k - 1) / 2 ≡ 2 ^ k - 1
halved k = omega (arith, pow-suc 2 k, one-le-pow k 2 (omega arith))

and_digits-ones : (n k a : ℕ) → a ≤ n → and_digits n a (2 ^ k - 1) ≡ a % 2 ^ k
and_digits-ones zero k zero h = omega (arith, zero-mod (2 ^ k))
and_digits-ones zero k (suc a) h = absurd (omega arith)
and_digits-ones (suc n) k zero h = omega (arith, zero-mod (2 ^ k))
and_digits-ones (suc n) zero (suc a) h =
    omega (arith, and_digits-ones n zero (suc a / 2) (omega arith))
and_digits-ones (suc n) (suc k) (suc a) h = rw (halved k) (
    omega (
      arith,
      and_digits-ones n k (suc a / 2) (omega arith),
      mod-double (suc a) (2 ^ k) (one-le-pow k 2 (omega arith)),
      ap (λ (t : ℕ). suc a % t) (pow-suc 2 k),
      pow-suc 2 k,
      one-le-pow k 2 (omega arith),
    ))

-- A mask of `k` ones takes the remainder by `2 ^ k`.
pub bit_and-ones : (k a : ℕ) → bit_and a (2 ^ k - 1) ≡ a % 2 ^ k
bit_and-ones k a = bit_and-bitwise a (2 ^ k - 1) ∙ and_digits-ones a k a (omega arith)
