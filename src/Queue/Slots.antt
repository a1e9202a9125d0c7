-- ===== src/Queue/Slots.antt =====
-- Ring positions (internal/queue/queue.go): the slot that a position falls into, and when two
-- positions share one.
use native.Mathlib.Decide.{dec_lt, ℕ_discrete}
use native.Mathlib.Nat.{
  mod-mod_of_dvd, mod-eq_of_lt, mod-eq-sub-mod, mod-lt, mod-add-mod, dvd_refl, dvd_trans,
  dvd-mul_right, pow-suc,
}
use Prim.Native.Nat.{◌∣◌}
use boltq.Prelude.{
  ℕ, zero, suc, ◌+◌, ◌-◌, ◌%◌, ◌^◌, ◌≤◌, ◌<◌, ◌≡◌, sym, ap, ◌∙◌, ◌⊎◌, inl, inr, arith,
}
use boltq.Prelude.Words.{u64}

Wrapped : ℕ → ℕ → Type 0
Wrapped s c = ((s < c) × (s % c ≡ s)) ⊎ ((c ≤ s) × (s % c ≡ s - c))

-- A sum of two numbers below the capacity wraps once at most.
wrapped : (r i c : ℕ) → r < c → i < c → Wrapped (r + i) c
unfolding Wrapped
wrapped r i c hr hi = elim (dec_lt (r + i) c) [
  | yes below ↦ inl (below, mod-eq_of_lt below)
  | no above ↦
      let reached : c ≤ r + i = omega arith in
      inr (reached, mod-eq-sub-mod reached ∙ mod-eq_of_lt (omega arith))
]

-- Two offsets below the capacity that reach one slot are equal.
pub slot_injective : (a i j c : ℕ) → i < c → j < c → (a + i) % c ≡ (a + j) % c → i ≡ j
unfolding Wrapped
slot_injective a i j c hi hj e =
    let low : a % c < c = mod-lt a (omega arith) in
    omega (
      arith,
      wrapped (a % c) i c low hi,
      wrapped (a % c) j c low hj,
      mod-add-mod a c i,
      mod-add-mod a c j,
    )

pub pow-dvd : (k n : ℕ) → k ≤ n → 2 ^ k ∣ 2 ^ n
pow-dvd zero zero h = dvd_refl 1
pow-dvd (suc k) zero h = absurd (omega arith)
pow-dvd k (suc n) h = elim (ℕ_discrete k (suc n)) [
  | yes same ↦ rw same (dvd_refl _)
  | no less ↦
      dvd_trans (2 ^ k) (pow-dvd k n (omega arith)) (rw (pow-suc 2 n) (dvd-mul_right (2 ^ n) 2))
]

-- The wrap of a 64-bit counter does not move a slot of a ring of 2^k slots.
pub slot_wraps : (k a i : ℕ) → k ≤ 64 → (a % u64 + i) % 2 ^ k ≡ (a + i) % 2 ^ k
slot_wraps k a i h =
    sym (mod-add-mod (a % u64) (2 ^ k) i)
    ∙ ap (λ (t : ℕ). (t + i) % 2 ^ k) (mod-mod_of_dvd (2 ^ k) a (pow-dvd k 64 h))
    ∙ mod-add-mod a (2 ^ k) i
