-- ===== src/Broker/Trying.antt =====
-- The rounds of the loop of `TryConsume` (internal/broker/broker.go).
use boltq.Prelude.{
  ℕ, zero, suc, ◌<◌, ◌≡◌, refl, Bool, true, false, ◌&&◌, List, [], ◌∷◌, Option, none, some, arith,
  inl, inr, Option-cases, Bool-cases, length,
}
use boltq.Prelude.Int.{ℤ, pos, ltb_ℤ}
use boltq.Protocol.{Message}
use boltq.Broker.{MessageQueue, tally, try_loop}

abbrev pub has_expired : ℤ → Message → Bool
has_expired now m = ltb_ℤ (pos 0) m.expires_at && ltb_ℤ m.expires_at now

tally_all : (ms : List Message) → tally (λ m. true) ms ≡ length ms
tally_all [] = refl
tally_all (m ∷ ms) = omega (arith, tally_all ms)

-- What so many rounds end with: a message that had not expired when one of them looked at it, or
-- nothing, and then no message is left.
abbrev pub Served : (ℕ → ℤ) → ℕ → Option Message → List Message → Type 0
Served clock n none left = left ≡ []
Served clock n (some m) left = (i : ℕ) × (i < n) × (has_expired (clock i) m ≡ false)

Served-later :
    (clock : ℕ → ℤ) (n : ℕ) (o : Option Message) (left : List Message)
    → Served (λ i. clock (suc i)) n o left
    → Served clock (suc n) o left
Served-later clock n none left h = h
Served-later clock n (some m) left (i, h, alive) = (suc i, omega arith, alive)

module _ {Q : Type 0} ⦃queue : MessageQueue Q⦄ where
  shrinks :
      (q : Q) (m : Message)
      → (queue.try_pop q).0 ≡ some m
      → length (queue.contents q) ≡ suc (length (queue.contents (queue.try_pop q).1))
  shrinks q m got = omega (
    arith,
    tally_all (queue.contents q),
    tally_all (queue.contents (queue.try_pop q).1),
    queue.taken (λ m. true) q m got,
  )

  -- With more rounds than messages, `TryConsume` does not end for want of rounds: any two such numbers
  -- of rounds give the same message and queue; the message had not expired at the time that one of the
  -- rounds read, and there is none only when the queue has no message left.
  pub try_loop-enough :
      (n k : ℕ) (clock : ℕ → ℤ) (q : Q)
      → length (queue.contents q) < n
      → length (queue.contents q) < k
      → (try_loop n clock q ≡ try_loop k clock q)
        × Served clock n (try_loop n clock q).0 (queue.contents (try_loop n clock q).1)
  unfolding try_loop
  try_loop-enough zero k clock q h hk = absurd (omega arith)
  try_loop-enough (suc n) zero clock q h hk = absurd (omega arith)
  try_loop-enough (suc n) (suc k) clock q h hk = elim (Option-cases (queue.try_pop q).0) [
    | inl nothing ↦ rw nothing (refl, (queue.empty q nothing).1)
    | inr (m, got) ↦
        let less = shrinks q m got in
        elim (Bool-cases (has_expired (clock 0) m)) [
          | inl old ↦
              let later = λ (i : ℕ). clock (suc i) in
              let rest = (queue.try_pop q).1 in
              let more =
                try_loop-enough n k later rest (omega (arith, less)) (omega (arith, less)) in
              rw (got, old)
                (
                  more.0,
                  Served-later clock n (try_loop n later rest).0
                      (queue.contents (try_loop n later rest).1) more.1,
                )
          | inr alive ↦ rw (got, alive) (refl, (0, omega arith, alive))
        ]
  ]
