-- ===== src/Queue/Take.antt =====
-- `TryPop`, `Pop` and their shared body against a bounded FIFO.
use Prim.Native.Nat.{bit_and}
use native.Mathlib.Nat.{add-zero, add-mod_right}
use native.Mathlib.Decide.{dec_lt}
use boltq.Prelude.{
  ℕ, suc, ◌+◌, ◌%◌, ◌^◌, ◌<◌, ◌≡◌, sym, ap, ◌∙◌, false, Option, none, some, List, [], ◌∷◌, arith,
  get_or, set, get_elem?, length-set, get_elem?_beyond, if◌then◌else◌, ◌==◌,
}
use boltq.Protocol.{Message}
use boltq.Queue.{Queue, next, take_slot, try_pop, try_pop_internal, pop, Turn, waits, returns}
use boltq.Queue.Slots.{slot_wraps}
use boltq.Queue.Represents.{Represents}
use boltq.Queue.Push.{tail_slot, slot_written}

module _ (k : ℕ) (q : Queue) (m : Message) (rest : List Message)
    (rep : Represents k q (m ∷ rest)) where
  shifted_slot : (i : ℕ) → (next q.tail + i) % 2 ^ k ≡ (q.tail + suc i) % 2 ^ k
  shifted_slot i = slot_wraps k (q.tail + 1) i rep.width ∙ ap (λ (t : ℕ). t % 2 ^ k) (omega arith)

  lap : {n : ℕ} → n ≡ 2 ^ k → (q.tail + n) % 2 ^ k ≡ (q.tail + 0) % 2 ^ k
  lap e =
      ap (λ (t : ℕ). (q.tail + t) % 2 ^ k) e
      ∙ add-mod_right q.tail (2 ^ k)
      ∙ ap (λ (t : ℕ). t % 2 ^ k) (sym (add-zero q.tail))

  -- The slot that the tail left is the last of the shifted ring, and it is empty.
  taken-slots :
      (i : ℕ)
      → i < 2 ^ k
      → get_or (set q.buf (bit_and q.tail q.mask) none) ((next q.tail + i) % 2 ^ k) none
        ≡ get_elem? rest i
  taken-slots i hi =
      rw (tail_slot k q (m ∷ rest) rep, shifted_slot i)
        (elim (dec_lt (suc i) (2 ^ k)) [
          | yes inside ↦
              slot_written k q (m ∷ rest) rep 0 (suc i) none (omega arith) inside ∙ ground arith
          | no last ↦
              ap (λ (p : ℕ). get_or (set q.buf ((q.tail + 0) % 2 ^ k) none) p none)
                (lap (omega arith))
              ∙ slot_written k q (m ∷ rest) rep 0 0 none (omega arith) (omega arith)
              ∙ sym (get_elem?_beyond rest i (omega (arith, rep.fits)))
        ])

  taken-Represents : Represents k (take_slot q).1 rest
  unfolding take_slot
  taken-Represents = record {
    width = rep.width;
    slots_total = length-set q.buf (bit_and q.tail q.mask) none ∙ rep.slots_total;
    mask_ones = rep.mask_ones;
    sized = omega (arith, rep.sized);
    fits = omega (arith, rep.fits);
    head_follows = omega (arith, rep.head_follows, rep.sized);
    slots = taken-slots;
  }

  taken : (take_slot q).0 ≡ some m
  unfolding take_slot
  taken = rw (tail_slot k q (m ∷ rest) rep) (rep.slots 0 (omega (arith, rep.fits)))

-- What taking from a ring that holds something gives.
pub taken_from_cons :
    (k : ℕ) (q : Queue) (m : Message) (rest : List Message)
    → Represents k q (m ∷ rest)
    → ((try_pop_internal q).0 ≡ some m) × Represents k (try_pop_internal q).1 rest
unfolding try_pop_internal
taken_from_cons k q m rest rep =
    let some_held : (q.size == 0) ≡ false = ground (arith, rep.sized) in
    (rw some_held (taken k q m rest rep), rw some_held (taken-Represents k q m rest rep))

abbrev pub Takes : ℕ → Queue → List Message → Option Message × Queue → Type 0
Takes k q [] r = r ≡ (none, q)
Takes k q (m ∷ rest) r = (r.0 ≡ some m) × Represents k r.1 rest

-- On a ring that represents a list, `TryPop` of an empty queue returns nil and changes nothing;
-- of any other it returns the oldest message and leaves a ring that represents the rest.
pub try_pop-Represents :
    (k : ℕ) (q : Queue) (xs : List Message) → Represents k q xs → Takes k q xs (try_pop q)
unfolding try_pop
try_pop-Represents k q [] rep = ground (arith, rep.sized)
try_pop-Represents k q (m ∷ rest) rep = taken_from_cons k q m rest rep

abbrev pub Pops : ℕ → Queue → List Message → Turn → Type 0
Pops k q [] t = t ≡ (if q.closed then returns none q else waits)
Pops k q (m ∷ rest) t = (q' : Queue) × (t ≡ returns (some m) q') × Represents k q' rest

-- On a ring that represents a list, `Pop` of an empty queue waits while the queue is open and
-- returns nil once it is closed; of any other queue, closed or not, it returns the oldest message
-- and leaves a ring that represents the rest.
pub pop-Represents :
    (k : ℕ) (q : Queue) (xs : List Message) → Represents k q xs → Pops k q xs (pop q)
unfolding pop
pop-Represents k q [] rep = ground (arith, rep.sized)
pop-Represents k q (m ∷ rest) rep =
    let some_held : (q.size == 0) ≡ false = ground (arith, rep.sized) in
    (
      (take_slot q).1,
      rw some_held (ap (λ o. returns o (take_slot q).1) (taken k q m rest rep)),
      taken-Represents k q m rest rep,
    )
