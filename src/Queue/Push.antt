-- ===== src/Queue/Push.antt =====
-- `New` and `Push` against a bounded FIFO.
use boltq.Prelude.{
  ℕ, ◌+◌, ◌-◌, ◌%◌, ◌^◌, ◌≤◌, ◌<◌, ◌≡◌, refl, sym, ap, ◌∙◌, Bool, true, false, Option, none, some,
  List, [], ◌∷◌, ◌++◌, arith, length, get_or, set, get_elem?, length-replicate, get_or-replicate,
  GoString, length-append, length-set, get_or-set_self, get_or-set_ne, get_elem?-snoc, Bool-cases,
  inl, inr, ◌⊎◌, leb, if◌then◌else◌, ◌==◌,
}
use Prim.Native.Nat.{bit_and}
use native.Mathlib.Nat.{one-le-pow, mod-lt, add-zero, mod-mod_of_dvd}
use boltq.Prelude.Words.{u64, bit_and-ones}
use boltq.Protocol.{Message}
use boltq.Queue.{Queue, new, next_power_of_two, next, push, push_internal}
use boltq.Queue.Slots.{slot_injective, pow-dvd}
use boltq.Queue.Represents.{Represents}

-- A new queue whose capacity rounds up to 2^k represents the empty list in a ring of 2^k slots.
pub new-Represents :
    (name : GoString) (capacity k : ℕ)
    → next_power_of_two capacity ≡ 2 ^ k
    → k ≤ 64
    → Represents k (new name capacity) []
unfolding new
new-Represents name capacity k rounded width = record {
  width = width;
  slots_total = length-replicate (next_power_of_two capacity) none ∙ rounded;
  mask_ones = ap (λ (t : ℕ). t - 1) rounded;
  sized = refl;
  fits = omega arith;
  head_follows = refl;
  slots = λ i h. get_or-replicate (next_power_of_two capacity) ((0 + i) % 2 ^ k) none;
}

module _ (k : ℕ) (q : Queue) (xs : List Message) (rep : Represents k q xs) where
  -- The masked positions of the two ends are the slots of their offsets.
  pub tail_slot : bit_and q.tail q.mask ≡ (q.tail + 0) % 2 ^ k
  tail_slot =
      rw rep.mask_ones (bit_and-ones k q.tail ∙ ap (λ (t : ℕ). t % 2 ^ k) (sym (add-zero q.tail)))

  head_slot : bit_and q.head q.mask ≡ (q.tail + length xs) % 2 ^ k
  head_slot =
      rw (rep.mask_ones, ← rep.sized, rep.head_follows)
        (bit_and-ones k _ ∙ mod-mod_of_dvd (2 ^ k) (q.tail + q.size) (pow-dvd k 64 rep.width))

  pub slot_in_range : (i : ℕ) → (q.tail + i) % 2 ^ k < length q.buf
  slot_in_range i =
      omega (arith, rep.slots_total, mod-lt (q.tail + i) (one-le-pow k 2 (omega arith)))

  -- Writing one slot is seen at its own offset only.
  pub slot_written :
      (at i : ℕ) (v : Option Message)
      → at < 2 ^ k
      → i < 2 ^ k
      → get_or (set q.buf ((q.tail + at) % 2 ^ k) v) ((q.tail + i) % 2 ^ k) none
        ≡ (if at == i then v else get_elem? xs i)
  slot_written at i v hat hi = elim (Bool-cases (at == i)) [
    | inl same ↦
        let e : at ≡ i = ground arith in
        rw (same, e) (get_or-set_self q.buf ((q.tail + i) % 2 ^ k) v none (slot_in_range i))
    | inr other ↦ rw other (
        get_or-set_ne q.buf _ _ v none
          (λ e. ground (arith, slot_injective q.tail at i (2 ^ k) hat hi e))
        ∙ rep.slots i hi)
  ]

  pushed-slots :
      (msg : Message) (i : ℕ)
      → length xs < 2 ^ k
      → i < 2 ^ k
      → get_or (set q.buf (bit_and q.head q.mask) (some msg)) ((q.tail + i) % 2 ^ k) none
        ≡ get_elem? (xs ++ msg ∷ []) i
  pushed-slots msg i room hi =
      rw head_slot (slot_written (length xs) i (some msg) room hi ∙ sym (get_elem?-snoc xs msg i))

  pushed-head : next q.head ≡ (q.tail + (q.size + 1)) % u64
  pushed-head = omega (arith, rep.head_follows)

  abbrev pub Pushes : Message → Bool × Queue → Type 0
  Pushes msg r =
      ((2 ^ k ≤ length xs) × (r ≡ (false, q)))
      ⊎ ((length xs < 2 ^ k) × (r.0 ≡ true) × Represents k r.1 (xs ++ msg ∷ []))

  pub push_internal-Represents : (msg : Message) → Pushes msg (push_internal q msg)
  unfolding push_internal
  push_internal-Represents msg = elim (Bool-cases (leb (length q.buf) q.size)) [
    | inl full ↦ inl (ground (arith, rep.slots_total, rep.sized), rw full)
    | inr room ↦
        let below : length xs < 2 ^ k = ground (arith, rep.slots_total, rep.sized) in
        inr (
          below,
          rw room,
          rw room (record {
            width = rep.width;
            slots_total = length-set q.buf (bit_and q.head q.mask) (some msg) ∙ rep.slots_total;
            mask_ones = rep.mask_ones;
            sized = omega (arith, rep.sized, length-append xs (msg ∷ []));
            fits = omega (arith, length-append xs (msg ∷ []));
            head_follows = pushed-head;
            slots = λ i hi. pushed-slots msg i below hi;
          }),
        )
  ]

  -- On a ring that represents a list, `Push` of a full queue refuses the message and changes
  -- nothing; of any other it puts the message at the end of the list.
  pub push-Represents : (msg : Message) → Pushes msg (push q msg)
  unfolding push
  push-Represents msg = push_internal-Represents msg
