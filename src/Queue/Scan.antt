-- ===== src/Queue/Scan.antt =====
-- `Drain`, `HasMessage` and `Purge`: the loops over the occupied slots.
use Prim.Native.Nat.{bit_and}
use native.Mathlib.Nat.{add-zero, add-mod-mod, mod-mod_of_dvd, mod-add-mod, mod-lt, one-le-pow}
use boltq.Prelude.{
  ℕ, zero, suc, ◌+◌, ◌%◌, ◌^◌, ◌≤◌, ◌<◌, ◌≡◌, refl, sym, ap, ◌∙◌, ◌⊎◌, Bool, true, false, Option,
  none, List, [], ◌∷◌, arith, length, get_or, set, get_elem?, drop, drop-cons, drop_all, length-set,
  get_or-set_self, get_or-set_ne, get_elem?_beyond, if◌then◌else◌, GoString, str_eq,
}
use native.Mathlib.Decide.{ℕ_discrete}
use boltq.Prelude.Words.{bit_and-ones}
use boltq.Protocol.{Message}
use boltq.Queue.{Queue, next, read_slots, drain, find_slot, has_message, clear_slots, purge}
use boltq.Queue.Slots.{slot_injective, slot_wraps, pow-dvd}
use boltq.Queue.Represents.{Represents}

-- Whether a list of messages has one with this ID.
abbrev pub any_id : GoString → List Message → Bool
any_id id [] = false
any_id id (m ∷ ms) = if str_eq m.id id then true else any_id id ms

module _ (k : ℕ) (q : Queue) (xs : List Message) (rep : Represents k q xs) where
  -- `from` is `j` places after the tail.
  abbrev At : ℕ → ℕ → Type 0
  At from j = from % 2 ^ k ≡ (q.tail + j) % 2 ^ k

  At-next : (from j : ℕ) → At from j → At (next from) (suc j)
  At-next from j e =
      mod-mod_of_dvd (2 ^ k) (from + 1) (pow-dvd k 64 rep.width)
      ∙ sym (mod-add-mod from (2 ^ k) 1)
      ∙ ap (λ (t : ℕ). (t + 1) % 2 ^ k) e
      ∙ mod-add-mod (q.tail + j) (2 ^ k) 1
      ∙ ap (λ (t : ℕ). t % 2 ^ k) (omega arith)

  At-tail : At q.tail 0
  At-tail = ap (λ (t : ℕ). t % 2 ^ k) (sym (add-zero q.tail))

  -- The masked position of `from` reads the message of its offset.
  read-At :
      (from j : ℕ)
      → At from j
      → j < 2 ^ k
      → get_or q.buf (bit_and from q.mask) none ≡ get_elem? xs j
  read-At from j e h = rw (rep.mask_ones, bit_and-ones k from, e) (rep.slots j h)

  read_slots-eq-drop :
      (n j from : ℕ) → j + n ≡ length xs → At from j → read_slots n from q.mask q.buf ≡ drop j xs
  unfolding read_slots
  read_slots-eq-drop zero j from e at = sym (drop_all xs j (omega arith))
  read_slots-eq-drop (suc n) j from e at =
      let (x, here, rest) = drop-cons xs j (omega arith) in
      rw (read-At from j at (omega (arith, rep.fits)), here, rest)
        (ap (◌∷◌ x) (read_slots-eq-drop n (suc j) (next from) (omega arith) (At-next from j at)))

  find_slot-eq-any_id :
      (id : GoString) (n j from : ℕ)
      → j + n ≡ length xs
      → At from j
      → find_slot id n from q.mask q.buf ≡ any_id id (drop j xs)
  unfolding find_slot
  find_slot-eq-any_id id zero j from e at = rw (drop_all xs j (omega arith))
  find_slot-eq-any_id id (suc n) j from e at =
      let (x, here, rest) = drop-cons xs j (omega arith) in
      rw (read-At from j at (omega (arith, rep.fits)), here, rest)
        (ap (λ (t : Bool). if str_eq x.id id then true else t)
          (find_slot-eq-any_id id n (suc j) (next from) (omega arith) (At-next from j at)))

  -- On a ring that represents a list, `Drain` returns that list, oldest message first.
  pub drain-Represents : drain q ≡ xs
  unfolding drain
  drain-Represents = read_slots-eq-drop q.size 0 q.tail (omega (arith, rep.sized)) At-tail

  -- On a ring that represents a list, `HasMessage` finds an ID exactly when a message of the list
  -- has it.
  pub has_message-Represents : (id : GoString) → has_message q id ≡ any_id id xs
  unfolding has_message
  has_message-Represents id =
      find_slot-eq-any_id id q.size 0 q.tail (omega (arith, rep.sized)) At-tail

  -- Clearing `n` slots from offset `j` on, where only those may be occupied, empties the ring.
  cleared :
      (n j from : ℕ) (buf : List (Option Message))
      → length buf ≡ 2 ^ k
      → ((i : ℕ)
          → i < 2 ^ k
          → (i < j) ⊎ (j + n ≤ i)
          → get_or buf ((q.tail + i) % 2 ^ k) none ≡ none)
      → j + n ≤ 2 ^ k
      → At from j
      → (i : ℕ) → i < 2 ^ k
      → get_or (clear_slots n from q.mask buf) ((q.tail + i) % 2 ^ k) none ≡ none
  unfolding clear_slots
  cleared zero j from buf size empty fits at i hi = empty i hi (omega arith)
  cleared (suc n) j from buf size empty fits at i hi =
      cleared n (suc j) (next from) (set buf (bit_and from q.mask) none)
        (length-set buf (bit_and from q.mask) none ∙ size)
        (λ p hp outside. rw (rep.mask_ones, bit_and-ones k from, at) (step p hp outside))
        (omega arith) (At-next from j at) i hi
    where
      step :
          (p : ℕ)
          → p < 2 ^ k
          → (p < suc j) ⊎ (suc j + n ≤ p)
          → get_or (set buf ((q.tail + j) % 2 ^ k) none) ((q.tail + p) % 2 ^ k) none ≡ none
      step p hp outside = elim (ℕ_discrete j p) [
        | yes same ↦ rw same (
            get_or-set_self buf ((q.tail + p) % 2 ^ k) none none
              (omega (arith, size, mod-lt (q.tail + p) (one-le-pow k 2 (omega arith)))))
        | no other ↦
            get_or-set_ne buf _ _ none none
              (λ e. other (slot_injective q.tail j p (2 ^ k) (omega arith) hp e))
            ∙ empty p hp (omega arith)
      ]

  length-clear_slots :
      (n from : ℕ) (buf : List (Option Message))
      → length (clear_slots n from q.mask buf) ≡ length buf
  unfolding clear_slots
  length-clear_slots zero from buf = refl
  length-clear_slots (suc n) from buf =
      length-clear_slots n (next from) (set buf (bit_and from q.mask) none)
      ∙ length-set buf (bit_and from q.mask) none

  -- An offset from the head is an offset from the tail.
  head_offset : (i : ℕ) → (q.head + i) % 2 ^ k ≡ (q.tail + (q.size + i) % 2 ^ k) % 2 ^ k
  head_offset i = rw rep.head_follows (
      slot_wraps k (q.tail + q.size) i rep.width
      ∙ ap (λ (t : ℕ). t % 2 ^ k) (omega arith)
      ∙ sym (add-mod-mod q.tail (q.size + i) (2 ^ k)))

  beyond : (i : ℕ) → i < 2 ^ k → length xs ≤ i → get_or q.buf ((q.tail + i) % 2 ^ k) none ≡ none
  beyond i hi out = rep.slots i hi ∙ get_elem?_beyond xs i out

  -- On a ring that represents a list, `Purge` returns how many messages there were and leaves an
  -- empty ring of the same capacity.
  pub purge-Represents : ((purge q).0 ≡ length xs) × Represents k (purge q).1 []
  unfolding purge
  purge-Represents = (
    rep.sized,
    record {
      width = rep.width;
      slots_total = length-clear_slots q.size q.tail q.buf ∙ rep.slots_total;
      mask_ones = rep.mask_ones;
      sized = refl;
      fits = omega arith;
      head_follows = omega (arith, rep.head_follows);
      slots = λ i hi. rw (head_offset i) (
          cleared q.size 0 q.tail q.buf rep.slots_total
            (λ p hp out. beyond p hp (omega (arith, rep.sized)))
            (omega (arith, rep.fits, rep.sized)) At-tail ((q.size + i) % 2 ^ k)
            (mod-lt (q.size + i) (one-le-pow k 2 (omega arith))));
    },
  )
