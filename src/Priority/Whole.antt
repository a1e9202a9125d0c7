-- ===== src/Priority/Whole.antt =====
-- `NewPriority` and `Purge`: the priority queue without a message.
use boltq.Prelude.{
  ℕ, zero, suc, ◌+◌, ◌^◌, ◌≤◌, ◌≡◌, refl, ap, ◌∙◌, inl, inr, false, List, [], ◌∷◌, arith, GoString,
  length, ltb, Bool-cases,
}
use boltq.Protocol.{Message}
use boltq.Queue.{Queue, next_power_of_two}
use boltq.Queue.Represents.{Represents}
use boltq.Queue.Push.{new-Represents}
use boltq.Queue.Scan.{purge-Represents}
use boltq.Priority.{
  PriorityQueue, num_priority_levels, new_priority, new_levels, purge, purge_levels,
}
use boltq.Priority.Order.{Holds, contents, PriorityHolds}

abbrev pub no_messages : ℕ → List (List Message)
no_messages zero = []
no_messages (suc n) = [] ∷ no_messages n

pub contents-no_messages : (n : ℕ) → contents (no_messages n) ≡ []
contents-no_messages zero = refl
contents-no_messages (suc n) = rw (contents-no_messages n) refl

module _ (cap k : ℕ) (rounded : next_power_of_two cap ≡ 2 ^ k) (width : k ≤ 64) where
  new_levels-Holds :
      (n i : ℕ) (level_name : ℕ → GoString)
      → Holds k (new_levels n i level_name cap) (no_messages n)
  unfolding new_levels
  new_levels-Holds zero i level_name = tt
  new_levels-Holds (suc n) i level_name =
      (new-Represents (level_name i) cap k rounded width, new_levels-Holds n (i + 1) level_name)

  length-new_levels :
      (n i : ℕ) (level_name : ℕ → GoString) → length (new_levels n i level_name cap) ≡ n
  unfolding new_levels
  length-new_levels zero i level_name = refl
  length-new_levels (suc n) i level_name = ap suc (length-new_levels n (i + 1) level_name)

  pub new_priority-Holds :
      (name : GoString) (level_name : ℕ → GoString)
      → PriorityHolds k (new_priority name level_name cap) (no_messages num_priority_levels)
  unfolding new_priority
  new_priority-Holds name level_name = record {
    ten = length-new_levels 10 0 level_name;
    levels = new_levels-Holds 10 0 level_name;
    sized = refl;
  }

purge_levels-Holds :
    (k : ℕ) (qs : List Queue) (xss : List (List Message))
    → Holds k qs xss
    → Holds k (purge_levels qs).1 (no_messages (length qs))
unfolding purge_levels
purge_levels-Holds k [] [] h = tt
purge_levels-Holds k [] (xs ∷ xss) h = absurd h
purge_levels-Holds k (q ∷ qs) [] h = absurd h
purge_levels-Holds k (q ∷ qs) (xs ∷ xss) (rep, h) = elim (Bool-cases (ltb 0 q.size)) [
  | inl some_held ↦ rw some_held ((purge-Represents k q xs rep).1, purge_levels-Holds k qs xss h)
  | inr empty ↦ rw empty (nothing empty xs rep, purge_levels-Holds k qs xss h)
]
  where
    nothing : ltb 0 q.size ≡ false → (ms : List Message) → Represents k q ms → Represents k q []
    nothing e [] r = r
    nothing e (m ∷ ms) r = absurd (ground (arith, e, r.sized))

length-purge_levels : (qs : List Queue) → length (purge_levels qs).1 ≡ length qs
unfolding purge_levels
length-purge_levels [] = refl
length-purge_levels (q ∷ qs) = elim (Bool-cases (ltb 0 q.size)) [
  | inl some_held ↦ rw some_held (ap suc (length-purge_levels qs))
  | inr empty ↦ rw empty (ap suc (length-purge_levels qs))
]

pub purge-Holds :
    (k : ℕ) (pq : PriorityQueue) (xss : List (List Message))
    → PriorityHolds k pq xss
    → PriorityHolds k (purge pq).1 (no_messages num_priority_levels)
unfolding purge
purge-Holds k pq xss h = record {
  ten = length-purge_levels pq.levels ∙ h.ten;
  levels = rw h.ten at (purge_levels-Holds k pq.levels xss h.levels);
  sized = refl;
}
