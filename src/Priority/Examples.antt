-- ===== src/Priority/Examples.antt =====
-- Runs of the priority queue, and its theorems at concrete queues.
use boltq.Prelude.{◌≡◌, refl, inl, inr, ℕ, List, [], ◌∷◌, arith, lit, GoString}
use boltq.Prelude.Int.{pos, negsuc}
use boltq.Protocol.{Message}
use boltq.Queue
use boltq.Queue.{Queue}
use boltq.Queue.Represents.{Represents}
use boltq.Queue.Push.{new-Represents}
use boltq.Queue.Examples.{message}
use boltq.Priority.{PriorityQueue, new_priority, try_pop, clamp_priority}
use boltq.Priority.Order.{PriorityHolds, PopsHighest, try_pop_highest}
use boltq.Priority.Insert.{push_at_level, add_at}

abbrev level_name : ℕ → GoString
level_name i = i ∷ []

abbrev low : Message
low = message 1 (negsuc 2)

abbrev pub urgent : Message
urgent = message 2 (pos 40)

fresh : PriorityQueue
fresh = new_priority (lit "jobs") level_name 2

abbrev pub no_messages : List (List Message)
no_messages = [] ∷ [] ∷ [] ∷ [] ∷ [] ∷ [] ∷ [] ∷ [] ∷ [] ∷ [] ∷ []

level_rep : (i : ℕ) → Represents 1 (Queue.new (level_name i) 2) []
unfolding Queue.next_power_of_two
level_rep i = new-Represents (level_name i) 2 1 refl (omega arith)

fresh_holds : PriorityHolds 1 fresh no_messages
unfolding fresh new_priority
fresh_holds = record {
  ten = refl;
  levels = (
    level_rep 0,
    (
      level_rep 1,
      (
        level_rep 2,
        (
          level_rep 3,
          (
            level_rep 4,
            (level_rep 5, (level_rep 6, (level_rep 7, (level_rep 8, (level_rep 9, tt))))),
          ),
        ),
      ),
    ),
  );
  sized = refl;
}

-- The queue after one urgent message.
pub busy_holds : (pq : PriorityQueue) × PriorityHolds 1 pq (add_at 9 urgent no_messages)
unfolding clamp_priority
busy_holds = elim (push_at_level 1 fresh no_messages fresh_holds urgent) [
  | inl (full, _) ↦ absurd (omega arith)
  | inr (pq', _, _, h) ↦ (pq', h)
]

abbrev busy_messages : List (List Message)
busy_messages = add_at 9 urgent no_messages

try_pop_highest_example : PopsHighest 1 busy_holds.0 busy_messages (try_pop busy_holds.0)
try_pop_highest_example = try_pop_highest 1 busy_holds.0 busy_messages busy_holds.1

-- Priorities are clamped to the ten levels.
clamps : (clamp_priority (negsuc 2) ≡ 0) × (clamp_priority (pos 40) ≡ 9)
unfolding clamp_priority
clamps = (refl, refl)
