-- ===== src/Queue/Examples.antt =====
-- Runs of the ring buffer, and its theorems at concrete queues.
use boltq.Prelude.{ℕ, ◌≡◌, refl, inl, inr, false, some, [], ◌∷◌, arith, lit}
use boltq.Prelude.Int.{ℤ, pos}
use boltq.Protocol.{Message}
use boltq.Queue.{Queue, new, next_power_of_two, push, try_pop, pop}
use boltq.Queue.Represents.{Represents}
use boltq.Queue.Push.{new-Represents, push-Represents, Pushes}
use boltq.Queue.Take.{try_pop-Represents, pop-Represents, Takes, Pops}

abbrev pub message : ℕ → ℤ → Message
message n priority = record {
  id = n ∷ [];
  topic = lit "orders";
  payload = n ∷ n ∷ [];
  headers = [];
  timestamp = pos 0;
  retry = pos 0;
  max_retry = pos 5;
  delivery_count = pos 0;
  delay = pos 0;
  ttl = pos 0;
  deliver_at = pos 0;
  expires_at = pos 0;
  priority = priority;
  exchange = [];
  routing_key = [];
}

rounding :
    (next_power_of_two 0 ≡ 1)
    × (next_power_of_two 3 ≡ 4)
    × (next_power_of_two 1000 ≡ 1024)
    × (next_power_of_two 1048576 ≡ 1048576)
unfolding next_power_of_two
rounding = (refl, refl, refl, refl)

abbrev pub first : Message
first = message 1 (pos 0)

abbrev second : Message
second = message 2 (pos 0)

empty_queue : Queue
empty_queue = new (lit "orders") 2

one_queue : Queue
unfolding empty_queue
one_queue = (push empty_queue first).1

-- A third message finds the ring of two slots full; the oldest leaves first.
fills :
    ((push (push one_queue second).1 first).0 ≡ false)
    × ((try_pop (push one_queue second).1).0 ≡ some first)
unfolding one_queue new next_power_of_two push try_pop
fills = (refl, refl)

empty_rep : Represents 1 empty_queue []
unfolding empty_queue next_power_of_two
empty_rep = new-Represents (lit "orders") 2 1 refl (omega arith)

one_rep : Represents 1 one_queue (first ∷ [])
unfolding one_queue
one_rep = elim (push-Represents 1 empty_queue [] empty_rep first) [
  | inl (full, _) ↦ absurd (omega arith)
  | inr (_, _, rep) ↦ rep
]

push-Represents_example : Pushes 1 one_queue (first ∷ []) one_rep second (push one_queue second)
push-Represents_example = push-Represents 1 one_queue (first ∷ []) one_rep second

try_pop-Represents_example : Takes 1 one_queue (first ∷ []) (try_pop one_queue)
try_pop-Represents_example = try_pop-Represents 1 one_queue (first ∷ []) one_rep

pop-Represents_example : Pops 1 one_queue (first ∷ []) (pop one_queue)
pop-Represents_example = pop-Represents 1 one_queue (first ∷ []) one_rep
