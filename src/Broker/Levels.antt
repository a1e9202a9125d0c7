-- ===== src/Broker/Levels.antt =====
-- The priority queue of internal/queue/priority_queue.go as a broker's queue: every call runs
-- the queue's own method.
use boltq.Prelude.{
  ℕ, zero, suc, ◌+◌, ◌^◌, ◌≤◌, ◌<◌, ◌≡◌, refl, ap, ◌∙◌, inl, inr, Bool, true, false, List, [], ◌∷◌,
  ◌++◌, Option, none, some, GoString, arith, length,
}
use boltq.Protocol.{Message}
use boltq.Queue.{next_power_of_two}
use boltq.Priority
use boltq.Priority.{PriorityQueue, num_priority_levels, clamp_priority}
use boltq.Priority.Order.{contents, PriorityHolds, PopsHighest, try_pop_highest}
use boltq.Priority.Insert.{
  PushesPriority, push_at_level, add_at, drain_in_order, length-Holds, clamp-in-range,
}
use boltq.Priority.Whole.{no_messages, contents-no_messages, new_priority-Holds, purge-Holds}
use boltq.Broker.{MessageQueue, tally}
use boltq.Broker.Counting.{tally-append}

pub record Levels (k : ℕ) : Type 0 where
  pub queue : PriorityQueue
  pub held : List (List Message)
  pub holds : PriorityHolds k queue held

tally-add_at :
    (p : Message → Bool) (i : ℕ) (m : Message) (xss : List (List Message))
    → i < length xss
    → tally p (contents (add_at i m xss)) ≡ tally p (contents xss) + tally p (m ∷ [])
tally-add_at p i m [] h = absurd (omega arith)
tally-add_at p zero m (xs ∷ xss) h = omega (
  arith,
  tally-append p (contents xss) (xs ++ m ∷ []),
  tally-append p xs (m ∷ []),
  tally-append p (contents xss) xs,
)
tally-add_at p (suc i) m (xs ∷ xss) h = omega (
  arith,
  tally-append p (contents (add_at i m xss)) xs,
  tally-append p (contents xss) xs,
  tally-add_at p i m xss (omega arith),
)

module _ (k : ℕ) where
  abbrev PushOf : Levels k → Message → Type 0
  PushOf r m = PushesPriority k r.queue r.held r.holds m

  abbrev PopOf : Levels k → Type 0
  PopOf r = PopsHighest k r.queue r.held (Priority.try_pop r.queue)

  pushed_levels : (r : Levels k) (m : Message) → PushOf r m → Bool × Levels k
  pushed_levels r m (inl _) = (false, r)
  pushed_levels r m (inr (q, room, e, h)) =
      (true, record { queue = q; held = add_at (clamp_priority m.priority) m r.held; holds = h })

  pub push_levels : Levels k → Message → Bool × Levels k
  push_levels r m = pushed_levels r m (push_at_level k r.queue r.held r.holds m)

  taken_levels : (r : Levels k) → PopOf r → Option Message × Levels k
  taken_levels r (inl _) = (none, r)
  taken_levels r (inr (m, xss, got, h, order)) =
      (some m, record { queue = (Priority.try_pop r.queue).1; held = xss; holds = h })

  pub pop_levels : Levels k → Option Message × Levels k
  pop_levels r = taken_levels r (try_pop_highest k r.queue r.held r.holds)

  pub purge_of_levels : Levels k → ℕ × Levels k
  purge_of_levels r =
      let done = Priority.purge r.queue in
      (
        done.0,
        record {
          queue = done.1;
          held = no_messages num_priority_levels;
          holds = purge-Holds k r.queue r.held r.holds;
        },
      )

  -- The calls are the priority queue's; its `Push` never indexes past the levels.
  pub levels_run :
      (r : Levels k) (m : Message)
      → (Priority.push r.queue m ≡ some ((push_levels r m).0, (push_levels r m).1.queue))
        × (Priority.try_pop r.queue ≡ ((pop_levels r).0, (pop_levels r).1.queue))
        × (Priority.purge r.queue ≡ ((purge_of_levels r).0, (purge_of_levels r).1.queue))
        × (Priority.drain r.queue ≡ contents r.held)
  unfolding push_levels pop_levels purge_of_levels pushed_levels taken_levels
  levels_run r m = (
    pushes (push_at_level k r.queue r.held r.holds m),
    takes (try_pop_highest k r.queue r.held r.holds),
    refl,
    drain_in_order k r.queue r.held r.holds,
  )
    where
      pushes :
          (s : PushOf r m)
          → Priority.push r.queue m ≡ some ((pushed_levels r m s).0, (pushed_levels r m s).1.queue)
      pushes (inl (full, e)) = e
      pushes (inr (q, room, e, h)) = e

      takes :
          (s : PopOf r)
          → Priority.try_pop r.queue ≡ ((taken_levels r s).0, (taken_levels r s).1.queue)
      takes (inl (none_held, e)) = e
      takes (inr (m, xss, got, h, order)) =
          ap (λ (o : Option Message). (o, (Priority.try_pop r.queue).1)) got

  -- A capacity that rounds up to 2^k; `level_name` is fmt.Sprintf.
  pub priority_queues :
      (cap : ℕ)
      → next_power_of_two cap ≡ 2 ^ k
      → k ≤ 64
      → (GoString → ℕ → GoString)
      → MessageQueue (Levels k)
  unfolding push_levels pop_levels purge_of_levels pushed_levels taken_levels
  priority_queues cap rounded width level_name = record {
    create = λ name. record {
      queue = Priority.new_priority name (level_name name) cap;
      held = no_messages num_priority_levels;
      holds = new_priority-Holds cap k rounded width name (level_name name);
    };
    push = push_levels;
    try_pop = pop_levels;
    purge = purge_of_levels;
    has_message = λ r id. Priority.has_message r.queue id;
    contents = λ r. contents r.held;
    created = λ name. contents-no_messages num_priority_levels;
    refused = λ r m h. refused r m (push_at_level k r.queue r.held r.holds m) h;
    accepted = λ p r m h. accepted p r m (push_at_level k r.queue r.held r.holds m) h;
    empty = λ r h. empty r (try_pop_highest k r.queue r.held r.holds) h;
    taken = λ p r m h. taken p r (try_pop_highest k r.queue r.held r.holds) m h;
    purged = λ r. contents-no_messages num_priority_levels;
  }
    where
      refused :
          (r : Levels k) (m : Message) (s : PushOf r m)
          → (pushed_levels r m s).0 ≡ false
          → contents (pushed_levels r m s).1.held ≡ contents r.held
      refused r m (inl _) h = refl
      refused r m (inr _) h = ground (arith, h)

      accepted :
          (p : Message → Bool) (r : Levels k) (m : Message) (s : PushOf r m)
          → (pushed_levels r m s).0 ≡ true
          → tally p (contents (pushed_levels r m s).1.held)
            ≡ tally p (contents r.held) + tally p (m ∷ [])
      accepted p r m (inl _) h = ground (arith, h)
      accepted p r m (inr _) h = tally-add_at p (clamp_priority m.priority) m r.held (
          omega (
            arith,
            clamp-in-range m.priority,
            length-Holds k r.queue.levels r.held r.holds.levels,
            r.holds.ten,
          ))

      empty :
          (r : Levels k) (s : PopOf r)
          → (taken_levels r s).0 ≡ none
          → (contents r.held ≡ []) × (contents (taken_levels r s).1.held ≡ [])
      empty r (inl (none_held, _)) h = (none_held, none_held)
      empty r (inr _) h = absurd (ground (arith, h))

      taken :
          (p : Message → Bool) (r : Levels k) (s : PopOf r) (m : Message)
          → (taken_levels r s).0 ≡ some m
          → tally p (contents r.held)
            ≡ tally p (contents (taken_levels r s).1.held) + tally p (m ∷ [])
      taken p r (inl _) m h = ground (arith, h)
      taken p r (inr (x, xss, got, held, order)) m h = ap (tally p) order ∙ ground (arith, h)

  -- The messages of a queue, in the order in which they leave
  pub contents-levels :
      (cap : ℕ) (rounded : next_power_of_two cap ≡ 2 ^ k) (width : k ≤ 64)
      (level_name : GoString → ℕ → GoString) (r : Levels k)
      → (priority_queues cap rounded width level_name).contents r ≡ contents r.held
  unfolding priority_queues
  contents-levels cap rounded width level_name r = refl
