-- ===== src/Broker/Queues.antt =====
-- The ring buffer of internal/queue/queue.go as a broker's queue: a ring with the messages that it
-- holds and the proof that it does; every call runs the ring's own method.
use boltq.Prelude.{
  ℕ, ◌+◌, ◌^◌, ◌≤◌, ◌≡◌, refl, ap, inl, inr, Bool, true, false, List, [], ◌∷◌, ◌++◌, Option, none,
  some, arith,
}
use boltq.Protocol.{Message}
use boltq.Queue
use boltq.Queue.{Queue, next_power_of_two}
use boltq.Queue.Represents.{Represents}
use boltq.Queue.Push.{new-Represents, push-Represents, Pushes}
use boltq.Queue.Take.{try_pop-Represents, Takes}
use boltq.Queue.Scan.{drain-Represents, purge-Represents}
use boltq.Broker.{MessageQueue, tally}
use boltq.Broker.Counting.{tally-append}

pub record Ring (k : ℕ) : Type 0 where
  pub queue : Queue
  pub held : List Message
  pub rep : Represents k queue held

module _ (k : ℕ) where
  pushed_ring :
      (r : Ring k) (m : Message)
      → Pushes k r.queue r.held r.rep m (Queue.push r.queue m)
      → Bool × Ring k
  pushed_ring r m (inl _) = (false, r)
  pushed_ring r m (inr (room, done, rep)) =
      (true, record { queue = (Queue.push r.queue m).1; held = r.held ++ m ∷ []; rep = rep })

  pub push_ring : Ring k → Message → Bool × Ring k
  push_ring r m = pushed_ring r m (push-Represents k r.queue r.held r.rep m)

  taken_ring :
      (q : Queue) (xs : List Message)
      → Represents k q xs
      → Takes k q xs (Queue.try_pop q)
      → Option Message × Ring k
  taken_ring q [] rep t = (none, record { queue = q; held = []; rep = rep })
  taken_ring q (m ∷ rest) rep t =
      (some m, record { queue = (Queue.try_pop q).1; held = rest; rep = t.1 })

  pub pop_ring : Ring k → Option Message × Ring k
  pop_ring r = taken_ring r.queue r.held r.rep (try_pop-Represents k r.queue r.held r.rep)

  pub purge_ring : Ring k → ℕ × Ring k
  purge_ring r =
      let done = Queue.purge r.queue in
      (
        done.0,
        record { queue = done.1; held = []; rep = (purge-Represents k r.queue r.held r.rep).1 },
      )

  -- The calls are the ring buffer's.
  pub ring_runs :
      (r : Ring k) (m : Message)
      → (Queue.push r.queue m ≡ ((push_ring r m).0, (push_ring r m).1.queue))
        × (Queue.try_pop r.queue ≡ ((pop_ring r).0, (pop_ring r).1.queue))
        × (Queue.purge r.queue ≡ ((purge_ring r).0, (purge_ring r).1.queue))
        × (Queue.drain r.queue ≡ r.held)
  unfolding push_ring pop_ring purge_ring pushed_ring taken_ring
  ring_runs r m = (
    pushes (push-Represents k r.queue r.held r.rep m),
    takes r.queue r.held r.rep (try_pop-Represents k r.queue r.held r.rep),
    refl,
    drain-Represents k r.queue r.held r.rep,
  )
    where
      pushes :
          (s : Pushes k r.queue r.held r.rep m (Queue.push r.queue m))
          → Queue.push r.queue m ≡ ((pushed_ring r m s).0, (pushed_ring r m s).1.queue)
      pushes (inl (full, e)) = e
      pushes (inr (room, done, rep)) = ap (λ (b : Bool). (b, (Queue.push r.queue m).1)) done

      takes :
          (q : Queue) (xs : List Message) (rep : Represents k q xs)
          (t : Takes k q xs (Queue.try_pop q))
          → Queue.try_pop q ≡ ((taken_ring q xs rep t).0, (taken_ring q xs rep t).1.queue)
      takes q [] rep t = t
      takes q (x ∷ xs) rep t = ap (λ (o : Option Message). (o, (Queue.try_pop q).1)) t.0

  -- A capacity that rounds up to 2^k
  pub ring_queues : (cap : ℕ) → next_power_of_two cap ≡ 2 ^ k → k ≤ 64 → MessageQueue (Ring k)
  unfolding push_ring pop_ring purge_ring pushed_ring taken_ring
  ring_queues cap rounded width = record {
    create = λ name. record {
      queue = Queue.new name cap;
      held = [];
      rep = new-Represents name cap k rounded width;
    };
    push = push_ring;
    try_pop = pop_ring;
    purge = purge_ring;
    has_message = λ r id. Queue.has_message r.queue id;
    contents = λ r. r.held;
    created = λ name. refl;
    refused = λ r m h. refused r m (push-Represents k r.queue r.held r.rep m) h;
    accepted = λ p r m h. accepted p r m (push-Represents k r.queue r.held r.rep m) h;
    empty = λ r h. empty r.queue r.held r.rep (try_pop-Represents k r.queue r.held r.rep) h;
    taken = λ p r m h. taken p r.queue r.held r.rep (try_pop-Represents k r.queue r.held r.rep) m h;
    purged = λ r. refl;
  }
    where
      refused :
          (r : Ring k) (m : Message) (s : Pushes k r.queue r.held r.rep m (Queue.push r.queue m))
          → (pushed_ring r m s).0 ≡ false
          → (pushed_ring r m s).1.held ≡ r.held
      refused r m (inl _) h = refl
      refused r m (inr _) h = ground (arith, h)

      accepted :
          (p : Message → Bool) (r : Ring k) (m : Message)
          (s : Pushes k r.queue r.held r.rep m (Queue.push r.queue m))
          → (pushed_ring r m s).0 ≡ true
          → tally p (pushed_ring r m s).1.held ≡ tally p r.held + tally p (m ∷ [])
      accepted p r m (inl _) h = ground (arith, h)
      accepted p r m (inr _) h = tally-append p r.held (m ∷ [])

      empty :
          (q : Queue) (xs : List Message) (rep : Represents k q xs)
          (t : Takes k q xs (Queue.try_pop q))
          → (taken_ring q xs rep t).0 ≡ none
          → (xs ≡ []) × ((taken_ring q xs rep t).1.held ≡ [])
      empty q [] rep t h = (refl, refl)
      empty q (x ∷ xs) rep t h = absurd (ground (arith, h))

      taken :
          (p : Message → Bool) (q : Queue) (xs : List Message) (rep : Represents k q xs)
          (t : Takes k q xs (Queue.try_pop q)) (m : Message)
          → (taken_ring q xs rep t).0 ≡ some m
          → tally p xs ≡ tally p (taken_ring q xs rep t).1.held + tally p (m ∷ [])
      taken p q [] rep t m h = ground (arith, h)
      taken p q (x ∷ xs) rep t m h = ground (arith, h)
