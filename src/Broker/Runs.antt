-- ===== src/Broker/Runs.antt =====
-- Sequences of calls of a broker (internal/broker/broker.go), as steps on its state.
use boltq.Prelude.{
  ℕ, ◌+◌, ◌≡◌, refl, Bool, List, [], ◌∷◌, Option, if◌then◌else◌, GoString, string_eq, arith,
}
use boltq.Prelude.Int.{ℤ}
use boltq.Prelude.Dict.{get, cost, Unique}
use boltq.Protocol.{Message}
use boltq.Broker.{
  MessageQueue, Broker, Stored, tally, new_broker, prepared, publish, consume, try_consume,
  queue_of, try_loop,
}
use boltq.Broker.Moving.{
  retried, ack, nack, requeue_timed_out, promote_delayed, process_advanced_features, purge_queue,
  purge_dead_letters,
}
use boltq.Broker.Counting.{copies, pending_tally}
use boltq.Broker.Conserve.{has_none}
use boltq.Broker.Losses.{
  expired_tally, unpromoted, replaced, rounds, copies-published, copies-promoted, copies-consumed,
  copies-try_consume, copies-acked,
}
use boltq.Broker.Drops.{
  unreturned, processed_away, purged_away, dead_letters_away, copies-returned, copies-processed,
  copies-purged, copies-dead_letters,
}
use boltq.Broker.HandedOut.{
  pending-publish, pending-promote_delayed, popped-Unique, ack-Unique, nack-Unique,
  pending-purge_queue, pending-purge_dead_letters, process-Unique,
}

-- How many messages that pass the test came in without an error, were acknowledged and were dropped
pub record Books : Type 0 where
  pub came : ℕ
  pub acknowledged : ℕ
  pub dropped : ℕ

abbrev pub drops : Books → ℕ → Books
drops k n = record k { dropped = k.dropped + n }

module _ {Q D : Type 0} ⦃queue : MessageQueue Q⦄ ⦃dead : MessageQueue D⦄ (p : Message → Bool) where
  -- The brokers that calls lead to, whatever a call answers.
  pub data Runs : Books → Broker Q D → Type 0 where
    starts :
        (r a : ℤ) (wal : Option (List Stored))
        → Runs
            (record { came = 0; acknowledged = 0; dropped = 0 })
            (new_broker {Q = Q} {D = D} r a wal)
    publishes :
        (k : Books) (b : Broker Q D) (disk spill : Bool) (now : ℤ) (topic : GoString) (m : Message)
        → Runs k b
        → Runs
            (record k {
              came =
                  k.came
                  + (if has_none (publish disk spill now b topic m).0
                      then tally p (prepared now b topic m ∷ [])
                      else 0);
            })
            (publish disk spill now b topic m).1
    consumes :
        (k : Books) (b : Broker Q D) (now : ℤ) (topic : GoString)
        → Runs k b
        → Runs (drops k (replaced p b (consume now b topic).0)) (consume now b topic).1
    tries :
        (k : Books) (b : Broker Q D) (clock : ℕ → ℤ) (now : ℤ) (topic : GoString)
        → Runs k b
        → Runs
            (drops k (
              replaced p b (try_consume clock now b topic).0
              + expired_tally p (rounds p b topic) clock (queue_of b topic)))
            (try_consume clock now b topic).1
    acks :
        (k : Books) (b : Broker Q D) (disk : Bool) (id : GoString)
        → Runs k b
        → Runs
            (record k {
              acknowledged = k.acknowledged + cost (pending_tally p) id (get b.pending id);
            })
            (ack disk b id).1
    nacks :
        (k : Books) (b : Broker Q D) (id : GoString)
        → Runs k b
        → Runs (drops k (unreturned p b id)) (nack b id).1
    requeues :
        (k : Books) (b : Broker Q D) (id : GoString)
        → Runs k b
        → Runs (drops k (unreturned p b id)) (requeue_timed_out b id).1
    promotes :
        (k : Books) (b : Broker Q D) (spill : Bool) (id : GoString)
        → Runs k b
        → Runs (drops k (unpromoted p spill b id)) (promote_delayed spill b id).1
    processes :
        (k : Books) (b : Broker Q D) (now : ℤ)
        → Runs k b
        → Runs (drops k (processed_away p now b)) (process_advanced_features now b)
    purges :
        (k : Books) (b : Broker Q D) (topic : GoString)
        → Runs k b
        → Runs (drops k (purged_away p b topic)) (purge_queue b topic).1
    purges_dead_letters :
        (k : Books) (b : Broker Q D) (topic : GoString)
        → Runs k b
        → Runs (drops k (dead_letters_away p b topic)) (purge_dead_letters b topic).1

  Runs-Unique : (k : Books) (b : Broker Q D) → Runs k b → Unique b.pending
  unfolding new_broker consume try_consume nack requeue_timed_out
  Runs-Unique _ _ (starts r a wal) = tt
  Runs-Unique _ _ (publishes k b disk spill now topic m run) =
      rw (pending-publish disk spill now b topic m) (Runs-Unique k b run)
  Runs-Unique _ _ (consumes k b now topic run) =
      popped-Unique now b topic (queue.try_pop (queue_of b topic)).1
        (queue.try_pop (queue_of b topic)).0 (Runs-Unique k b run)
  Runs-Unique _ _ (tries k b clock now topic run) =
      let tried = try_loop (rounds p b topic) clock (queue_of b topic) in
      popped-Unique now b topic tried.1 tried.0 (Runs-Unique k b run)
  Runs-Unique _ _ (acks k b disk id run) = ack-Unique disk b id (Runs-Unique k b run)
  Runs-Unique _ _ (nacks k b id run) = nack-Unique b id (Runs-Unique k b run)
  Runs-Unique _ _ (requeues k b id run) = nack-Unique b id (Runs-Unique k b run)
  Runs-Unique _ _ (promotes k b spill id run) =
      rw (pending-promote_delayed spill b id) (Runs-Unique k b run)
  Runs-Unique _ _ (processes k b now run) = process-Unique now b (Runs-Unique k b run)
  Runs-Unique _ _ (purges k b topic run) = rw (pending-purge_queue b topic) (Runs-Unique k b run)
  Runs-Unique _ _ (purges_dead_letters k b topic run) =
      rw (pending-purge_dead_letters b topic) (Runs-Unique k b run)

  -- In any order of calls of Publish, Consume, TryConsume, Ack, Nack, RequeueTimedOut, PromoteDelayed,
  -- ProcessAdvancedFeatures (without its reading of the spill files), PurgeQueue and PurgeDeadLetters, errors
  -- included, the messages that a publish took without an error are those still held, those
  -- acknowledged and those dropped, for each test that a retry does not change. What each call drops
  -- is counted by itself: a pending message whose ID is handed out again, expired messages, a message
  -- whose retry, dead-letter or due push finds the queue full, a promoted one that can be neither
  -- queued nor spilled, and the contents of a purged queue. No other message is lost, and none doubled.
  pub Runs-conserve :
      (k : Books) (b : Broker Q D)
      → ((m : Message) → tally p (retried m ∷ []) ≡ tally p (m ∷ []))
      → Runs k b
      → copies p b + k.acknowledged + k.dropped ≡ k.came
  unfolding new_broker nack requeue_timed_out
  Runs-conserve _ _ same (starts r a wal) = refl
  Runs-conserve _ _ same (publishes k b disk spill now topic m run) =
      omega (arith, copies-published p disk spill now b topic m, Runs-conserve k b same run)
  Runs-conserve _ _ same (consumes k b now topic run) =
      omega (arith, copies-consumed p now b topic, Runs-conserve k b same run)
  Runs-conserve _ _ same (tries k b clock now topic run) =
      omega (arith, copies-try_consume p clock now b topic, Runs-conserve k b same run)
  Runs-conserve _ _ same (acks k b disk id run) =
      omega (arith, copies-acked p disk b id (Runs-Unique k b run), Runs-conserve k b same run)
  Runs-conserve _ _ same (nacks k b id run) =
      omega (arith, copies-returned p b id same (Runs-Unique k b run), Runs-conserve k b same run)
  Runs-conserve _ _ same (requeues k b id run) =
      omega (arith, copies-returned p b id same (Runs-Unique k b run), Runs-conserve k b same run)
  Runs-conserve _ _ same (promotes k b spill id run) =
      omega (arith, copies-promoted p spill b id, Runs-conserve k b same run)
  Runs-conserve _ _ same (processes k b now run) =
      omega (arith, copies-processed p now b (Runs-Unique k b run), Runs-conserve k b same run)
  Runs-conserve _ _ same (purges k b topic run) =
      omega (arith, copies-purged p b topic, Runs-conserve k b same run)
  Runs-conserve _ _ same (purges_dead_letters k b topic run) =
      omega (arith, copies-dead_letters p b topic, Runs-conserve k b same run)
