-- ===== src/Broker/Moving.antt =====
-- Messages that were handed out or delayed, moved on (internal/broker/broker.go).
use boltq.Prelude.{
  ℕ, Bool, true, false, not, ◌&&◌, List, [], ◌∷◌, Option, none, some, if◌then◌else◌, GoString,
  str_eq, string_eq,
}
use boltq.Prelude.Int.{ℤ, pos, ltb_ℤ, ◌+ℤ◌}
use boltq.Prelude.Dict.{Dict, get, has, put, remove, keep, maybe}
use boltq.Protocol.{Message}
use boltq.Broker.{
  MessageQueue, Broker, BrokerError, PendingMessage, acked, not_pending, not_delayed, queue_full,
  queue_not_found, queue_of, dead_letter_of, dead_letter_name, with_queue, push_or_spill,
  store_write,
}

abbrev pub retried : Message → Message
retried m = record m { retry = m.retry +ℤ pos 1 }

-- The first delayed message with the ID, and the others
unfoldable pub take_delayed : GoString → List Message → Option (Message × List Message)
take_delayed id [] = none
take_delayed id (m ∷ ms) =
    if str_eq m.id id
    then some (m, ms)
    else maybe none (λ (found, rest). some (found, m ∷ rest)) (take_delayed id ms)

unfoldable pub ready : ℤ → List Message → List Message
ready now [] = []
ready now (m ∷ ms) = let rest = ready now ms in if ltb_ℤ now m.deliver_at then rest else m ∷ rest

unfoldable pub remaining : ℤ → List Message → List Message
remaining now [] = []
remaining now (m ∷ ms) =
    let rest = remaining now ms in if ltb_ℤ now m.deliver_at then m ∷ rest else rest

unfoldable pub has_delayed : GoString → List Message → Bool
has_delayed id [] = false
has_delayed id (m ∷ ms) = if str_eq m.id id then true else has_delayed id ms

abbrev pub any_queue_has :
    {Q : Type 0} → ⦃queue : MessageQueue Q⦄ → GoString → Dict GoString Q → Bool
any_queue_has ⦃queue⦄ id [] = false
any_queue_has ⦃queue⦄ id ((name, q) ∷ qs) =
    if queue.has_message q id then true else any_queue_has id qs

module _ {Q D : Type 0} ⦃queue : MessageQueue Q⦄ ⦃dead : MessageQueue D⦄ where
  -- A storage that does not take the acknowledgement is only reported.
  unfoldable pub ack : Bool → Broker Q D → GoString → Option BrokerError × Broker Q D
  ack disk b id =
      let left = record b { pending = remove b.pending id } in
      if has b.pending id
      then (none, maybe left (λ b. b) (store_write disk left (acked id)))
      else (some not_pending, b)

  -- The answer of the dead-letter queue is not looked at.
  unfoldable pub retry_or_dead_letter :
      Broker Q D → Message → GoString → Option BrokerError × Broker Q D
  retry_or_dead_letter b m name =
      let again = retried m in
      let dl_name = dead_letter_name name in
      let (done, q) = queue.push (queue_of b name) again in
      if ltb_ℤ again.max_retry again.retry
      then (
        none,
        record b {
          dead_letters = put b.dead_letters dl_name (dead.push (dead_letter_of b dl_name) again).1;
        },
      )
      else ((if done then none else some queue_full), with_queue b name q)

  abbrev pub returned :
      Broker Q D → GoString → Option PendingMessage → Option BrokerError × Broker Q D
  returned b id none = (some not_pending, b)
  returned b id (some p) =
      retry_or_dead_letter (record b { pending = remove b.pending id }) p.message p.queue_name

  unfoldable pub nack : Broker Q D → GoString → Option BrokerError × Broker Q D
  unfolding retry_or_dead_letter
  nack b id = returned b id (get b.pending id)

  unfoldable pub requeue_timed_out : Broker Q D → GoString → Option BrokerError × Broker Q D
  unfolding retry_or_dead_letter
  requeue_timed_out b id = returned b id (get b.pending id)

  -- The answer of the spill is not looked at.
  unfoldable pub promote_delayed : Bool → Broker Q D → GoString → Option BrokerError × Broker Q D
  unfolding take_delayed push_or_spill
  promote_delayed spill b id =
      maybe (some not_delayed, b)
        (λ (m, rest). (none, (push_or_spill spill (record b { delayed = rest }) m.topic m).1))
        (take_delayed id b.delayed)

  -- Messages whose time has come go to their queues, a full one of which drops them.
  unfoldable pub push_ready : List Message → Broker Q D → Broker Q D
  push_ready [] b = b
  push_ready (m ∷ ms) b = push_ready ms (with_queue b m.topic (queue.push (queue_of b m.topic) m).1)

  -- The first two steps of `ProcessAdvancedFeatures`; the third reads the spill files.
  unfoldable pub process_advanced_features : ℤ → Broker Q D → Broker Q D
  unfolding push_ready ready remaining
  process_advanced_features now b =
      let moved =
        push_ready (ready now b.delayed) (record b { delayed = remaining now b.delayed }) in
      record moved {
        pending =
            keep
              (λ id (p : PendingMessage).
                not (ltb_ℤ (pos 0) p.message.expires_at && ltb_ℤ p.message.expires_at now))
              moved.pending;
      }

  pub has_message : Broker Q D → GoString → Bool
  unfolding has_delayed
  has_message b id =
      if has b.pending id
      then true
      else if any_queue_has id b.queues
      then true
      else has_delayed id b.delayed

  abbrev purged_found : Broker Q D → GoString → Option Q → (ℕ × Option BrokerError) × Broker Q D
  purged_found b topic none = ((0, some queue_not_found), b)
  purged_found b topic (some q) =
      let (count, rest) = queue.purge q in ((count, none), with_queue b topic rest)

  -- The checkpoint that follows a purge is left out.
  unfoldable pub purge_queue : Broker Q D → GoString → (ℕ × Option BrokerError) × Broker Q D
  purge_queue b topic = purged_found b topic (get b.queues topic)

  abbrev dead_letters_found :
      Broker Q D → GoString → Option D → (ℕ × Option BrokerError) × Broker Q D
  dead_letters_found b dl_name none = ((0, some queue_not_found), b)
  dead_letters_found b dl_name (some q) =
      let (count, rest) = dead.purge q in
      ((count, none), record b { dead_letters = put b.dead_letters dl_name rest })

  unfoldable pub purge_dead_letters : Broker Q D → GoString → (ℕ × Option BrokerError) × Broker Q D
  purge_dead_letters b topic =
      dead_letters_found b (dead_letter_name topic) (get b.dead_letters (dead_letter_name topic))
