-- ===== src/Broker/Conserve.antt =====
-- What the storage, a message taken off the delayed list and `Nack` do to the number of messages that
-- a broker holds (internal/broker/broker.go).
use boltq.Prelude.{
  ℕ, ◌+◌, ◌≡◌, refl, sym, ap, Bool, true, false, not, List, [], ◌∷◌, ◌++◌, Option, none, some,
  if◌then◌else◌, GoString, str_eq, string_eq, arith, inl, inr, Option-cases, Bool-cases,
}
use boltq.Prelude.Int.{ltb_ℤ}
use boltq.Prelude.Dict.{get, maybe, total-remove, Unique}
use boltq.Protocol.{Message}
use boltq.Broker.{
  MessageQueue, Broker, BrokerError, PendingMessage, Stored, tally, queue_of, dead_letter_of,
  dead_letter_name, push_or_spill, spill_to_disk, store_write,
}
use boltq.Broker.Moving.{retried, retry_or_dead_letter, nack, take_delayed}
use boltq.Broker.Counting.{copies, pending_tally, total-push}

abbrev pub has_none : Option BrokerError → Bool
has_none none = true
has_none (some e) = false

-- `take_delayed` takes one message out of the list and leaves the others.
pub tally-take_delayed :
    (p : Message → Bool) (id : GoString) (ms : List Message) (m : Message) (rest : List Message)
    → take_delayed id ms ≡ some (m, rest)
    → tally p ms ≡ tally p rest + tally p (m ∷ [])
unfolding take_delayed
tally-take_delayed p id [] m rest h = ground (arith, h)
tally-take_delayed p id (x ∷ xs) m rest h = elim (Bool-cases (str_eq x.id id)) [
  | inl same ↦ ground (arith, rw same at h)
  | inr other ↦ elim (Option-cases (take_delayed id xs)) [
    | inl none_left ↦ ground (arith, rw (other, none_left) at h)
    | inr ((found, left), held) ↦
        ground (arith, rw (other, held) at h, tally-take_delayed p id xs found left held)
  ]
]

-- What is pushed is held, or else refused.
either :
    (done : Bool) (after before here moved : ℕ)
    → after ≡ before + (if done then here else 0)
    → here ≡ moved
    → after + (if not done then moved else 0) ≡ before + moved
either true after before here moved h same = omega arith
either false after before here moved h same = omega arith

module _ {Q D : Type 0} ⦃queue : MessageQueue Q⦄ ⦃dead : MessageQueue D⦄ where
  -- Whether the queue or dead-letter queue that `Nack` pushes to is full
  abbrev pub refuses : Broker Q D → PendingMessage → Bool
  refuses b pm =
      let m = retried pm.message in
      if ltb_ℤ m.max_retry m.retry
      then not (dead.push (dead_letter_of b (dead_letter_name pm.queue_name)) m).0
      else not (queue.push (queue_of b pm.queue_name) m).0

module _ {Q D : Type 0} ⦃queue : MessageQueue Q⦄ ⦃dead : MessageQueue D⦄ (p : Message → Bool) where
  -- The storage keeps a record and changes nothing else.
  pub copies-store_write :
      (disk : Bool) (b : Broker Q D) (entry : Stored) (stored : Broker Q D)
      → store_write disk b entry ≡ some stored
      → copies p stored ≡ copies p b
  copies-store_write disk b entry stored h = elim (Option-cases b.wal) [
    | inl absent ↦
        let same : b ≡ stored = ground (arith, rw absent at h) in ap (copies p) (sym same)
    | inr (entries, held) ↦ elim (Bool-cases disk) [
      | inl kept ↦
          let same : record b { wal = some (entries ++ entry ∷ []) } ≡ stored =
            ground (arith, rw (held, kept) at h) in
          ap (copies p) (sym same)
      | inr lost ↦ ground (arith, rw (held, lost) at h)
    ]
  ]

  pub copies-stored :
      (disk : Bool) (b : Broker Q D) (entry : Stored)
      → copies p (maybe b (λ b. b) (store_write disk b entry)) ≡ copies p b
  copies-stored disk b entry = elim (Option-cases (store_write disk b entry)) [
    | inl failed ↦ rw failed refl
    | inr (stored, held) ↦ rw held (copies-store_write disk b entry stored held)
  ]

  -- `Nack` of a pending message leaves the number of messages of any kind as it was, a kind being a
  -- test that a retry of this message does not change, and the IDs of the pending ones distinct; a push
  -- that its queue or dead-letter queue refuses is the one way in which the message is lost.
  pub copies-nack :
      (b : Broker Q D) (id : GoString) (pm : PendingMessage)
      → Unique b.pending
      → get b.pending id ≡ some pm
      → tally p (retried pm.message ∷ []) ≡ tally p (pm.message ∷ [])
      → copies p (nack b id).1 + (if refuses b pm then tally p (pm.message ∷ []) else 0)
        ≡ copies p b
  unfolding nack retry_or_dead_letter
  copies-nack b id pm unique held same =
      let m = retried pm.message in
      let left = rw held at (total-remove (pending_tally p) b.pending id unique) in
      let dl_name = dead_letter_name pm.queue_name in
      elim (Bool-cases (ltb_ℤ m.max_retry m.retry)) [
        | inl over ↦
            rw (held, over)
              (omega (
                arith,
                left,
                either (dead.push (dead_letter_of b dl_name) m).0 _ _ _ (tally p (pm.message ∷ []))
                    (total-push p b.dead_letters dl_name m) same,
              ))
        | inr again ↦
            rw (held, again)
              (omega (
                arith,
                left,
                either (queue.push (queue_of b pm.queue_name) m).0 _ _ _ (tally p (pm.message ∷ []))
                    (total-push p b.queues pm.queue_name m) same,
              ))
      ]

  pub push_or_spill_done :
      (b : Broker Q D) (topic : GoString) (m : Message) → (push_or_spill true b topic m).0 ≡ none
  unfolding push_or_spill spill_to_disk
  push_or_spill_done b topic m = elim (Bool-cases (queue.push (queue_of b topic) m).0) [
    | inl done ↦ rw done refl
    | inr full ↦ rw full refl
  ]
