-- ===== src/Broker/HandedOut.antt =====
-- The entries of the messages that a broker has handed out, after each of its calls
-- (internal/broker/broker.go).
use boltq.Prelude.{
  ◌≡◌, refl, sym, ap, ◌∙◌, inl, inr, Option-cases, Bool-cases, ◌++◌, Bool, true, false, [], ◌∷◌,
  Option, none, some, GoString, string_eq, arith,
}
use boltq.Prelude.Int.{ℤ, ltb_ℤ, ◌+ℤ◌}
use boltq.Prelude.Dict.{get, maybe, remove, Unique, put-Unique, remove-Unique}
use boltq.Protocol.{Message}
use boltq.Broker.{
  MessageQueue, Broker, Stored, prepared, publish, popped, dead_letter_name, push_or_spill,
  spill_to_disk, store_write, written, acked, with_queue,
}
use boltq.Broker.Moving.{
  retried, ack, nack, retry_or_dead_letter, promote_delayed, take_delayed, ready, remaining,
  process_advanced_features, purge_queue, purge_dead_letters,
}
use boltq.Broker.Losses.{total-keep}
use boltq.Broker.Drops.{kept, pending-push_ready}

module _ {Q D : Type 0} ⦃queue : MessageQueue Q⦄ ⦃dead : MessageQueue D⦄ where
  pending-push_or_spill :
      (spill : Bool) (b : Broker Q D) (topic : GoString) (m : Message)
      → (push_or_spill spill b topic m).1.pending ≡ b.pending
  unfolding push_or_spill spill_to_disk
  pending-push_or_spill true b topic m = ground arith
  pending-push_or_spill false b topic m = ground arith

  pending-store_write :
      (disk : Bool) (b : Broker Q D) (entry : Stored) (stored : Broker Q D)
      → store_write disk b entry ≡ some stored
      → stored.pending ≡ b.pending
  pending-store_write disk b entry stored h = elim (Option-cases b.wal) [
    | inl absent ↦
        let same : b ≡ stored = ground (arith, rw absent at h) in
        ap (λ (x : Broker Q D). x.pending) (sym same)
    | inr (entries, held) ↦ elim (Bool-cases disk) [
      | inl kept ↦
          let same : record b { wal = some (entries ++ entry ∷ []) } ≡ stored =
            ground (arith, rw (held, kept) at h) in
          ap (λ (x : Broker Q D). x.pending) (sym same)
      | inr lost ↦ ground (arith, rw (held, lost) at h)
    ]
  ]

  pending-stored :
      (disk : Bool) (b : Broker Q D) (entry : Stored)
      → (maybe b (λ b. b) (store_write disk b entry)).pending ≡ b.pending
  pending-stored disk b entry = elim (Option-cases (store_write disk b entry)) [
    | inl failed ↦ rw failed refl
    | inr (stored, held) ↦ rw held (pending-store_write disk b entry stored held)
  ]

  pub pending-publish :
      (disk spill : Bool) (now : ℤ) (b : Broker Q D) (topic : GoString) (m : Message)
      → (publish disk spill now b topic m).1.pending ≡ b.pending
  unfolding publish
  pending-publish disk spill now b topic m =
      let m2 = prepared now b topic m in
      elim (Option-cases (store_write disk b (written m2))) [
        | inl failed ↦ rw failed refl
        | inr (stored, held) ↦ rw held (
            let kept = pending-store_write disk b (written m2) stored held in
            elim (Bool-cases (ltb_ℤ now m2.deliver_at)) [
              | inl later ↦ rw later kept
              | inr due ↦ rw due (pending-push_or_spill spill stored topic m2 ∙ kept)
            ])
      ]

  pub pending-promote_delayed :
      (spill : Bool) (b : Broker Q D) (id : GoString)
      → (promote_delayed spill b id).1.pending ≡ b.pending
  unfolding promote_delayed
  pending-promote_delayed spill b id = elim (Option-cases (take_delayed id b.delayed)) [
    | inl missing ↦ rw missing refl
    | inr ((m, rest), found) ↦
        rw found (pending-push_or_spill spill (record b { delayed = rest }) m.topic m)
  ]

  pub popped-Unique :
      (now : ℤ) (b : Broker Q D) (topic : GoString) (q : Q) (o : Option Message)
      → Unique b.pending
      → Unique (popped now (with_queue b topic q) topic o).1.pending
  popped-Unique now b topic q none before = before
  popped-Unique now b topic q (some m) before =
      put-Unique b.pending m.id
        (record {
          message = m;
          queue_name = topic;
          deliver_at = now;
          ack_deadline = now +ℤ b.ack_timeout;
        })
        before

  pub ack-Unique :
      (disk : Bool) (b : Broker Q D) (id : GoString)
      → Unique b.pending
      → Unique (ack disk b id).1.pending
  unfolding ack
  ack-Unique disk b id before = elim (Option-cases (get b.pending id)) [
    | inl absent ↦ rw absent before
    | inr (pm, held) ↦
        rw (held, pending-stored disk (record b { pending = remove b.pending id }) (acked id))
          (remove-Unique b.pending id before)
  ]

  pub nack-Unique :
      (b : Broker Q D) (id : GoString) → Unique b.pending → Unique (nack b id).1.pending
  unfolding nack retry_or_dead_letter
  nack-Unique b id before = elim (Option-cases (get b.pending id)) [
    | inl absent ↦ rw absent before
    | inr (pm, held) ↦
        let left = remove-Unique b.pending id before in
        let m = retried pm.message in
        elim (Bool-cases (ltb_ℤ m.max_retry m.retry)) [
          | inl over ↦ rw (held, over) left
          | inr again ↦ rw (held, again) left
        ]
  ]

  pub pending-purge_queue :
      (b : Broker Q D) (topic : GoString) → (purge_queue b topic).1.pending ≡ b.pending
  unfolding purge_queue
  pending-purge_queue b topic = elim (Option-cases (get b.queues topic)) [
    | inl absent ↦ rw absent refl
    | inr (q, held) ↦ rw held refl
  ]

  pub pending-purge_dead_letters :
      (b : Broker Q D) (topic : GoString) → (purge_dead_letters b topic).1.pending ≡ b.pending
  unfolding purge_dead_letters
  pending-purge_dead_letters b topic =
      elim (Option-cases (get b.dead_letters (dead_letter_name topic))) [
        | inl absent ↦ rw absent refl
        | inr (q, held) ↦ rw held refl
      ]

  pub process-Unique :
      (now : ℤ) (b : Broker Q D)
      → Unique b.pending
      → Unique (process_advanced_features now b).pending
  unfolding process_advanced_features
  process-Unique now b before =
      rw
        (pending-push_ready (λ m. true) (ready now b.delayed)
          (record b { delayed = remaining now b.delayed }))
        (total-keep (kept now) (λ k v. 0) b.pending before).1
