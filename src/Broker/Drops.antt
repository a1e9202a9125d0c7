-- ===== src/Broker/Drops.antt =====
-- What the calls that return, move on or purge messages do to the number of messages that a broker
-- holds (internal/broker/broker.go).
use boltq.Prelude.{
  ℕ, ◌+◌, ◌≡◌, refl, ap, Bool, not, ◌&&◌, List, [], ◌∷◌, if◌then◌else◌, GoString, string_eq, arith,
  inl, inr, Option-cases, Bool-cases,
}
use boltq.Prelude.Int.{ℤ, pos, ltb_ℤ}
use boltq.Prelude.Dict.{get, keep, maybe, total, Unique}
use boltq.Protocol.{Message}
use boltq.Broker.{
  MessageQueue, Broker, PendingMessage, tally, queue_of, with_queue, dead_letter_name,
}
use boltq.Broker.Moving.{
  retried, nack, ready, remaining, push_ready, process_advanced_features, purge_queue,
  purge_dead_letters,
}
use boltq.Broker.Counting.{copies, pending_tally, total-push, total-put_back}
use boltq.Broker.Conserve.{refuses, copies-nack}
use boltq.Broker.Losses.{total-keep, tally-ready}

-- A pending message that has not expired
abbrev pub kept : ℤ → GoString → PendingMessage → Bool
kept now id pm = not (ltb_ℤ (pos 0) pm.message.expires_at && ltb_ℤ pm.message.expires_at now)

module _ {Q D : Type 0} ⦃queue : MessageQueue Q⦄ ⦃dead : MessageQueue D⦄ (p : Message → Bool) where
  -- A message that `Nack` can push to no queue
  abbrev pub unreturned : Broker Q D → GoString → ℕ
  unreturned b id =
      maybe 0 (λ pm. if refuses b pm then tally p (pm.message ∷ []) else 0) (get b.pending id)

  pub copies-returned :
      (b : Broker Q D) (id : GoString)
      → ((m : Message) → tally p (retried m ∷ []) ≡ tally p (m ∷ []))
      → Unique b.pending
      → copies p (nack b id).1 + unreturned b id ≡ copies p b
  unfolding nack
  copies-returned b id same unique = elim (Option-cases (get b.pending id)) [
    | inl absent ↦ rw absent (omega arith)
    | inr (pm, held) ↦ rw held (rw held at (copies-nack p b id pm unique held (same pm.message)))
  ]

  -- The messages that `ProcessAdvancedFeatures` pushes to a full queue
  abbrev pub dropped : List Message → Broker Q D → ℕ
  dropped [] b = 0
  dropped (m ∷ ms) b =
      let (done, q) = queue.push (queue_of b m.topic) m in
      let more = dropped ms (with_queue b m.topic q) in
      (if done then 0 else tally p (m ∷ [])) + more

  copies-push_ready :
      (ms : List Message) (b : Broker Q D)
      → copies p (push_ready ms b) + dropped ms b ≡ copies p b + tally p ms
  unfolding push_ready
  copies-push_ready [] b = omega arith
  copies-push_ready (m ∷ ms) b =
      let pushed = total-push p b.queues m.topic m in
      let rest =
        copies-push_ready ms (with_queue b m.topic (queue.push (queue_of b m.topic) m).1) in
      elim (Bool-cases (queue.push (queue_of b m.topic) m).0) [
        | inl done ↦ rw done (omega (arith, rest, rw done at pushed))
        | inr full ↦ rw full (omega (arith, rest, rw full at pushed))
      ]

  pub pending-push_ready :
      (ms : List Message) (b : Broker Q D) → (push_ready ms b).pending ≡ b.pending
  unfolding push_ready
  pending-push_ready [] b = refl
  pending-push_ready (m ∷ ms) b =
      pending-push_ready ms (with_queue b m.topic (queue.push (queue_of b m.topic) m).1)

  -- The messages that a round of `ProcessAdvancedFeatures` drops: delayed ones whose queue is full,
  -- and pending ones that have expired
  abbrev pub processed_away : ℤ → Broker Q D → ℕ
  processed_away now b =
      dropped (ready now b.delayed) (record b { delayed = remaining now b.delayed })
      + total (λ k v. if kept now k v then 0 else pending_tally p k v) b.pending

  pub copies-processed :
      (now : ℤ) (b : Broker Q D)
      → Unique b.pending
      → copies p (process_advanced_features now b) + processed_away now b ≡ copies p b
  unfolding process_advanced_features
  copies-processed now b unique =
      let start = record b { delayed = remaining now b.delayed } in
      let same = pending-push_ready (ready now b.delayed) start in
      omega (
        arith,
        ap (total (pending_tally p)) same,
        ap (λ d. total (pending_tally p) (keep (kept now) d)) same,
        copies-push_ready (ready now b.delayed) start,
        tally-ready p now b.delayed,
        (total-keep (kept now) (pending_tally p) b.pending unique).0,
      )

  -- What a purge removes
  abbrev pub purged_away : Broker Q D → GoString → ℕ
  purged_away b topic = maybe 0 (λ q. tally p (queue.contents q)) (get b.queues topic)

  pub copies-purged :
      (b : Broker Q D) (topic : GoString)
      → copies p (purge_queue b topic).1 + purged_away b topic ≡ copies p b
  unfolding purge_queue
  copies-purged b topic = elim (Option-cases (get b.queues topic)) [
    | inl absent ↦ rw absent (omega arith)
    | inr (q, held) ↦ rw held (
        omega (
          arith,
          ap (tally p) (queue.purged q),
          rw held at (total-put_back p b.queues topic (queue.purge q).1),
        ))
  ]

  abbrev pub dead_letters_away : Broker Q D → GoString → ℕ
  dead_letters_away b topic =
      maybe 0 (λ q. tally p (dead.contents q)) (get b.dead_letters (dead_letter_name topic))

  pub copies-dead_letters :
      (b : Broker Q D) (topic : GoString)
      → copies p (purge_dead_letters b topic).1 + dead_letters_away b topic ≡ copies p b
  unfolding purge_dead_letters
  copies-dead_letters b topic =
      let dl_name = dead_letter_name topic in
      elim (Option-cases (get b.dead_letters dl_name)) [
        | inl absent ↦ rw absent (omega arith)
        | inr (q, held) ↦ rw held (
            omega (
              arith,
              ap (tally p) (dead.purged q),
              rw held at (total-put_back p b.dead_letters dl_name (dead.purge q).1),
            ))
      ]
