-- ===== src/Broker/Losses.antt =====
-- What each call of a broker does to the number of messages that it holds, those included that it
-- drops (internal/broker/broker.go).
use boltq.Prelude.{
  ℕ, zero, suc, ◌+◌, ◌≡◌, refl, sym, ap, ◌∙◌, Bool, true, false, ◌&&◌, List, [], ◌∷◌, Option, none,
  some, if◌then◌else◌, GoString, string_eq, arith, inl, inr, Option-cases, Bool-cases, length,
}
use boltq.Prelude.Int.{ℤ, pos, ltb_ℤ, ◌+ℤ◌}
use boltq.Prelude.Dict.{
  Dict, get, remove, keep, maybe, total, cost, total-put, total-remove, Unique, get-keep,
  remove-Unique,
}
use boltq.Protocol.{Message}
use boltq.Broker.{
  MessageQueue, Broker, PendingMessage, written, acked, tally, queue_of, with_queue, spill_to_disk,
  push_or_spill, store_write, prepared, queued_or_delayed, publish, popped, consume, try_loop,
  try_consume,
}
use boltq.Broker.Moving.{ack, take_delayed, promote_delayed, ready, remaining}
use boltq.Broker.Counting.{
  copies, tally-append, pending_tally, total-push, total-put_back, copies-push_or_spill,
}
use boltq.Broker.Conserve.{
  copies-store_write, copies-stored, tally-take_delayed, push_or_spill_done, has_none,
}

-- A map's measure is that of the bindings kept and of those left out.
pub total-keep :
    {V : Type 0} (q : GoString → V → Bool) (f : GoString → V → ℕ) (d : Dict GoString V)
    → Unique d
    → (total f d ≡ total f (keep q d) + total (λ k v. if q k v then 0 else f k v) d)
      × Unique (keep q d)
unfolding keep
total-keep q f [] u = (omega arith, tt)
total-keep q f ((j, v) ∷ d) u =
    let rest = total-keep q f d u.1 in
    let absent : get (keep q d) j ≡ none = rw (get-keep q d j, u.0) refl in
    elim (Bool-cases (q j v)) [
      | inl kept ↦ rw kept (omega (arith, rest.0), (absent, rest.1))
      | inr gone ↦
          let same = rw absent at (total-remove f (keep q d) j rest.1) in
          rw gone (omega (arith, rest.0, same), remove-Unique (keep q d) j rest.1)
    ]

abbrev pub tally_of : (Message → Bool) → Option Message → ℕ
tally_of p none = 0
tally_of p (some m) = tally p (m ∷ [])

-- Of the messages that are handed out, those that have expired
abbrev pub drops : PendingMessage → ℤ → Bool
drops pm now = ltb_ℤ (pos 0) pm.message.expires_at && ltb_ℤ pm.message.expires_at now

pub tally-ready :
    (p : Message → Bool) (now : ℤ) (ms : List Message)
    → tally p ms ≡ tally p (ready now ms) + tally p (remaining now ms)
unfolding ready remaining
tally-ready p now [] = omega arith
tally-ready p now (m ∷ ms) = elim (Bool-cases (ltb_ℤ now m.deliver_at)) [
  | inl later ↦ rw later (omega (arith, tally-ready p now ms))
  | inr due ↦ rw due (omega (arith, tally-ready p now ms))
]

module _ {Q : Type 0} ⦃queue : MessageQueue Q⦄ (p : Message → Bool) where
  -- The expired messages that `TryConsume` takes out of a queue
  abbrev pub expired_tally : ℕ → (ℕ → ℤ) → Q → ℕ
  expired_tally zero clock q = 0
  expired_tally (suc n) clock q =
      let (m, rest) = queue.try_pop q in
      let more = expired_tally n (λ i. clock (suc i)) rest in
      maybe 0
        (λ (m : Message).
          if ltb_ℤ (pos 0) m.expires_at && ltb_ℤ m.expires_at (clock 0)
          then tally p (m ∷ []) + more
          else 0)
        m

  tally-try_loop :
      (n : ℕ) (clock : ℕ → ℤ) (q : Q)
      → tally p (queue.contents q)
        ≡ tally p (queue.contents (try_loop n clock q).1)
          + tally_of p (try_loop n clock q).0
          + expired_tally n clock q
  unfolding try_loop
  tally-try_loop zero clock q = omega arith
  tally-try_loop (suc n) clock q = elim (Option-cases (queue.try_pop q).0) [
    | inl nothing ↦
        let none_held = queue.empty q nothing in
        rw nothing (omega (arith, ap (tally p) none_held.0, ap (tally p) none_held.1))
    | inr (m, got) ↦
        let took = queue.taken p q m got in
        let more = tally-try_loop n (λ i. clock (suc i)) (queue.try_pop q).1 in
        elim (Bool-cases (ltb_ℤ (pos 0) m.expires_at && ltb_ℤ m.expires_at (clock 0))) [
          | inl old ↦ rw (got, old) (omega (arith, took, more))
          | inr alive ↦ rw (got, alive) (omega (arith, took))
        ]
  ]

module _ {Q D : Type 0} ⦃queue : MessageQueue Q⦄ ⦃dead : MessageQueue D⦄ (p : Message → Bool) where
  copies-pushed :
      (spill : Bool) (b : Broker Q D) (topic : GoString) (m : Message)
      → copies p (push_or_spill spill b topic m).1
        ≡ copies p b + (if has_none (push_or_spill spill b topic m).0 then tally p (m ∷ []) else 0)
  unfolding push_or_spill spill_to_disk
  copies-pushed true b topic m =
      let done = push_or_spill_done p b topic m in
      rw done (copies-push_or_spill p true b topic m done)
  copies-pushed false b topic m =
      let pushed = total-push p b.queues topic m in
      elim (Bool-cases (queue.push (queue_of b topic) m).0) [
        | inl done ↦ rw done (omega (arith, rw done at pushed))
        | inr full ↦ rw full (omega (arith, rw full at pushed))
      ]

  copies-queued :
      (spill : Bool) (now : ℤ) (topic : GoString) (m : Message) (b : Broker Q D)
      → copies p (queued_or_delayed spill now topic m b).1
        ≡ copies p b
          + (if has_none (queued_or_delayed spill now topic m b).0 then tally p (m ∷ []) else 0)
  copies-queued spill now topic m b = elim (Bool-cases (ltb_ℤ now m.deliver_at)) [
    | inl later ↦ rw later (omega (arith, tally-append p b.delayed (m ∷ [])))
    | inr due ↦ rw due (copies-pushed spill b topic m)
  ]

  pub copies-published :
      (disk spill : Bool) (now : ℤ) (b : Broker Q D) (topic : GoString) (m : Message)
      → copies p (publish disk spill now b topic m).1
        ≡ copies p b
          + (if has_none (publish disk spill now b topic m).0
              then tally p (prepared now b topic m ∷ [])
              else 0)
  unfolding publish
  copies-published disk spill now b topic m =
      let m2 = prepared now b topic m in
      elim (Option-cases (store_write disk b (written m2))) [
        | inl failed ↦ rw failed (omega arith)
        | inr (stored, held) ↦ rw held (
            copies-queued spill now topic m2 stored
            ∙ ap
                (λ n.
                  n
                  + (if has_none (queued_or_delayed spill now topic m2 stored).0
                      then tally p (m2 ∷ [])
                      else 0))
                (copies-store_write p disk b (written m2) stored held))
      ]

  -- A message that `PromoteDelayed` can put neither in its queue nor in the spill file
  abbrev pub unpromoted : Bool → Broker Q D → GoString → ℕ
  unpromoted spill b id =
      maybe 0
        (λ (m, rest).
          if has_none (push_or_spill spill (record b { delayed = rest }) m.topic m).0
          then 0
          else tally p (m ∷ []))
        (take_delayed id b.delayed)

  pub copies-promoted :
      (spill : Bool) (b : Broker Q D) (id : GoString)
      → copies p (promote_delayed spill b id).1 + unpromoted spill b id ≡ copies p b
  unfolding promote_delayed
  copies-promoted spill b id = elim (Option-cases (take_delayed id b.delayed)) [
    | inl missing ↦ rw missing (omega arith)
    | inr ((m, rest), found) ↦
        let left = record b { delayed = rest } in
        let moved = copies-pushed spill left m.topic m in
        let took = tally-take_delayed p id b.delayed m rest found in
        elim (Bool-cases (has_none (push_or_spill spill left m.topic m).0)) [
          | inl done ↦ rw (found, done) (omega (arith, rw done at moved, took))
          | inr failed ↦ rw (found, failed) (omega (arith, rw failed at moved, took))
        ]
  ]

  -- The pending message that one handed out takes the place of
  abbrev pub replaced : Broker Q D → Option Message → ℕ
  replaced b none = 0
  replaced b (some m) = cost (pending_tally p) m.id (get b.pending m.id)

  copies-popped :
      (now : ℤ) (b : Broker Q D) (topic : GoString) (q : Q) (o : Option Message) (out : ℕ)
      → tally p (queue.contents (queue_of b topic))
        ≡ tally p (queue.contents q) + tally_of p o + out
      → copies p (popped now (with_queue b topic q) topic o).1 + replaced b o + out ≡ copies p b
  copies-popped now b topic q none out h = omega (arith, h, total-put_back p b.queues topic q)
  copies-popped now b topic q (some m) out h = omega (
    arith,
    h,
    total-put_back p b.queues topic q,
    total-put (pending_tally p) b.pending m.id (record {
      message = m;
      queue_name = topic;
      deliver_at = now;
      ack_deadline = now +ℤ b.ack_timeout;
    }),
  )

  pub copies-consumed :
      (now : ℤ) (b : Broker Q D) (topic : GoString)
      → copies p (consume now b topic).1 + replaced b (consume now b topic).0 ≡ copies p b
  unfolding consume
  copies-consumed now b topic =
      let q = queue_of b topic in
      elim (Option-cases (queue.try_pop q).0) [
        | inl nothing ↦ rw nothing (
            let none_held = queue.empty q nothing in
            let same : tally p (queue.contents q) ≡ tally p (queue.contents (queue.try_pop q).1) =
              ap (tally p) (none_held.0 ∙ sym none_held.1) in
            omega
              (arith, copies-popped now b topic (queue.try_pop q).1 none 0 (omega (arith, same))))
        | inr (m, got) ↦ rw got (
            let took = queue.taken p q m got in
            omega (
              arith,
              copies-popped now b topic (queue.try_pop q).1 (some m) 0 (omega (arith, took)),
            ))
      ]

  abbrev pub rounds : Broker Q D → GoString → ℕ
  rounds b topic = suc (length (queue.contents (queue_of b topic)))

  pub copies-try_consume :
      (clock : ℕ → ℤ) (now : ℤ) (b : Broker Q D) (topic : GoString)
      → copies p (try_consume clock now b topic).1
          + replaced b (try_consume clock now b topic).0
          + expired_tally p (rounds b topic) clock (queue_of b topic)
        ≡ copies p b
  unfolding try_consume
  copies-try_consume clock now b topic =
      let q = queue_of b topic in
      let n = rounds b topic in
      let tried = try_loop n clock q in
      let all =
        copies-popped now b topic tried.1 tried.0 (expired_tally p n clock q)
          (tally-try_loop p n clock q) in
      elim (Option-cases tried.0) [
        | inl nothing ↦ rw nothing (rw nothing at all)
        | inr (m, got) ↦ rw got (rw got at all)
      ]

  pub copies-acked :
      (disk : Bool) (b : Broker Q D) (id : GoString)
      → Unique b.pending
      → copies p (ack disk b id).1 + cost (pending_tally p) id (get b.pending id) ≡ copies p b
  unfolding ack
  copies-acked disk b id unique = elim (Option-cases (get b.pending id)) [
    | inl absent ↦ rw absent (omega arith)
    | inr (pm, held) ↦
        let left = record b { pending = remove b.pending id } in
        rw held (
          omega (
            arith,
            copies-stored p disk left (acked id),
            rw held at (total-remove (pending_tally p) b.pending id unique),
          ))
  ]
