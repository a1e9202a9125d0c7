-- ===== src/Broker/Counting.antt =====
-- The copies of messages that a broker holds (internal/broker/broker.go).
use boltq.Prelude.{
  ℕ, ◌+◌, ◌≡◌, refl, ap, ◌∙◌, Bool, true, false, List, [], ◌∷◌, ◌++◌, none, if◌then◌else◌, GoString,
  string_eq, arith, inl, inr, Option-cases, Bool-cases,
}
use boltq.Prelude.Dict.{Dict, get, put, maybe, total, cost, total-put}
use boltq.Protocol.{Message}
use boltq.Broker.{
  MessageQueue, Broker, PendingMessage, tally, queue_of, with_queue, push_or_spill, spill_to_disk,
  spilled_of,
}

abbrev pub pending_tally : (Message → Bool) → GoString → PendingMessage → ℕ
pending_tally p id pm = tally p (pm.message ∷ [])

abbrev pub spilled_tally : (Message → Bool) → GoString → List Message → ℕ
spilled_tally p topic ms = tally p ms

pub tally-append :
    (p : Message → Bool) (xs ys : List Message) → tally p (xs ++ ys) ≡ tally p xs + tally p ys
tally-append p [] ys = omega arith
tally-append p (x ∷ xs) ys = omega (arith, tally-append p xs ys)

module _ {Q : Type 0} ⦃queue : MessageQueue Q⦄ (p : Message → Bool) where
  abbrev pub queue_tally : GoString → Q → ℕ
  queue_tally name q = tally p (queue.contents q)

  abbrev pub found : Dict GoString Q → GoString → Q
  found d name = maybe (queue.create name) (λ q. q) (get d name)

  tally-found :
      (d : Dict GoString Q) (name : GoString)
      → tally p (queue.contents (found d name)) ≡ cost queue_tally name (get d name)
  tally-found d name = elim (Option-cases (get d name)) [
    | inl absent ↦ rw absent (ap (tally p) (queue.created name))
    | inr (q, held) ↦ rw held refl
  ]

  -- A queue that changed, put back.
  pub total-put_back :
      (d : Dict GoString Q) (name : GoString) (q : Q)
      → total queue_tally (put d name q) + tally p (queue.contents (found d name))
        ≡ total queue_tally d + tally p (queue.contents q)
  total-put_back d name q = omega (arith, tally-found d name, total-put queue_tally d name q)

  pub tally-push :
      (q : Q) (m : Message)
      → tally p (queue.contents (queue.push q m).1)
        ≡ tally p (queue.contents q) + (if (queue.push q m).0 then tally p (m ∷ []) else 0)
  tally-push q m = elim (Bool-cases (queue.push q m).0) [
    | inl done ↦ rw done (queue.accepted p q m done)
    | inr full ↦ rw full (ap (tally p) (queue.refused q m full) ∙ omega arith)
  ]

  -- A push adds the message when it is taken, and nothing when it is refused.
  pub total-push :
      (d : Dict GoString Q) (name : GoString) (m : Message)
      → total queue_tally (put d name (queue.push (found d name) m).1)
        ≡ total queue_tally d + (if (queue.push (found d name) m).0 then tally p (m ∷ []) else 0)
  total-push d name m =
      omega
        (arith, total-put_back d name (queue.push (found d name) m).1, tally-push (found d name) m)

module _ {Q D : Type 0} ⦃queue : MessageQueue Q⦄ ⦃dead : MessageQueue D⦄ (p : Message → Bool) where
  -- How many of the messages that pass the test the broker holds, wherever they are.
  abbrev pub copies : Broker Q D → ℕ
  copies b =
      total (queue_tally p) b.queues
      + total (queue_tally p) b.dead_letters
      + tally p b.delayed
      + total (pending_tally p) b.pending
      + total (spilled_tally p) b.spilled

  total-spilled :
      (b : Broker Q D) (topic : GoString) (m : Message)
      → total (spilled_tally p) (put b.spilled topic (spilled_of b topic ++ m ∷ []))
        ≡ total (spilled_tally p) b.spilled + tally p (m ∷ [])
  total-spilled b topic m =
      let new = spilled_of b topic ++ m ∷ [] in
      let put_it = total-put (spilled_tally p) b.spilled topic new in
      let more = tally-append p (spilled_of b topic) (m ∷ []) in
      elim (Option-cases (get b.spilled topic)) [
        | inl absent ↦ omega (
          arith,
          put_it,
          more,
          ap (cost (spilled_tally p) topic) absent,
          ap (λ o. tally p (maybe [] (λ ms. ms) o)) absent,
        )
        | inr (ms, held) ↦ omega (
          arith,
          put_it,
          more,
          ap (cost (spilled_tally p) topic) held,
          ap (λ o. tally p (maybe [] (λ ms. ms) o)) held,
        )
      ]

  copies-spill_to_disk :
      (spill : Bool) (b : Broker Q D) (topic : GoString) (m : Message) (q : Q)
      → (spill_to_disk spill (with_queue b topic q) topic m).0 ≡ none
      → total (queue_tally p) (put b.queues topic q) ≡ total (queue_tally p) b.queues
      → copies (spill_to_disk spill (with_queue b topic q) topic m).1 ≡ copies b + tally p (m ∷ [])
  unfolding spill_to_disk
  copies-spill_to_disk false b topic m q ok same = ground (arith, ok)
  copies-spill_to_disk true b topic m q ok same = omega (arith, same, total-spilled b topic m)

  -- A message that is pushed to a queue, or else to its spill file, is held once more; without an
  -- error it is in one of the two.
  pub copies-push_or_spill :
      (spill : Bool) (b : Broker Q D) (topic : GoString) (m : Message)
      → (push_or_spill spill b topic m).0 ≡ none
      → copies (push_or_spill spill b topic m).1 ≡ copies b + tally p (m ∷ [])
  unfolding push_or_spill
  copies-push_or_spill spill b topic m ok =
      let pushed = total-push p b.queues topic m in
      elim (Bool-cases (queue.push (queue_of b topic) m).0) [
        | inl done ↦ rw done (omega (arith, rw done at pushed))
        | inr full ↦ rw full (
            copies-spill_to_disk spill b topic m (queue.push (queue_of b topic) m).1 (rw full at ok)
              (rw full at pushed ∙ omega arith))
      ]
