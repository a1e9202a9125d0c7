-- ===== src/Broker/Places.antt =====
-- Where `Publish` puts a message (internal/broker/broker.go).
use boltq.Prelude.{
  ℕ, ◌+◌, ◌≡◌, Bool, not, ◌&&◌, [], ◌∷◌, ◌++◌, if◌then◌else◌, GoString, str_eq, string_eq,
}
use boltq.Protocol.{Message}
use boltq.Broker.{MessageQueue, Broker, tally, queue_of, spilled_of}

module _ {Q D : Type 0} ⦃queue : MessageQueue Q⦄ ⦃dead : MessageQueue D⦄ where
  module _ (p : Message → Bool) where
    -- The messages that pass the test, in a queue and its spill file
    abbrev pub waiting : Broker Q D → GoString → ℕ
    waiting b name = tally p (queue.contents (queue_of b name)) + tally p (spilled_of b name)

    -- The places of a message that is taken
    pub record Placed (b : Broker Q D) (topic : GoString) (m : Message) (later : Bool)
        (after : Broker Q D) : Type 0 where
      pub queued :
          (name : GoString)
          → waiting after name
            ≡ waiting b name + (if str_eq topic name && not later then tally p (m ∷ []) else 0)
      pub delayed : after.delayed ≡ (if later then b.delayed ++ m ∷ [] else b.delayed)
      pub pending : after.pending ≡ b.pending
      pub dead_letters : after.dead_letters ≡ b.dead_letters
