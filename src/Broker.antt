-- ===== src/Broker.antt =====
-- The broker (internal/broker/broker.go): work queues and dead-letter queues by name, messages that
-- wait for their time, and messages that were handed out and not yet acknowledged. The queues are an
-- interface, as in the source. What the storage takes is an argument; `wal` is the list of what was
-- written to it, none without a storage. A spill file is the list of its messages; whether it can be
-- written is an argument. Statistics, pub/sub channels and the background checkpoint are left out.
pub mod Moving
pub mod Exchanging
pub mod Counting
pub mod Conserve
pub mod Queues
pub mod Levels
pub mod Places
pub mod Losses
pub mod Drops
pub mod HandedOut
pub mod Runs
pub mod Trying
pub mod Examples
use boltq.Prelude.{
  ℕ, zero, suc, ◌+◌, ◌≡◌, Bool, true, false, not, ◌&&◌, List, [], ◌∷◌, ◌++◌, Option, none, some,
  if◌then◌else◌, GoString, lit, str_eq, string_eq, length,
}
use boltq.Prelude.Int.{ℤ, pos, ltb_ℤ, ◌+ℤ◌}
use boltq.Prelude.Dict.{Dict, get, has, put, remove, maybe}
use boltq.Protocol.{Message}
use boltq.Exchange.{Exchange, direct}

-- How many messages pass a test.
abbrev pub tally : (Message → Bool) → List Message → ℕ
tally p [] = 0
tally p (m ∷ ms) = (if p m then 1 else 0) + tally p ms

-- queue.MessageQueue: its operations, `Drain` as `contents`, and what the broker relies on. `create`
-- is NewPriority or New at the broker's capacity, which never changes. Queues and Levels
-- have the instances.
pub record MessageQueue (Q : Type 0) : Type 0 where
  pub create : GoString → Q
  pub push : Q → Message → Bool × Q
  pub try_pop : Q → Option Message × Q
  pub purge : Q → ℕ × Q
  pub has_message : Q → GoString → Bool
  pub contents : Q → List Message
  pub created : (name : GoString) → contents (create name) ≡ []
  pub purged : (q : Q) → contents (purge q).1 ≡ []
  pub refused : (q : Q) (m : Message) → (push q m).0 ≡ false → contents (push q m).1 ≡ contents q
  pub accepted :
      (p : Message → Bool) (q : Q) (m : Message)
      → (push q m).0 ≡ true
      → tally p (contents (push q m).1) ≡ tally p (contents q) + tally p (m ∷ [])
  pub empty : (q : Q) → (try_pop q).0 ≡ none → (contents q ≡ []) × (contents (try_pop q).1 ≡ [])
  pub taken :
      (p : Message → Bool) (q : Q) (m : Message)
      → (try_pop q).0 ≡ some m
      → tally p (contents q) ≡ tally p (contents (try_pop q).1) + tally p (m ∷ [])

pub record PendingMessage : Type 0 where
  pub message : Message
  pub queue_name : GoString
  pub deliver_at : ℤ
  pub ack_deadline : ℤ

-- Records of the write-ahead log
pub data Stored : Type 0 where
  written : Message → Stored
  acked : GoString → Stored

pub data BrokerError : Type 0 where
  storage_failed : BrokerError
  spill_failed : BrokerError
  not_pending : BrokerError
  not_delayed : BrokerError
  queue_full : BrokerError
  queue_not_found : BrokerError
  exchange_not_found : BrokerError
  exchange_differs : BrokerError
  default_exchange : BrokerError

pub record Broker (Q D : Type 0) : Type 0 where
  pub queues : Dict GoString Q
  pub dead_letters : Dict GoString D
  pub exchanges : Dict GoString Exchange
  pub pending : Dict GoString PendingMessage
  pub delayed : List Message
  pub spilled : Dict GoString (List Message)
  pub wal : Option (List Stored)
  pub max_retry : ℤ
  pub ack_timeout : ℤ

abbrev pub default_or : ℤ → ℤ → ℤ
default_or d n = if ltb_ℤ (pos 0) n then n else d

-- The capacity that `New` gives the queues
abbrev pub queue_cap_or_default : ℕ → ℕ
queue_cap_or_default zero = 1048576
queue_cap_or_default (suc n) = suc n

abbrev pub dead_letter_name : GoString → GoString
dead_letter_name name = name ++ lit "_dead_letter"

-- The loop of `TryConsume`: messages that have expired are dropped. `clock` has the time that each
-- round reads.
unfoldable pub try_loop :
    {Q : Type 0} → ⦃queue : MessageQueue Q⦄ → ℕ → (ℕ → ℤ) → Q → Option Message × Q
try_loop ⦃queue⦄ zero clock q = (none, q)
try_loop ⦃queue⦄ (suc fuel) clock q =
    let (m, rest) = queue.try_pop q in
    let more = try_loop fuel (λ i. clock (suc i)) rest in
    maybe (none, rest)
      (λ (m : Message).
        if ltb_ℤ (pos 0) m.expires_at && ltb_ℤ m.expires_at (clock 0) then more else (some m, rest))
      m

module _ {Q D : Type 0} ⦃queue : MessageQueue Q⦄ ⦃dead : MessageQueue D⦄ where
  pub new_broker : ℤ → ℤ → Option (List Stored) → Broker Q D
  new_broker max_retry ack_timeout wal = record {
    queues = [];
    dead_letters = [];
    exchanges = ([], record { name = []; type = direct; durable = true; bindings = [] }) ∷ [];
    pending = [];
    delayed = [];
    spilled = [];
    wal = wal;
    max_retry = default_or (pos 5) max_retry;
    ack_timeout = default_or (pos 30000000000) ack_timeout;
  }

  -- `getOrCreateQueueLocked`; the callers put the queue back under its name.
  abbrev pub queue_of : Broker Q D → GoString → Q
  queue_of b name = maybe (queue.create name) (λ q. q) (get b.queues name)

  abbrev pub dead_letter_of : Broker Q D → GoString → D
  dead_letter_of b dl_name = maybe (dead.create dl_name) (λ q. q) (get b.dead_letters dl_name)

  abbrev pub with_queue : Broker Q D → GoString → Q → Broker Q D
  with_queue b name q = record b { queues = put b.queues name q }

  abbrev pub spilled_of : Broker Q D → GoString → List Message
  spilled_of b topic = maybe [] (λ ms. ms) (get b.spilled topic)

  unfoldable pub spill_to_disk :
      Bool → Broker Q D → GoString → Message → Option BrokerError × Broker Q D
  spill_to_disk false b topic m = (some spill_failed, b)
  spill_to_disk true b topic m =
      (none, record b { spilled = put b.spilled topic (spilled_of b topic ++ m ∷ []) })

  -- A push to the queue of a topic, and to its spill file when the queue is full.
  unfoldable pub push_or_spill :
      Bool → Broker Q D → GoString → Message → Option BrokerError × Broker Q D
  unfolding spill_to_disk
  push_or_spill spill b topic m =
      let (done, q) = queue.push (queue_of b topic) m in
      let pushed = with_queue b topic q in
      if done then (none, pushed) else spill_to_disk spill pushed topic m

  -- A write to the storage; none when it fails.
  abbrev pub store_write : Bool → Broker Q D → Stored → Option (Broker Q D)
  store_write disk b entry = elim b.wal [
    | none ↦ some b
    | some entries ↦ if disk then some (record b { wal = some (entries ++ entry ∷ []) }) else none
  ]

  -- The message with its topic, its limit of retries and its times.
  abbrev pub prepared : ℤ → Broker Q D → GoString → Message → Message
  prepared now b topic m = record m {
    topic = topic;
    max_retry = b.max_retry;
    deliver_at = if ltb_ℤ (pos 0) m.delay then now +ℤ m.delay else m.deliver_at;
    expires_at = if ltb_ℤ (pos 0) m.ttl then now +ℤ m.ttl else m.expires_at;
  }

  abbrev pub queued_or_delayed :
      Bool → ℤ → GoString → Message → Broker Q D → Option BrokerError × Broker Q D
  queued_or_delayed spill now topic m b =
      if ltb_ℤ now m.deliver_at
      then (none, record b { delayed = b.delayed ++ m ∷ [] })
      else push_or_spill spill b topic m

  unfoldable pub publish :
      Bool → Bool → ℤ → Broker Q D → GoString → Message → Option BrokerError × Broker Q D
  unfolding push_or_spill
  publish disk spill now b topic msg =
      let m = prepared now b topic msg in
      maybe (some storage_failed, b) (queued_or_delayed spill now topic m)
        (store_write disk b (written m))

  -- During recovery nothing is written, and what has expired is left out.
  unfoldable pub ingest_recovered : Bool → ℤ → Broker Q D → Message → Broker Q D
  unfolding push_or_spill
  ingest_recovered spill now b m =
      let expired = ltb_ℤ (pos 0) m.expires_at && not (ltb_ℤ now m.expires_at) in
      let too_old = ltb_ℤ (pos 0) m.ttl && not (ltb_ℤ now (m.timestamp +ℤ m.ttl)) in
      if expired then b else if too_old then b else (queued_or_delayed spill now m.topic m b).1

  -- The message is handed out until its deadline.
  abbrev pub handed_out : ℤ → Broker Q D → GoString → Message → Broker Q D
  handed_out now b topic m = record b {
    pending = put b.pending m.id (record {
      message = m;
      queue_name = topic;
      deliver_at = now;
      ack_deadline = now +ℤ b.ack_timeout;
    });
  }

  abbrev pub popped : ℤ → Broker Q D → GoString → Option Message → Option Message × Broker Q D
  popped now b topic none = (none, b)
  popped now b topic (some m) = (some m, handed_out now b topic m)

  -- `Consume` once its queue has a message or is closed; none is a queue to wait for.
  pub consume : ℤ → Broker Q D → GoString → Option Message × Broker Q D
  consume now b topic =
      let (m, q) = queue.try_pop (queue_of b topic) in popped now (with_queue b topic q) topic m

  -- Each round takes a message out of the queue; `now` is the time at which one is handed out.
  unfoldable pub try_consume : (ℕ → ℤ) → ℤ → Broker Q D → GoString → Option Message × Broker Q D
  unfolding try_loop
  try_consume clock now b topic =
      let q = queue_of b topic in
      let (m, rest) = try_loop (suc (length (queue.contents q))) clock q in
      popped now (with_queue b topic rest) topic m
