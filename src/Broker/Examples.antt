-- ===== src/Broker/Examples.antt =====
-- The theorems on the broker at brokers whose queues are the program's: priority queues, and ring
-- buffers for dead letters, each for two messages.
use boltq.Prelude.{
  ℕ, ◌+◌, ◌≡◌, refl, Bool, true, [], ◌∷◌, ◌++◌, none, some, lit, str_eq, string_eq, arith,
  if◌then◌else◌,
}
use boltq.Prelude.Int.{ℤ, pos}
use boltq.Prelude.Dict.{get, cost}
use boltq.Protocol.{Message}
use boltq.Queue.{next_power_of_two}
use boltq.Queue.Examples.{message}
use boltq.Priority.Examples.{busy_holds, urgent, no_messages}
use boltq.Priority.Insert.{add_at}
use boltq.Broker.{
  MessageQueue, Broker, PendingMessage, tally, new_broker, written, publish, prepared, consume,
  try_loop,
}
use boltq.Broker.Queues.{Ring, ring_queues}
use boltq.Broker.Levels.{Levels, contents-levels, priority_queues}
use boltq.Broker.Moving.{ack, nack, purge_queue}
use boltq.Broker.Counting.{copies, pending_tally}
use boltq.Broker.Conserve.{has_none, copies-nack, push_or_spill_done, refuses}
use boltq.Broker.Losses.{replaced}
use boltq.Broker.Drops.{purged_away}
use boltq.Broker.Trying.{Served, try_loop-enough}
use boltq.Broker.Runs.{Books, drops, Runs, starts, publishes, consumes, acks, purges, Runs-conserve}

instance jobs : MessageQueue (Levels 1)
unfolding next_power_of_two
jobs = priority_queues 1 2 refl (omega arith) (λ name i. name ++ i ∷ [])

instance letters : MessageQueue (Ring 1)
unfolding next_power_of_two
letters = ring_queues 1 2 refl (omega arith)

abbrev order : Message
order = message 2 (pos 0)

abbrev is_order : Message → Bool
is_order m = str_eq m.id (2 ∷ [])

abbrev Program : Type 0
Program = Broker (Levels 1) (Ring 1)

-- A broker that has handed out the order
abbrev pending_order : PendingMessage
pending_order = record {
  message = order;
  queue_name = lit "q";
  deliver_at = pos 20;
  ack_deadline = pos 30000000020;
}

abbrev handing : Program
handing = record {
  queues = [];
  dead_letters = [];
  exchanges = [];
  pending = (2 ∷ [], pending_order) ∷ [];
  delayed = urgent ∷ [];
  spilled = [];
  wal = none;
  max_retry = pos 5;
  ack_timeout = pos 30000000000;
}

copies-nack_example :
    copies is_order (nack handing (2 ∷ [])).1
      + (if refuses handing pending_order then tally is_order (order ∷ []) else 0)
    ≡ copies is_order handing
unfolding get str_eq
copies-nack_example = copies-nack is_order handing (2 ∷ []) pending_order (refl, tt) refl refl

-- A queue that holds an urgent message
abbrev busy : Levels 1
busy = record { queue = busy_holds.0; held = add_at 9 urgent no_messages; holds = busy_holds.1 }

-- The clock at each round
abbrev ticks : ℕ → ℤ
ticks i = pos (20 + i)

try_loop-enough_example :
    (try_loop {Q = Levels 1} 2 ticks busy ≡ try_loop {Q = Levels 1} 7 ticks busy)
    × Served ticks 2
        (try_loop {Q = Levels 1} 2 ticks busy).0
        (jobs.contents (try_loop {Q = Levels 1} 2 ticks busy).1)
unfolding jobs next_power_of_two
try_loop-enough_example =
    try_loop-enough {Q = Levels 1} 2 7 ticks busy (rw held (omega arith)) (rw held (omega arith))
  where
    held : jobs.contents busy ≡ urgent ∷ []
    held = contents-levels 1 2 refl (omega arith) (λ name i. name ++ i ∷ []) busy

-- The order is published, handed out, and acknowledged; then the queue is purged.
abbrev started : Program
started = new_broker (pos 5) (pos 0) (some [])

abbrev holding : Program
holding = (publish true true (pos 10) started (lit "q") order).1

abbrev handed : Program
handed = (consume (pos 20) holding (lit "q")).1

abbrev settled : Program
settled = (ack true handed (2 ∷ [])).1

abbrev nothing_yet : Books
nothing_yet = record { came = 0; acknowledged = 0; dropped = 0 }

abbrev published : Books
published = record { came = 1; acknowledged = 0; dropped = 0 }

published_run : Runs is_order published holding
unfolding new_broker publish str_eq
published_run =
    let m = prepared (pos 10) started (lit "q") order in
    let done =
      push_or_spill_done is_order (record started { wal = some (written m ∷ []) }) (lit "q") m in
    let run : Runs is_order
        (record nothing_yet {
          came =
              0
              + (if has_none (publish true true (pos 10) started (lit "q") order).0
                  then tally is_order (order ∷ [])
                  else 0);
        })
        holding =
      publishes nothing_yet started true true (pos 10) (lit "q") order
        (starts (pos 5) (pos 0) (some [])) in
    rw done at run

handed_run :
    Runs is_order
      (drops published (replaced is_order holding (consume (pos 20) holding (lit "q")).0))
      handed
handed_run = consumes published holding (pos 20) (lit "q") published_run

abbrev before : Books
before = drops published (replaced is_order holding (consume (pos 20) holding (lit "q")).0)

abbrev after : Books
after = record before {
  acknowledged = 0 + cost (pending_tally is_order) (2 ∷ []) (get handed.pending (2 ∷ []));
}

Runs-conserve_example :
    copies is_order (purge_queue settled (lit "q")).1
      + after.acknowledged
      + (after.dropped + purged_away is_order settled (lit "q"))
    ≡ 1
Runs-conserve_example =
    Runs-conserve is_order (drops after (purged_away is_order settled (lit "q")))
      (purge_queue settled (lit "q")).1 (λ m. refl)
      (purges after settled (lit "q") (acks before handed true (2 ∷ []) handed_run))
