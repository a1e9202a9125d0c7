-- ===== src/Share/Examples.antt =====
-- The share partition's theorems on a log of three records.
use boltq.Prelude.{
  ℕ, zero, suc, ◌-◌, ◌≤◌, ◌<◌, ◌≡◌, ◌≢◌, refl, sym, nat_eq, Bool, true, false, List, [], ◌∷◌,
  Option, none, some, GoString, lit, arith, length, ltb, if◌then◌else◌, Cases,
}
use boltq.Prelude.Int.{pos}
use boltq.Prelude.Dict.{get}
use boltq.Stream.{Record}
use boltq.Share.{
  SharePartition, ShareConfig, CursorKey, Entry, Outside, Log, ReadResult, truncated, failed,
  records, Consecutive, Reason, open_share_partition,
}
use boltq.Share.Settling.{ack, nack}
use boltq.Share.Acquiring.{acquire}
use boltq.Stream.Partition.{Partition, open_partition}
use boltq.Stream.Partition.Chain.{IsLog, create_segment-Holds}
use boltq.Share.Logs.{partition_log, Exhausted, acquire_partition}
use boltq.Share.Window.{IsWindow}
use boltq.Share.Settle.{Settled, finished, leased_to, Refused, left_by_nack, ack_exact, nack_exact}
use boltq.Share.Acquire.{Acquires, acquire_exclusive}
use boltq.Share.Complete.{Exhaustive, acquire_complete}
use boltq.Share.Runs.{Op, acquires, acks, nacks, run, was_finished, open-IsWindow, at_least_once}

abbrev numbered : ℕ → ℕ → List Record
numbered from zero = []
numbered from (suc n) =
    record {
      seq = from;
      timestamp = pos 0;
      key = [];
      headers = [];
      payload = [];
      flags = 0;
      epoch = 0;
    }
    ∷ numbered (suc from) n

numbered-Consecutive :
    (from n : ℕ) → Consecutive from (numbered from n) × (length (numbered from n) ≡ n)
numbered-Consecutive from zero = (tt, refl)
numbered-Consecutive from (suc n) =
    let rest = numbered-Consecutive (suc from) n in ((refl, rest.0), omega (arith, rest.1))

abbrev given : ℕ → ℕ → ℕ
given from n = if ltb n (4 - from) then n else 4 - from

numbered-in_order :
    (from n : ℕ) (rs : List Record)
    → 0 < from
    → 0 < n
    → records (numbered from (given from n)) ≡ records rs
    → Consecutive from rs × (length rs ≤ n)
numbered-in_order from n rs some_from some_n e =
    let same : numbered from (given from n) ≡ rs = cc in
    let known = numbered-Consecutive from (given from n) in
    rw (sym same) (known.0, ground (arith, known.1))

readable : (from n : ℕ) → records (numbered from (given from n)) ≢ truncated
readable from n e = ground (arith, e)

abbrev three : Log
three = record {
  first_seq = 1;
  numbered = omega arith;
  read_from = λ from n. records (numbered from (given from n));
  kept_back = λ from n lo e. readable from n e;
  in_order = numbered-in_order;
}

-- The environment counts the commits; the dead-letter route takes everything.
instance abbrev counting : Outside ℕ
counting = record { commit = λ n k s. (true, suc n); dead_letter = λ n k r reason. (true, n) }

abbrev cfg : ShareConfig
cfg = record {
  group = lit "g";
  ack_timeout = 10;
  max_delivery = 2;
  max_in_flight = 2;
  has_dead_letter = true;
}

abbrev key : CursorKey
key = record { topic = lit "t"; partition = pos 0; group = lit "g" }

abbrev start : SharePartition ℕ
start = open_share_partition key three true none cfg 0

start-IsWindow : IsWindow start
start-IsWindow = open-IsWindow key three true none cfg 0

start_open : start.closed ≡ false
unfolding open_share_partition
start_open = refl

acquire_exclusive_example :
    Acquires 5 1
      (lit "a")
      start
      (acquire start (lit "a") 2 5 three).0.0
      (acquire start (lit "a") 2 5 three).1
acquire_exclusive_example = acquire_exclusive start (lit "a") 2 5 three start-IsWindow

acquire_complete_example :
    ((acquire start (lit "a") 4 5 three).0.1 ≡ none)
    × Exhaustive three 4
        (acquire start (lit "a") 4 5 three).0.0
        (acquire start (lit "a") 4 5 three).1
acquire_complete_example =
    acquire_complete start (lit "a") 3 5 three start-IsWindow start_open
      (λ from k e. ground (arith, e))

-- `a` holds both records of the window.
busy : SharePartition ℕ
busy = (acquire start (lit "a") 2 5 three).1

busy-IsWindow : IsWindow busy
unfolding busy
busy-IsWindow = (acquire_exclusive start (lit "a") 2 5 three start-IsWindow).window

busy_open : busy.closed ≡ false
unfolding busy acquire open_share_partition boltq.Share.Settling.reap_expired boltq.Share.advance
    boltq.Share.slide boltq.Prelude.Dict.size boltq.Share.Acquiring.round
    boltq.Share.Acquiring.lease_fresh boltq.Share.lease
busy_open = refl

ack_exact_example :
    Cases
      (leased_to busy (lit "a") 1)
      (Settled busy 1 none (ack busy (lit "a") 1).1
        × (finished (ack busy (lit "a") 1).1 (ack busy (lit "a") 1).1.base ≡ false))
      (Refused busy (ack busy (lit "a") 1))
ack_exact_example = ack_exact busy (lit "a") 1 busy-IsWindow busy_open

nack_exact_example :
    Cases
      (leased_to busy (lit "b") 1)
      (Settled busy 1 (left_by_nack busy (get busy.entries 1) true) (nack busy (lit "b") 1 true).1)
      (Refused busy (nack busy (lit "b") 1 true))
nack_exact_example = nack_exact busy (lit "b") 1 true busy-IsWindow busy_open

abbrev calls : List Op
calls =
    acquires (lit "a") 2 5 three
    ∷ acks (lit "a") 2
    ∷ acks (lit "b") 1
    ∷ nacks (lit "a") 1 true
    ∷ acquires (lit "b") 1 6 three
    ∷ []

at_base : start.base ≤ 1
unfolding open_share_partition
at_base = omega arith

not_finished : was_finished start calls 1 ≡ false
unfolding was_finished get open_share_partition ack acquire boltq.Share.Settling.reap_expired
    boltq.Share.advance boltq.Share.slide boltq.Prelude.Dict.size boltq.Share.Acquiring.round
    boltq.Share.Acquiring.lease_fresh boltq.Share.lease boltq.Share.Settling.ack_found
    boltq.Prelude.Dict.put boltq.Prelude.str_eq boltq.Share.retire boltq.Prelude.Dict.remove nack
    boltq.Share.Settling.nack_found boltq.Share.Settling.nack_held boltq.Share.release
not_finished = refl

at_least_once_example :
    IsWindow {E = ℕ} (run start calls) × (finished {E = ℕ} (run start calls) 1 ≡ false)
at_least_once_example = at_least_once key three true none cfg 0 calls 1 at_base not_finished

-- A stream partition with no record yet
abbrev empty_stream : Partition
empty_stream =
    open_partition
      (record {
        segment_bytes = 64;
        index_interval = 0;
        retention_bytes = 0;
        retention_age = 0;
        sync_on_append = false;
      })
      none []

empty_stream-IsLog : IsLog empty_stream []
unfolding open_partition boltq.Stream.Segment.create_segment
empty_stream-IsLog = record {
  chain = (create_segment-Holds 1 _ (omega arith) (omega arith), refl, refl);
  next = refl;
  low = omega arith;
  high = omega arith;
}

empty_stream_open : empty_stream.closed ≡ false
unfolding open_partition
empty_stream_open = refl

acquire_partition_example :
    ((acquire start
        (lit "a")
        2
        5
        (partition_log empty_stream [] empty_stream-IsLog empty_stream_open)).0.1
      ≡ none)
    × Exhausted empty_stream [] empty_stream-IsLog empty_stream_open 2
        (acquire start
          (lit "a")
          2
          5
          (partition_log empty_stream [] empty_stream-IsLog empty_stream_open)).0.0
        (acquire start
          (lit "a")
          2
          5
          (partition_log empty_stream [] empty_stream-IsLog empty_stream_open)).1
acquire_partition_example =
    acquire_partition empty_stream [] empty_stream-IsLog empty_stream_open start (lit "a") 1 5
      start-IsWindow start_open
