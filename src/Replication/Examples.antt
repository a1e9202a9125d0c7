-- ===== src/Replication/Examples.antt =====
-- The replication theorems at a leader with one follower, and at concrete messages.
use boltq.Prelude.{
  All, List, ℕ, true, ◌≤◌, ◌≡◌, ◌↔◌, refl, [], ◌∷◌, ◌++◌, some, none, lit, length, ltb,
  if◌then◌else◌, arith, str_eq,
}
use boltq.Prelude.Dict.{get, put, remove, update_all}
use boltq.Replication.{
  Leader, new_leader, connect, receive_ack, record_ack, disconnect, wait_turn, held, waits,
  not_enough_replicas, replication, quorum_position, apply_defaults,
}
use boltq.Prelude.Bytes.{put_le}
use boltq.Replication.Quorum.{wait_turn_iff}
use boltq.Replication.Wire.{
  encode_records_header, FetchRequest, encode_fetch, decode_fetch, write_frame, read_frame, frame,
}
use boltq.Stream.{Record}
use boltq.Stream.Segment.Frames.{Stored, frames, RunFrom}
use boltq.Stream.Partition.Grows.{all_writes}
use boltq.Stream.Examples.{sent, fresh, fresh-IsLog, fresh_facts, sent-Fits}
use boltq.Replication.Follower.{apply_batch}
use boltq.Replication.Follows.{Followed, Sendable, apply_batch-Followed, encode_batch-stored}
use boltq.Replication.Frames.{decode_fetch-encode, read_frame-write}

abbrev two_copies : Leader
two_copies = new_leader (record { min_in_sync = 2; max_lag_in_sync = 0; batch_records = 0 })

abbrev followed : Leader
followed = receive_ack 30 (connect 20 two_copies (lit "b")) (lit "b") (lit "chat/0") 5

-- Without a follower a record waits in vain; it waits for the follower, and goes when it has it. When
-- the follower leaves, it no longer counts.
turns :
    (wait_turn two_copies (lit "chat/0") 5 ≡ not_enough_replicas)
    × (wait_turn followed (lit "chat/0") 6 ≡ waits 1)
    × (wait_turn followed (lit "chat/0") 5 ≡ held)
    × (wait_turn (disconnect followed (lit "b")) (lit "chat/0") 5 ≡ not_enough_replicas)
unfolding wait_turn receive_ack record_ack new_leader apply_defaults connect disconnect get put
    remove update_all str_eq
turns = (refl, refl, refl, refl)

-- With one copy asked for, the watermark is the leader's next sequence.
alone : quorum_position 7 [] 1 ≡ 7
unfolding quorum_position
alone = refl

wait_turn_iff_example :
    (wait_turn followed (lit "chat/0") 5 ≡ held)
    ↔ (5 ≤ (replication followed (lit "chat/0") 7).high_watermark)
wait_turn_iff_example = wait_turn_iff followed (lit "chat/0") 7 5 (omega arith) (omega arith)

abbrev request : FetchRequest
request = record { topic = lit "chat"; partition_count = 4; partition = 3; from_seq = 1000 }

decode_fetch-encode_example :
    decode_fetch (encode_fetch request)
    ≡ (if ltb (length request.topic) 65536 then some request else none)
decode_fetch-encode_example = decode_fetch-encode request (omega arith) (omega arith) (omega arith)

read_frame-write_example :
    read_frame ((3 ∷ 2 ∷ 0 ∷ 0 ∷ 0 ∷ 8 ∷ 9 ∷ []) ++ (7 ∷ [])) ≡ frame 3 (8 ∷ 9 ∷ []) (7 ∷ [])
unfolding write_frame put_le
read_frame-write_example =
    read_frame-write 3 (8 ∷ 9 ∷ []) (3 ∷ 2 ∷ 0 ∷ 0 ∷ 0 ∷ 8 ∷ 9 ∷ []) (7 ∷ []) refl

-- Two records for a partition that is still empty
abbrev batch : List Record
batch = record sent { seq = 1; epoch = 0 } ∷ record sent { seq = 2; epoch = 0 } ∷ []

batch-Stored : All Stored batch
batch-Stored = (sent-Fits 1 0 (omega arith) refl, (sent-Fits 2 0 (omega arith) refl, tt))

abbrev payload : List ℕ
payload =
    encode_records_header (record { topic = lit "chat"; partition = 0; count = 2 }) ++ frames batch

batch_of_one_epoch : (epoch : ℕ) → All (Sendable epoch) batch
batch_of_one_epoch epoch = ((refl, omega arith), ((refl, omega arith), tt))

batch_from : (next : ℕ) → next ≡ 1 → RunFrom next batch
batch_from next first = (omega (arith, first), (omega (arith, first), tt))

apply_batch-Followed_example :
    Followed fresh [] batch (apply_batch all_writes true true payload fresh)
apply_batch-Followed_example =
    apply_batch-Followed fresh [] batch (lit "chat") 0 payload fresh-IsLog batch-Stored
      (batch_of_one_epoch fresh.cur_epoch) (batch_from fresh.next_seq fresh_facts.2) fresh_facts.0
      (omega (arith, fresh_facts.2)) (omega arith) (omega arith) (omega arith)
      (encode_batch-stored (lit "chat") 0 batch batch-Stored)
