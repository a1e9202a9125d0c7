-- ===== src/Replication.antt =====
-- The leader's side of replication (internal/replication/leader.go): the positions that followers
-- acknowledge, the wait for enough of them, and the high watermark. A method under the mutex is one
-- step. `round` counts the channels that waiters are woken by. Sockets, streams and the handshake are
-- left out; a `MinInSync` below zero is zero.
pub mod Quorum
pub mod Wire
pub mod Frames
pub mod Follower
pub mod Follows
pub mod Examples
use boltq.Prelude.{
  ℕ, zero, suc, ◌+◌, ◌-◌, Bool, true, false, not, ◌||◌, List, [], ◌∷◌, ◌++◌, Option, none, some,
  ltb, leb, if◌then◌else◌, GoString, string_eq, length, get_or,
}
use boltq.Prelude.Dict.{Dict, get, put, remove, update_all, maybe, size}

pub record LeaderConfig : Type 0 where
  pub min_in_sync : ℕ
  pub max_lag_in_sync : ℕ
  pub batch_records : ℕ

-- The timeouts are the environment's.
pub apply_defaults : LeaderConfig → LeaderConfig
apply_defaults c = record {
  min_in_sync = if ltb 0 c.min_in_sync then c.min_in_sync else 1;
  max_lag_in_sync = if ltb 0 c.max_lag_in_sync then c.max_lag_in_sync else 10000;
  batch_records = if ltb 0 c.batch_records then c.batch_records else 256;
}

pub record PartitionAcks : Type 0 where
  pub acked : Dict GoString ℕ
  pub seen : Dict GoString ℕ
  pub round : ℕ

abbrev pub new_partition_acks : PartitionAcks
new_partition_acks = record { acked = []; seen = []; round = 0 }

abbrev advanced : Dict GoString ℕ → GoString → ℕ → Option ℕ → Dict GoString ℕ
advanced acked node seq none = put acked node seq
advanced acked node seq (some cur) = if ltb cur seq then put acked node seq else acked

-- `record` of the source
unfoldable pub record_ack : ℕ → PartitionAcks → GoString → ℕ → PartitionAcks
record_ack now p node seq = record {
  acked = advanced p.acked node seq (get p.acked node);
  seen = put p.seen node now;
  round = p.round + 1;
}

unfoldable pub drop_node : GoString → PartitionAcks → PartitionAcks
drop_node node p = record {
  acked = remove p.acked node;
  seen = remove p.seen node;
  round = p.round + 1;
}

abbrev pub values : Dict GoString ℕ → List ℕ
values [] = []
values ((node, v) ∷ d) = v ∷ values d

abbrev pub count_ge : ℕ → List ℕ → ℕ
count_ge seq [] = 0
count_ge seq (v ∷ vs) = (if leb seq v then 1 else 0) + count_ge seq vs

abbrev pub count_at_least : PartitionAcks → ℕ → ℕ
count_at_least p seq = count_ge seq (values p.acked)

pub record Leader : Type 0 where
  pub cfg : LeaderConfig
  pub cursors : Dict GoString PartitionAcks
  pub followers : Dict GoString ℕ
  pub acks_received : ℕ

pub new_leader : LeaderConfig → Leader
new_leader cfg = record {
  cfg = apply_defaults cfg;
  cursors = [];
  followers = [];
  acks_received = 0;
}

-- `acksFor`; the callers put it back under its key.
abbrev pub acks_for : Leader → GoString → PartitionAcks
acks_for l key = maybe new_partition_acks (λ p. p) (get l.cursors key)

-- The parts of `serve` that change the leader's state: a handshake, an acknowledgement, and the end
-- of a connection.
pub connect : ℕ → Leader → GoString → Leader
connect now l node = record l { followers = put l.followers node now }

unfoldable pub receive_ack : ℕ → Leader → GoString → GoString → ℕ → Leader
unfolding record_ack
receive_ack now l node key seq = record l {
  cursors = put l.cursors key (record_ack now (acks_for l key) node seq);
  acks_received = l.acks_received + 1;
}

unfoldable pub disconnect : Leader → GoString → Leader
unfolding drop_node
disconnect l node = record l {
  followers = remove l.followers node;
  cursors = update_all (λ key p. drop_node node p) l.cursors;
}

-- One turn of the loop of `WaitFor`
pub data WaitTurn : Type 0 where
  held : WaitTurn
  not_enough_replicas : WaitTurn
  waits : ℕ → WaitTurn

unfoldable pub wait_turn : Leader → GoString → ℕ → WaitTurn
wait_turn l key seq =
    let need = l.cfg.min_in_sync - 1 in
    let p = acks_for l key in
    if leb need 0 || leb need (count_at_least p seq)
    then held
    else if ltb (length l.followers) need
    then not_enough_replicas
    else waits p.round

-- sort.Slice with `>`
unfoldable pub insert : ℕ → List ℕ → List ℕ
insert x [] = x ∷ []
insert x (y ∷ ys) = let rest = insert x ys in if leb y x then x ∷ y ∷ ys else y ∷ rest

unfoldable pub sort : List ℕ → List ℕ
unfolding insert
sort [] = []
sort (x ∷ xs) = insert x (sort xs)

unfoldable pub quorum_position : ℕ → Dict GoString ℕ → ℕ → ℕ
unfolding sort
quorum_position leader_seq acked min_in_sync =
    let positions = sort (leader_seq ∷ values acked) in
    if leb min_in_sync 1
    then leader_seq
    else if ltb (length positions) min_in_sync
    then 0
    else get_or positions (min_in_sync - 1) 0

pub record ReplicaState : Type 0 where
  pub node_id : GoString
  pub acked_seq : ℕ
  pub lag : ℕ
  pub in_sync : Bool

pub record PartitionReplication : Type 0 where
  pub leader_seq : ℕ
  pub replicas : List ReplicaState
  pub in_sync : ℕ
  pub high_watermark : ℕ

-- The order of the replicas, by node ID, is left out.
abbrev replica_states : ℕ → ℕ → Dict GoString ℕ → List ReplicaState
replica_states max_lag leader_seq [] = []
replica_states max_lag leader_seq ((node, seq) ∷ d) =
    record {
      node_id = node;
      acked_seq = seq;
      lag = leader_seq - seq;
      in_sync = leb (leader_seq - seq) max_lag;
    }
    ∷ replica_states max_lag leader_seq d

abbrev pub in_sync_count : List ReplicaState → ℕ
in_sync_count [] = 0
in_sync_count (r ∷ rs) = (if r.in_sync then 1 else 0) + in_sync_count rs

-- `leader_seq` is the next sequence of the local partition, zero without one. Its epoch is left out.
unfoldable pub replication : Leader → GoString → ℕ → PartitionReplication
unfolding quorum_position
replication l key leader_seq =
    let acked = (acks_for l key).acked in
    let replicas = replica_states l.cfg.max_lag_in_sync leader_seq acked in
    record {
      leader_seq = leader_seq;
      replicas = replicas;
      in_sync = in_sync_count replicas + 1;
      high_watermark = quorum_position leader_seq acked l.cfg.min_in_sync;
    }
