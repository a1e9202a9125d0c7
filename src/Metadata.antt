-- ===== src/Metadata.antt =====
-- The replicated metadata of the cluster (internal/cluster/metadata.go, metadata_fsm.go): brokers,
-- topics and who leads each partition. Raft applies one command after the other; each holds the
-- store's mutex. Pointers are copied on the way in and out, so values stand for them here.
pub mod Commands
pub mod Names
pub mod Isr
pub mod Epochs
pub mod Leaders
pub mod Examples
use Prim.Native.Nat.{pred}
use boltq.Prelude.{
  ℕ, zero, suc, ◌+◌, ◌-◌, ◌/◌, ◌%◌, Bool, true, false, not, ◌&&◌, ◌||◌, List, [], ◌∷◌, ◌++◌, Option,
  none, some, ltb, leb, ◌==◌, if◌then◌else◌, GoString, lit, str_eq, elem, string_eq, nat_eq, length,
  keep_if,
}
use boltq.Prelude.Int.{ℤ, pos, negsuc}
use boltq.Prelude.Decimal.{decimal}
use boltq.Prelude.Dict.{Dict, get, has, put, remove, update_all, is_some, maybe}

pub data MetadataError : Type 0 where
  no_such_broker : MetadataError
  no_such_partition : MetadataError
  topic_exists : MetadataError
  wrong_placements : MetadataError
  stale_epoch : MetadataError
  not_a_replica : MetadataError
  no_payload : MetadataError
  not_control_plane : MetadataError

pub record BrokerInfo : Type 0 where
  pub node_id : GoString
  pub raft_addr : GoString
  pub stream_addr : GoString
  pub gateway_addr : GoString
  pub admin_addr : GoString
  pub rack : GoString
  pub session : ℕ
  pub fenced : Bool
  pub registered_at : ℤ
  pub fenced_at : ℤ

pub record PartitionAssignment : Type 0 where
  pub topic : GoString
  pub partition : ℕ
  pub leader : GoString
  pub leader_epoch : ℕ
  pub replicas : List GoString
  pub isr : List GoString
  pub version : ℕ

unfoldable pub in_isr : PartitionAssignment → GoString → Bool
in_isr a node_id = elem node_id a.isr

pub record TopicMeta : Type 0 where
  pub name : GoString
  pub partitions : ℕ
  pub replication_factor : ℕ
  pub min_in_sync : ℕ

pub record MetadataEvent : Type 0 where
  pub assignment : Option PartitionAssignment
  pub broker : Option BrokerInfo
  pub version : ℕ

-- A subscriber's channel and what waits in it
pub record Channel : Type 0 where
  pub buffer : ℕ
  pub events : List MetadataEvent

pub record MetadataStore : Type 0 where
  pub brokers : Dict GoString BrokerInfo
  pub topics : Dict GoString TopicMeta
  pub partitions : Dict GoString PartitionAssignment
  pub version : ℕ
  pub subs : Dict ℕ Channel
  pub next : ℕ

unfoldable pub new_metadata_store : MetadataStore
new_metadata_store = record {
  brokers = [];
  topics = [];
  partitions = [];
  version = 0;
  subs = [];
  next = 0;
}

unfoldable pub partition_key : GoString → ℕ → GoString
unfolding decimal
partition_key topic partition = topic ++ b'/' ∷ decimal (suc partition) partition

pub broker : MetadataStore → GoString → Option BrokerInfo
broker m node_id = get m.brokers node_id

unfoldable pub assignment : MetadataStore → GoString → ℕ → Option PartitionAssignment
assignment m topic partition = get m.partitions (partition_key topic partition)

pub subscribe : MetadataStore → ℕ → ℕ × MetadataStore
subscribe m buffer =
    let size = if buffer == 0 then 64 else buffer in
    (
      m.next,
      record m {
        subs = put m.subs m.next (record { buffer = size; events = [] });
        next = suc m.next;
      },
    )

-- The function that Subscribe returns with the channel
pub unsubscribe : MetadataStore → ℕ → MetadataStore
unsubscribe m id = record m { subs = remove m.subs id }

-- A channel that is full misses the event.
deliver : MetadataEvent → ℕ → Channel → Channel
deliver ev id ch =
    if ltb (length ch.events) ch.buffer then record ch { events = ch.events ++ ev ∷ [] } else ch

unfoldable pub publish_locked : MetadataStore → MetadataEvent → MetadataStore
unfolding deliver
publish_locked m ev = record m {
  subs = update_all (deliver (record ev { version = m.version })) m.subs;
}

abbrev pub nothing_more : MetadataEvent
nothing_more = record { assignment = none; broker = none; version = 0 }

abbrev pub broker_event : BrokerInfo → MetadataEvent
broker_event b = record nothing_more { broker = some b }

abbrev pub assignment_event : PartitionAssignment → MetadataEvent
assignment_event a = record nothing_more { assignment = some a }

abbrev pub registered : Option BrokerInfo → BrokerInfo → BrokerInfo
registered (some prev) b = record b {
  session = suc prev.session;
  fenced = false;
  fenced_at = pos 0;
}
registered none b = record b {
  session = if b.session == 0 then 1 else b.session;
  fenced = false;
  fenced_at = pos 0;
}

unfoldable pub apply_register_broker : MetadataStore → BrokerInfo → BrokerInfo × MetadataStore
apply_register_broker m b =
    let cp = registered (get m.brokers b.node_id) b in
    (
      cp,
      publish_locked (record m { brokers = put m.brokers b.node_id cp; version = suc m.version })
          (broker_event cp),
    )

-- One assignment without a node in its in-sync set
abbrev pub shrunk : GoString → PartitionAssignment → PartitionAssignment
shrunk node_id a =
    if in_isr a node_id
    then record a { isr = keep_if (λ id. not (str_eq id node_id)) a.isr; version = suc a.version }
    else a

unfoldable pub shrink_isr_locked : MetadataStore → GoString → MetadataStore
shrink_isr_locked m node_id = record m {
  partitions = update_all (λ k a. shrunk node_id a) m.partitions;
}

unfoldable pub apply_unregister_broker :
    MetadataStore → GoString → Option MetadataError × MetadataStore
apply_unregister_broker m node_id =
    let shrunk_m = shrink_isr_locked (record m { brokers = remove m.brokers node_id }) node_id in
    if has m.brokers node_id
    then (none, publish_locked (record shrunk_m { version = suc m.version }) nothing_more)
    else (some no_such_broker, m)

unfoldable pub fence_found :
    Option BrokerInfo
    → MetadataStore
    → GoString
    → Bool
    → ℤ
    → (Bool × Option MetadataError) × MetadataStore
fence_found none m node_id fenced at = ((false, some no_such_broker), m)
fence_found (some b) m node_id fenced at =
    let cp = record b { fenced = fenced; fenced_at = if fenced then at else pos 0 } in
    let set_m = record m { brokers = put m.brokers node_id cp } in
    let shrunk_m = if fenced then shrink_isr_locked set_m node_id else set_m in
    if (b.fenced && fenced) || (not b.fenced && not fenced) then ((false, none), m) else (
      (true, none),
      publish_locked (record shrunk_m { version = suc m.version }) (broker_event cp),
    )

unfoldable pub apply_fence_broker :
    MetadataStore → GoString → Bool → ℤ → (Bool × Option MetadataError) × MetadataStore
unfolding fence_found
apply_fence_broker m node_id fenced at = fence_found (get m.brokers node_id) m node_id fenced at

abbrev pub placed : GoString → ℕ → List GoString → PartitionAssignment
placed topic pid replicas = record {
  topic = topic;
  partition = pid;
  leader = [];
  leader_epoch = 0;
  replicas = replicas;
  isr = replicas;
  version = 1;
}

unfoldable pub place_from :
    GoString
    → ℕ
    → List (List GoString)
    → Dict GoString PartitionAssignment
    → Dict GoString PartitionAssignment
place_from topic pid [] d = d
place_from topic pid (replicas ∷ more) d =
    place_from topic (suc pid) more (put d (partition_key topic pid) (placed topic pid replicas))

unfoldable pub apply_create_topic :
    MetadataStore → TopicMeta → List (List GoString) → Option MetadataError × MetadataStore
unfolding place_from
apply_create_topic m meta placements =
    if has m.topics meta.name
    then (some topic_exists, m)
    else if not (meta.partitions == length placements)
    then (some wrong_placements, m)
    else (
      none,
      publish_locked
          (record m {
            topics = put m.topics meta.name meta;
            partitions = place_from meta.name 0 placements m.partitions;
            version = suc m.version;
          })
          nothing_more,
    )
