-- ===== src/Metadata/Examples.antt =====
-- The metadata theorems on a cluster of two brokers.
use boltq.Prelude.{
  ℕ, suc, ◌+◌, ◌≡◌, refl, Bool, true, false, ◌&&◌, List, [], ◌∷◌, Option, none, some, GoString, lit,
  ◌==◌, Cases, string_eq,
}
use boltq.Prelude.Int.{pos}
use boltq.Prelude.Dict.{get}
use boltq.Metadata.{
  MetadataStore, BrokerInfo, PartitionAssignment, TopicMeta, new_metadata_store, partition_key,
  assignment, apply_fence_broker, in_isr,
}
use boltq.Metadata.Commands.{
  CommandType, MetaCommand, register_broker, create_topic, assign_leader, fence_broker,
  apply_meta_command, apply_update_isr,
}
use boltq.Metadata.Leaders.{apply_all, one_leader_per_epoch}
use boltq.Metadata.Epochs.{Risen}
use boltq.Metadata.Isr.{fence_leaves_isr, update_isr_exact, Updated, all_in}

abbrev node : GoString → BrokerInfo
node id = record {
  node_id = id;
  raft_addr = [];
  stream_addr = [];
  gateway_addr = [];
  admin_addr = [];
  rack = [];
  session = 1;
  fenced = false;
  registered_at = pos 0;
  fenced_at = pos 0;
}

abbrev placed_at : PartitionAssignment
placed_at = record {
  topic = lit "t";
  partition = 0;
  leader = lit "a";
  leader_epoch = 1;
  replicas = lit "a" ∷ lit "b" ∷ [];
  isr = lit "a" ∷ lit "b" ∷ [];
  version = 2;
}

abbrev slot : GoString
slot = lit "t/0"

abbrev two : MetadataStore
two = record new_metadata_store {
  brokers = (lit "a", node (lit "a")) ∷ (lit "b", node (lit "b")) ∷ [];
  partitions = (slot, placed_at) ∷ [];
}

fence_leaves_isr_example :
    in_isr (record placed_at { isr = lit "a" ∷ []; version = 3 }) (lit "b") ≡ false
unfolding apply_fence_broker boltq.Metadata.fence_found boltq.Metadata.publish_locked
    boltq.Metadata.shrink_isr_locked get boltq.Prelude.Dict.put boltq.Prelude.Dict.update_all
    boltq.Prelude.elem boltq.Prelude.str_eq boltq.Metadata.in_isr new_metadata_store
fence_leaves_isr_example =
    fence_leaves_isr two (lit "b") (pos 9) (node (lit "b")) slot
      (record placed_at { isr = lit "a" ∷ []; version = 3 }) refl refl refl

update_isr_exact_example :
    Cases
      ((1 == placed_at.leader_epoch) && all_in placed_at.replicas (lit "b" ∷ []))
      ((b : PartitionAssignment) × (assignment
            (apply_update_isr two (lit "t") 0 1 (lit "b" ∷ [])).1
            (lit "t")
            0
          ≡ some b)
        × Updated placed_at (lit "b" ∷ []) b)
      ((apply_update_isr two (lit "t") 0 1 (lit "b" ∷ [])).1 ≡ two)
unfolding assignment partition_key get boltq.Prelude.Decimal.decimal boltq.Prelude.str_eq
    new_metadata_store
update_isr_exact_example = update_isr_exact two (lit "t") 0 1 (lit "b" ∷ []) placed_at refl

abbrev blank : MetaCommand
blank = record {
  broker = none;
  node_id = [];
  fenced = false;
  timestamp = pos 0;
  topic = [];
  partition = 0;
  topic_meta = none;
  placements = [];
  leader = [];
  leader_epoch = 0;
  isr = none;
  replicas = [];
}

abbrev topic_t : TopicMeta
topic_t = record { name = lit "t"; partitions = 1; replication_factor = 2; min_in_sync = 1 }

abbrev set_up : List (CommandType × MetaCommand)
set_up =
    (
      create_topic,
      record blank { topic_meta = some topic_t; placements = (lit "a" ∷ lit "b" ∷ []) ∷ [] },
    )
    ∷ (assign_leader, record blank { topic = lit "t"; leader = lit "a"; leader_epoch = 1 })
    ∷ []

abbrev next_leader : List (CommandType × MetaCommand)
next_leader =
    (assign_leader, record blank { topic = lit "t"; leader = lit "b"; leader_epoch = 2 }) ∷ []

set_up-places : get (apply_all new_metadata_store set_up).partitions slot ≡ some placed_at
unfolding apply_meta_command get boltq.Metadata.Commands.apply_assign_leader assignment
    boltq.Metadata.apply_create_topic new_metadata_store boltq.Metadata.publish_locked
    boltq.Prelude.Dict.put boltq.Prelude.str_eq partition_key boltq.Metadata.Commands.write_back
set_up-places = refl

one_leader_per_epoch_example :
    Risen placed_at slot (apply_all (apply_all new_metadata_store set_up) next_leader).partitions
one_leader_per_epoch_example = one_leader_per_epoch set_up next_leader slot placed_at set_up-places
