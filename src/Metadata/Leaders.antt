-- ===== src/Metadata/Leaders.antt =====
-- One leader for each epoch of a partition, through any sequence of commands
-- (internal/cluster/metadata_fsm.go).
use boltq.Prelude.{
  ℕ, suc, ◌≡◌, refl, Bool, List, [], ◌∷◌, Option, none, some, arith, leb, ◌==◌, GoString, string_eq,
  nat_eq, length, inl, inr, Bool-cases,
}
use boltq.Prelude.Int.{ℤ}
use boltq.Prelude.Dict.{get, has}
use boltq.Metadata.{
  BrokerInfo, PartitionAssignment, TopicMeta, MetadataStore, assignment, partition_key,
  publish_locked, shrink_isr_locked, fence_found, apply_register_broker, apply_unregister_broker,
  apply_fence_broker, apply_create_topic, new_metadata_store,
}
use boltq.Metadata.Commands.{
  write_back, led, assign_found, apply_assign_leader, clean_isr, with_leader, update_cleaned,
  update_found, apply_update_isr, reassigned, reassign_found, apply_reassign, CommandType,
  register_broker, unregister_broker, fence_broker, create_topic, assign_leader, update_isr,
  reassign, queue_plane, MetaCommand, register_payload, create_payload, apply_meta_command, listed,
}
use boltq.Metadata.Epochs.{
  HasTopics, Rises, Rises-refl, Rises-trans, Risen, Later, same-Later, shrink-Later, put-Later,
  create-Later,
}

-- From one store to a later one.
abbrev pub LaterStore : MetadataStore → MetadataStore → Type 0
LaterStore m n = Later n.topics m.partitions n.partitions

abbrev pub Named : MetadataStore → Type 0
Named m = HasTopics m.topics m.partitions

register-Later :
    (m : MetadataStore) (b : BrokerInfo) → Named m → LaterStore m (apply_register_broker m b).1
unfolding apply_register_broker publish_locked
register-Later m b h = same-Later m.topics m.partitions h

unregister-Later :
    (m : MetadataStore) (id : GoString) → Named m → LaterStore m (apply_unregister_broker m id).1
unfolding apply_unregister_broker publish_locked shrink_isr_locked
unregister-Later m id h =
    ground (arith, same-Later m.topics m.partitions h, shrink-Later m.topics m.partitions id h)

fence-Later :
    (o : Option BrokerInfo) (m : MetadataStore) (id : GoString) (fenced : Bool) (at : ℤ)
    → Named m
    → LaterStore m (fence_found o m id fenced at).1
unfolding fence_found publish_locked shrink_isr_locked
fence-Later none m id fenced at h = same-Later m.topics m.partitions h
fence-Later (some b) m id fenced at h =
    ground (arith, same-Later m.topics m.partitions h, shrink-Later m.topics m.partitions id h)

create_topic-Later :
    (m : MetadataStore) (meta : TopicMeta) (rs : List (List GoString))
    → Named m
    → LaterStore m (apply_create_topic m meta rs).1
unfolding apply_create_topic publish_locked
create_topic-Later m meta rs h = elim (Bool-cases (has m.topics meta.name)) [
  | inl taken ↦ rw taken (same-Later m.topics m.partitions h)
  | inr fresh ↦ elim (Bool-cases (meta.partitions == length rs)) [
    | inl right ↦ rw (fresh, right) (create-Later m.topics m.partitions meta rs h fresh)
    | inr wrong ↦ rw (fresh, wrong) (same-Later m.topics m.partitions h)
  ]
]

-- Writing back what has risen.
write_back-Later :
    (m : MetadataStore) (key : GoString) (a b : PartitionAssignment)
    → Named m
    → get m.partitions key ≡ some a
    → Rises a b
    → LaterStore m (write_back m key b)
unfolding write_back publish_locked
write_back-Later m key a b h found r =
    put-Later m.topics m.partitions key a (record b { version = suc b.version }) h found
      record {
        topic = r.topic;
        partition = r.partition;
        epoch = r.epoch;
        version = omega (arith, r.version);
      }

assign-Later :
    (o : Option PartitionAssignment) (m : MetadataStore) (key leader : GoString) (epoch : ℕ)
    (isr : Option (List GoString))
    → Named m
    → get m.partitions key ≡ o
    → LaterStore m (assign_found o m key leader epoch isr).1
unfolding assign_found
assign-Later none m key leader epoch isr h found = same-Later m.topics m.partitions h
assign-Later (some a) m key leader epoch isr h found =
    elim (Bool-cases (leb epoch a.leader_epoch)) [
      | inl stale ↦ rw stale (same-Later m.topics m.partitions h)
      | inr newer ↦ rw newer (
          write_back-Later m key a (led a leader epoch isr) h found record {
            topic = refl;
            partition = refl;
            epoch = inl (ground (arith, newer));
            version = omega arith;
          })
    ]

update-Later :
    (o : Option PartitionAssignment) (m : MetadataStore) (key : GoString) (epoch : ℕ)
    (isr : List GoString)
    → Named m
    → get m.partitions key ≡ o
    → LaterStore m (update_found o m key epoch isr).1
unfolding update_found update_cleaned
update-Later none m key epoch isr h found = same-Later m.topics m.partitions h
update-Later (some a) m key epoch isr h found = elim (Bool-cases (epoch == a.leader_epoch)) [
  | inl current ↦ rw current (cleaned (clean_isr a.replicas [] isr))
  | inr stale ↦ rw stale (same-Later m.topics m.partitions h)
]
  where
    cleaned : (c : Option (List GoString)) → LaterStore m (update_cleaned c a m key).1
    cleaned none = same-Later m.topics m.partitions h
    cleaned (some clean) =
        write_back-Later m key a (record a { isr = with_leader a.leader clean }) h found
          record { topic = refl; partition = refl; epoch = inr (refl, refl); version = omega arith }

reassign-Later :
    (o : Option PartitionAssignment) (m : MetadataStore) (key : GoString) (replicas : List GoString)
    → Named m
    → get m.partitions key ≡ o
    → LaterStore m (reassign_found o m key replicas).1
unfolding reassign_found
reassign-Later none m key replicas h found = same-Later m.topics m.partitions h
reassign-Later (some a) m key replicas h found =
    write_back-Later m key a (reassigned a replicas) h found
      record { topic = refl; partition = refl; epoch = inr (refl, refl); version = omega arith }

meta-Later :
    (m : MetadataStore) (type : CommandType) (mc : MetaCommand)
    → Named m
    → LaterStore m (apply_meta_command m type mc).1
unfolding apply_meta_command apply_fence_broker apply_assign_leader apply_update_isr apply_reassign
    assignment
meta-Later m register_broker mc h = payload mc.broker
  where
    payload : (o : Option BrokerInfo) → LaterStore m (register_payload m o).1
    payload none = unfold register_payload in same-Later m.topics m.partitions h
    payload (some b) = unfold register_payload in register-Later m b h
meta-Later m unregister_broker mc h = unregister-Later m mc.node_id h
meta-Later m fence_broker mc h =
    fence-Later (get m.brokers mc.node_id) m mc.node_id mc.fenced mc.timestamp h
meta-Later m create_topic mc h = payload mc.topic_meta
  where
    payload : (o : Option TopicMeta) → LaterStore m (create_payload m o mc.placements).1
    payload none = unfold create_payload in same-Later m.topics m.partitions h
    payload (some meta) = unfold create_payload in create_topic-Later m meta mc.placements h
meta-Later m assign_leader mc h =
    assign-Later (get m.partitions (partition_key mc.topic mc.partition)) m _ mc.leader
      mc.leader_epoch mc.isr h refl
meta-Later m update_isr mc h =
    update-Later (get m.partitions (partition_key mc.topic mc.partition)) m _ mc.leader_epoch
      (listed mc.isr) h refl
meta-Later m reassign mc h =
    reassign-Later (get m.partitions (partition_key mc.topic mc.partition)) m _ mc.replicas h refl
meta-Later m (queue_plane n) mc h = same-Later m.topics m.partitions h

empty-Named : Named new_metadata_store
unfolding new_metadata_store get
empty-Named = record {
  under_key = λ k a found. ground (arith, found);
  known = λ k a found. ground (arith, found);
}

-- The store after these commands
abbrev pub apply_all : MetadataStore → List (CommandType × MetaCommand) → MetadataStore
apply_all m [] = m
apply_all m ((type, mc) ∷ cmds) = apply_all (apply_meta_command m type mc).1 cmds

apply_all-Later :
    (m : MetadataStore) (cmds : List (CommandType × MetaCommand)) (k : GoString)
    (a : PartitionAssignment)
    → Named m
    → get m.partitions k ≡ some a
    → Named (apply_all m cmds) × Risen a k (apply_all m cmds).partitions
apply_all-Later m [] k a h found = (h, (a, found, Rises-refl a))
apply_all-Later m ((type, mc) ∷ cmds) k a h found =
    let one = meta-Later m type mc h in
    let (b, at_b, up) = one.rises k a found in
    let (named, (c, at_c, more)) =
      apply_all-Later (apply_meta_command m type mc).1 cmds k b one.named at_b in
    (named, (c, at_c, Rises-trans a b c up more))

apply_all-Named :
    (m : MetadataStore) (cmds : List (CommandType × MetaCommand))
    → Named m
    → Named (apply_all m cmds)
apply_all-Named m [] h = h
apply_all-Named m ((type, mc) ∷ cmds) h =
    apply_all-Named (apply_meta_command m type mc).1 cmds (meta-Later m type mc h).named

-- Whatever commands the log holds, from the empty store on: a partition that exists at one point
-- exists after any further commands, its leader epoch never falls, and while the epoch is the same
-- so is the leader. So an epoch of a partition has one leader for ever.
pub one_leader_per_epoch :
    (cmds more : List (CommandType × MetaCommand)) (k : GoString) (a : PartitionAssignment)
    → get (apply_all new_metadata_store cmds).partitions k ≡ some a
    → Risen a k (apply_all (apply_all new_metadata_store cmds) more).partitions
one_leader_per_epoch cmds more k a found =
    (apply_all-Later (apply_all new_metadata_store cmds) more k a
      (apply_all-Named new_metadata_store cmds empty-Named) found).1
