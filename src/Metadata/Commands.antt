-- ===== src/Metadata/Commands.antt =====
-- The commands on one partition, and the state machine that dispatches every command
-- (internal/cluster/metadata.go, metadata_fsm.go). The decoding of a command is encoding/json.
use boltq.Prelude.{
  ℕ, suc, Bool, not, List, [], ◌∷◌, Option, none, some, leb, ◌==◌, if◌then◌else◌, GoString, elem,
  string_eq, keep_if,
}
use boltq.Prelude.Int.{ℤ}
use boltq.Prelude.Dict.{put}
use boltq.Metadata.{
  MetadataError, no_such_partition, stale_epoch, not_a_replica, no_payload, not_control_plane,
  BrokerInfo, PartitionAssignment, TopicMeta, MetadataStore, assignment, partition_key,
  publish_locked, assignment_event, apply_register_broker, apply_unregister_broker,
  apply_fence_broker, apply_create_topic,
}

-- Writes an assignment back under its key, with its version and the store's counted up.
unfoldable pub write_back : MetadataStore → GoString → PartitionAssignment → MetadataStore
write_back m key a =
    let cp = record a { version = suc a.version } in
    publish_locked (record m { partitions = put m.partitions key cp; version = suc m.version })
      (assignment_event cp)

abbrev pub isr_or : Option (List GoString) → List GoString → List GoString
isr_or none old = old
isr_or (some isr) old = isr

abbrev pub led : PartitionAssignment → GoString → ℕ → Option (List GoString) → PartitionAssignment
led a leader epoch isr = record a { leader = leader; leader_epoch = epoch; isr = isr_or isr a.isr }

unfoldable pub assign_found :
    Option PartitionAssignment
    → MetadataStore
    → GoString
    → GoString
    → ℕ
    → Option (List GoString)
    → Option MetadataError × MetadataStore
assign_found none m key leader epoch isr = (some no_such_partition, m)
assign_found (some a) m key leader epoch isr =
    if leb epoch a.leader_epoch
    then (some stale_epoch, m)
    else (none, write_back m key (led a leader epoch isr))

-- `isr`: none is Go's nil
unfoldable pub apply_assign_leader :
    MetadataStore
    → GoString
    → ℕ
    → GoString
    → ℕ
    → Option (List GoString)
    → Option MetadataError × MetadataStore
unfolding assign_found
apply_assign_leader m topic partition leader epoch isr =
    assign_found (assignment m topic partition) m (partition_key topic partition) leader epoch isr

-- The loop of applyUpdateISR: the nodes that are not in `seen` yet, each once; none where one of
-- them is not a replica.
unfoldable pub clean_isr : List GoString → List GoString → List GoString → Option (List GoString)
clean_isr replicas seen [] = some []
clean_isr replicas seen (id ∷ ids) =
    let skipped = clean_isr replicas seen ids in
    let rest = clean_isr replicas (id ∷ seen) ids in
    if elem id seen
    then skipped
    else if not (elem id replicas)
    then none
    else elim rest [ none ↦ none | some clean ↦ some (id ∷ clean) ]

-- The leader is always in the set.
abbrev pub with_leader : GoString → List GoString → List GoString
with_leader [] clean = clean
with_leader (c ∷ leader) clean = if elem (c ∷ leader) clean then clean else (c ∷ leader) ∷ clean

unfoldable pub update_cleaned :
    Option (List GoString)
    → PartitionAssignment
    → MetadataStore
    → GoString
    → Option MetadataError × MetadataStore
update_cleaned none a m key = (some not_a_replica, m)
update_cleaned (some clean) a m key =
    (none, write_back m key (record a { isr = with_leader a.leader clean }))

unfoldable pub update_found :
    Option PartitionAssignment
    → MetadataStore
    → GoString
    → ℕ
    → List GoString
    → Option MetadataError × MetadataStore
unfolding update_cleaned
update_found none m key epoch isr = (some no_such_partition, m)
update_found (some a) m key epoch isr =
    if not (epoch == a.leader_epoch)
    then (some stale_epoch, m)
    else update_cleaned (clean_isr a.replicas [] isr) a m key

unfoldable pub apply_update_isr :
    MetadataStore → GoString → ℕ → ℕ → List GoString → Option MetadataError × MetadataStore
unfolding update_found
apply_update_isr m topic partition epoch isr =
    update_found (assignment m topic partition) m (partition_key topic partition) epoch isr

abbrev pub reassigned : PartitionAssignment → List GoString → PartitionAssignment
reassigned a replicas = record a {
  replicas = replicas;
  isr = keep_if (λ id. elem id replicas) a.isr;
}

unfoldable pub reassign_found :
    Option PartitionAssignment
    → MetadataStore
    → GoString
    → List GoString
    → Option MetadataError × MetadataStore
reassign_found none m key replicas = (some no_such_partition, m)
reassign_found (some a) m key replicas = (none, write_back m key (reassigned a replicas))

unfoldable pub apply_reassign :
    MetadataStore → GoString → ℕ → List GoString → Option MetadataError × MetadataStore
unfolding reassign_found
apply_reassign m topic partition replicas =
    reassign_found (assignment m topic partition) m (partition_key topic partition) replicas

pub data CommandType : Type 0 where
  register_broker : CommandType
  unregister_broker : CommandType
  fence_broker : CommandType
  create_topic : CommandType
  assign_leader : CommandType
  update_isr : CommandType
  reassign : CommandType
  queue_plane : ℕ → CommandType

pub record MetaCommand : Type 0 where
  pub broker : Option BrokerInfo
  pub node_id : GoString
  pub fenced : Bool
  pub timestamp : ℤ
  pub topic : GoString
  pub partition : ℕ
  pub topic_meta : Option TopicMeta
  pub placements : List (List GoString)
  pub leader : GoString
  pub leader_epoch : ℕ
  pub isr : Option (List GoString)
  pub replicas : List GoString

abbrev pub listed : Option (List GoString) → List GoString
listed isr = isr_or isr []

unfoldable pub register_payload :
    MetadataStore → Option BrokerInfo → Option MetadataError × MetadataStore
register_payload m none = (some no_payload, m)
register_payload m (some b) = (none, (apply_register_broker m b).1)

unfoldable pub create_payload :
    MetadataStore → Option TopicMeta → List (List GoString) → Option MetadataError × MetadataStore
create_payload m none placements = (some no_payload, m)
create_payload m (some meta) placements = apply_create_topic m meta placements

-- The error of the response and the store; what else the response carries is read from the store.
unfoldable pub apply_meta_command :
    MetadataStore → CommandType → MetaCommand → Option MetadataError × MetadataStore
unfolding register_payload create_payload
apply_meta_command m register_broker mc = register_payload m mc.broker
apply_meta_command m unregister_broker mc = apply_unregister_broker m mc.node_id
apply_meta_command m fence_broker mc =
    let ((changed, err), end) = apply_fence_broker m mc.node_id mc.fenced mc.timestamp in (err, end)
apply_meta_command m create_topic mc = create_payload m mc.topic_meta mc.placements
apply_meta_command m assign_leader mc =
    apply_assign_leader m mc.topic mc.partition mc.leader mc.leader_epoch mc.isr
apply_meta_command m update_isr mc =
    apply_update_isr m mc.topic mc.partition mc.leader_epoch (listed mc.isr)
apply_meta_command m reassign mc = apply_reassign m mc.topic mc.partition mc.replicas
apply_meta_command m (queue_plane n) mc = (some not_control_plane, m)

-- A command without a payload is refused, one that belongs to the queue plane too.
unfoldable pub apply_command :
    MetadataStore → CommandType → Option MetaCommand → Option MetadataError × MetadataStore
unfolding apply_meta_command
apply_command m (queue_plane n) mc = (some not_control_plane, m)
apply_command m type none = (some no_payload, m)
apply_command m type (some mc) = apply_meta_command m type mc
