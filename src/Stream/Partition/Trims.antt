-- ===== src/Stream/Partition/Trims.antt =====
-- Records removed from a partition: the tail by a follower that reconciles its log, the head by
-- retention (internal/stream/partition.go, TruncateTo and EnforceRetention).
use boltq.Prelude.{
  ℕ, suc, ◌+◌, ◌-◌, Bool, true, not, ◌&&◌, ◌||◌, List, [], ◌∷◌, Option, none, some, ltb, leb, ◌==◌,
  if◌then◌else◌,
}
use boltq.Prelude.Int.{ℤ, pos, ltb_ℤ, ◌+ℤ◌, ◌-ℤ◌}
use boltq.Prelude.Dict.{maybe}
use boltq.Epoch.{EpochCache, EpochError, latest, truncate_from_seq, truncate_before_seq}
use boltq.Stream.Segment.{Segment, SegmentError, reopen_writable}
use boltq.Stream.Segment.Reading.{first_timestamp}
use boltq.Stream.Segment.Cutting.{truncate_to}
use boltq.Stream.Partition.{
  Partition, PartitionError, closed_partition, below_first_sequence, segment_failed, epoch_failed,
  disk_failed,
}

-- What the loop does when it comes to the segment after `s`
abbrev pub dropped : Segment → ℕ → List Segment × Segment × ℕ → List Segment × Segment × ℕ
dropped s seq ([], active, freed) =
    if ltb active.base_seq seq then (s ∷ [], active, freed) else ([], s, freed + active.size)
dropped s seq (x ∷ xs, active, freed) = (s ∷ x ∷ xs, active, freed)

-- The segments without those at the end that begin at `seq` or later: the ones before the last, the
-- last, and how many bytes go. The first one always stays.
unfoldable pub drop_segments : List Segment → Segment → ℕ → List Segment × Segment × ℕ
drop_segments [] active seq = ([], active, 0)
drop_segments (s ∷ sealed) active seq = dropped s seq (drop_segments sealed active seq)

-- `removed` is told only with no error.
abbrev pub epochs_cut :
    Partition → ℕ → Option EpochError × EpochCache → Option PartitionError × ℕ × Partition
epochs_cut p removed (some e, epochs) = (some (epoch_failed e), 0, record p { epochs = epochs })
epochs_cut p removed (none, epochs) =
    (none, removed, record p { epochs = epochs; cur_epoch = (latest epochs).0 })

abbrev pub active_cut :
    Bool
    → Partition
    → ℕ
    → ℕ
    → Option SegmentError × Bool × Segment
    → Option PartitionError × ℕ × Partition
active_cut epoch_ok p seq removed (some e, cut, active) =
    (some (segment_failed e), 0, record p { active = active })
active_cut epoch_ok p seq removed (none, cut, active) =
    epochs_cut
      (record p {
        active = active;
        next_seq = seq;
        byte_count = p.byte_count +ℤ (pos active.size -ℤ pos p.active.size);
      })
      removed (truncate_from_seq epoch_ok p.epochs seq)

abbrev pub reopened :
    Bool
    → Bool
    → Partition
    → ℕ
    → ℕ
    → Option SegmentError × Segment
    → Option PartitionError × ℕ × Partition
reopened disk epoch_ok p seq removed (some e, active) = (some (segment_failed e), 0, p)
reopened disk epoch_ok p seq removed (none, active) =
    active_cut epoch_ok (record p { active = active }) seq removed (truncate_to disk active seq)

-- `disk`: whether the files of segments can be cut and reopened, `epoch_ok` whether the checkpoint
-- of the epochs can be written. The removal of the dropped segments' files is taken to succeed.
unfoldable pub truncate_partition :
    Bool → Bool → Partition → ℕ → Option PartitionError × ℕ × Partition
unfolding drop_segments truncate_to reopen_writable truncate_from_seq latest
truncate_partition disk epoch_ok p seq =
    let (sealed, active, freed) = drop_segments p.sealed p.active seq in
    let q = record p { sealed = sealed; active = active; byte_count = p.byte_count -ℤ pos freed } in
    if p.closed
    then (some closed_partition, 0, p)
    else if leb p.next_seq seq
    then (none, 0, p)
    else if leb seq p.first_seq
    then (some below_first_sequence, 0, p)
    else reopened disk epoch_ok q seq (p.next_seq - seq) (reopen_writable disk active)

-- The segment after the oldest
abbrev pub next_segment : List Segment → Segment → Segment
next_segment [] active = active
next_segment (s ∷ sealed) active = s

unfoldable pub drop_due : ℤ → Partition → Segment → Bool
unfolding first_timestamp
drop_due cutoff p next =
    let ts = first_timestamp true next in
    ltb 0 p.cfg.retention_bytes && ltb_ℤ (pos p.cfg.retention_bytes) p.byte_count
    || ltb_ℤ (pos 0) cutoff && (ltb_ℤ (pos 0) ts && ltb_ℤ ts cutoff)

abbrev pub without_oldest : Partition → Segment → List Segment → EpochCache → Partition
without_oldest p oldest sealed epochs = record p {
  sealed = sealed;
  first_seq = (next_segment sealed p.active).base_seq;
  epochs = epochs;
  byte_count = p.byte_count -ℤ pos oldest.size;
}

-- How many segments were removed, and the partition. A segment whose files cannot be removed has left
-- the partition, but still counts in its bytes.
unfoldable pub retention_loop :
    Bool → Bool → ℤ → List Segment → Partition → ℕ × Option PartitionError × Partition
unfolding drop_due truncate_before_seq
retention_loop epoch_ok remove_ok cutoff [] p = (0, none, p)
retention_loop epoch_ok remove_ok cutoff (s ∷ sealed) p =
    let next = next_segment sealed p.active in
    let (e, epochs) = truncate_before_seq epoch_ok p.epochs next.base_seq in
    let q = without_oldest p s sealed epochs in
    let held = record q { byte_count = p.byte_count } in
    let (n, stop, last) = retention_loop epoch_ok remove_ok cutoff sealed q in
    if not (drop_due cutoff p next)
    then (0, none, p)
    else maybe (if remove_ok then (suc n, stop, last) else (0, some disk_failed, held))
        (λ error. (0, some (epoch_failed error), held)) e

-- Whether the epoch checkpoint can be written and the files removed are arguments.
unfoldable pub enforce_retention :
    Bool → Bool → ℤ → Partition → ℕ × Option PartitionError × Partition
unfolding retention_loop
enforce_retention epoch_ok remove_ok now p =
    let cutoff = if p.cfg.retention_age == 0 then pos 0 else now -ℤ pos p.cfg.retention_age in
    if p.cfg.retention_bytes == 0 && p.cfg.retention_age == 0
    then (0, none, p)
    else if p.closed
    then (0, none, p)
    else retention_loop epoch_ok remove_ok cutoff p.sealed p
