-- ===== src/Stream/Partition.antt =====
-- A partition of a stream topic (internal/stream/partition.go): an append-only log in segments.
-- Every operation holds the partition's mutex while it changes state. `sealed` and `active` are the
-- slice `segments`, of which the last element is the active one; `Close` drops them, and no
-- operation of a closed partition reads them. What the disk takes is an argument. The channel that
-- wakes tailing readers is left out, and so is the count of appends.
pub mod Reads
pub mod Trims
pub mod Chain
pub mod Grows
pub mod Parts
pub mod Cuts
pub mod Retained
pub mod Later
pub mod Follows
use boltq.Prelude.{
  ℕ, zero, suc, ◌+◌, ◌-◌, ◌%◌, Bool, true, false, not, ◌&&◌, ◌||◌, List, [], ◌∷◌, ◌++◌, Option,
  none, some, ltb, leb, ◌==◌, if◌then◌else◌, length,
}
use boltq.Prelude.Int.{ℤ, pos, negsuc, ◌+ℤ◌}
use boltq.Prelude.Words.{u64}
use boltq.Prelude.Dict.{maybe}
use boltq.Epoch.{
  EpochCache, EpochEntry, EpochError, assign, latest, open_epoch_cache, end_offset_for,
  undefined_epoch,
}
use boltq.Stream.{Record}
use boltq.Stream.Codec.{
  EncodeResult, encoded, record_too_large, key_too_long, encode, has_flag, flag_ephemeral,
}
use boltq.Stream.Segment.{Segment, SegmentError, create_segment, append, is_empty}
use boltq.Stream.Segment.Recovery.{open_segment}

pub record PartitionConfig : Type 0 where
  pub segment_bytes : ℕ
  pub index_interval : ℕ
  pub retention_bytes : ℕ
  pub retention_age : ℕ
  pub sync_on_append : Bool

-- Zero asks for the default.
pub apply_defaults : PartitionConfig → PartitionConfig
apply_defaults c = record c {
  segment_bytes = if c.segment_bytes == 0 then 268435456 else c.segment_bytes;
  index_interval = if c.index_interval == 0 then 4096 else c.index_interval;
}

pub record Partition : Type 0 where
  pub cfg : PartitionConfig
  pub sealed : List Segment
  pub active : Segment
  pub next_seq : ℕ
  pub first_seq : ℕ
  pub closed : Bool
  pub epochs : EpochCache
  pub cur_epoch : ℕ
  pub enforce_leadership : Bool
  pub is_leader : Bool
  pub byte_count : ℤ

pub data PartitionError : Type 0 where
  seq_truncated : PartitionError
  closed_partition : PartitionError
  replication_gap : PartitionError
  not_partition_leader : PartitionError
  ephemeral_record : PartitionError
  no_sequence : PartitionError
  unencodable : PartitionError
  epoch_undefined : PartitionError
  epoch_not_newer : PartitionError
  epoch_differs : PartitionError
  below_first_sequence : PartitionError
  epoch_failed : EpochError → PartitionError
  segment_failed : SegmentError → PartitionError
  disk_failed : PartitionError

-- Which writes of one operation the disk takes.
pub record Disk : Type 0 where
  pub index : Bool
  pub log : Bool
  pub roll : Bool
  pub sync : Bool
  pub epoch : Bool

-- A segment's files, as `listSegmentBases` and the opens find them in ascending order.
pub record SegmentFiles : Type 0 where
  pub base_seq : ℕ
  pub log : List ℕ
  pub index : List ℕ

abbrev pub open_sealed : ℕ → List SegmentFiles → SegmentFiles → List Segment × Segment
open_sealed interval [] f = ([], open_segment f.log f.index f.base_seq interval false)
open_sealed interval (g ∷ gs) f =
    let (sealed, active) = open_sealed interval gs g in
    (open_segment f.log f.index f.base_seq interval true ∷ sealed, active)

-- The bytes of some segments
abbrev pub total_size : List Segment → ℕ
total_size [] = 0
total_size (s ∷ ss) = s.size + total_size ss

unfoldable pub open_partition : PartitionConfig → Option (List ℕ) → List SegmentFiles → Partition
unfolding latest
open_partition cfg checkpoint [] =
    let c = apply_defaults cfg in
    let epochs = open_epoch_cache checkpoint in
    record {
      cfg = c;
      sealed = [];
      active = create_segment 1 c.index_interval;
      next_seq = 1;
      first_seq = 1;
      closed = false;
      epochs = epochs;
      cur_epoch = (latest epochs).0;
      enforce_leadership = false;
      is_leader = false;
      byte_count = pos 0;
    }
open_partition cfg checkpoint (f ∷ fs) =
    let c = apply_defaults cfg in
    let epochs = open_epoch_cache checkpoint in
    let (sealed, active) = open_sealed c.index_interval fs f in
    record {
      cfg = c;
      sealed = sealed;
      active = active;
      next_seq = (active.last_seq + 1) % u64;
      first_seq = f.base_seq;
      closed = false;
      epochs = epochs;
      cur_epoch = (latest epochs).0;
      enforce_leadership = false;
      is_leader = false;
      byte_count = pos (total_size sealed + active.size);
    }

-- `rollLocked`, when the next record would not fit: none when the seal of the old segment or the
-- creation of the new one fails.
unfoldable pub roll_locked : Bool → Partition → ℕ → Option Partition
unfolding create_segment
roll_locked roll p base_seq =
    if roll
    then some (record p {
      sealed = p.sealed ++ p.active ∷ [];
      active = create_segment base_seq p.cfg.index_interval;
    })
    else none

unfoldable pub room_for : Disk → Partition → List ℕ → ℕ → Option Partition
unfolding roll_locked
room_for disk p frame seq =
    if ltb p.cfg.segment_bytes (p.active.size + length frame) && not (is_empty p.active)
    then roll_locked disk.roll p seq
    else some p

abbrev pub after_write :
    Disk
    → Partition
    → List ℕ
    → ℕ
    → Option SegmentError × Segment
    → Option PartitionError × Partition
after_write disk p frame seq (some e, active) =
    (some (segment_failed e), record p { active = active })
after_write disk p frame seq (none, active) = (
  (if p.cfg.sync_on_append && not disk.sync then some disk_failed else none),
  record p {
    active = active;
    next_seq = (seq + 1) % u64;
    byte_count = p.byte_count +ℤ pos (length frame);
  },
)

-- The record goes into the segment that has room for it.
abbrev pub write_into :
    Disk → Partition → List ℕ → ℕ → Option Partition → Option PartitionError × Partition
write_into disk p frame seq none = (some disk_failed, p)
write_into disk p frame seq (some q) =
    after_write disk q frame seq (append disk.index disk.log q.active frame seq)

unfoldable pub write_encoded :
    Disk → Partition → ℕ → EncodeResult → Option PartitionError × Partition
unfolding room_for append
write_encoded disk p seq record_too_large = (some unencodable, p)
write_encoded disk p seq key_too_long = (some unencodable, p)
write_encoded disk p seq (encoded frame) = write_into disk p frame seq (room_for disk p frame seq)

-- The record that `Append` writes: its sequence and epoch are the broker's.
abbrev pub stamped : Partition → ℤ → Record → Record
stamped p now r = record r {
  seq = p.next_seq;
  epoch = p.cur_epoch;
  timestamp = elim r.timestamp [ pos zero ↦ now | pos (suc n) ↦ pos (suc n) | negsuc n ↦ negsuc n ];
}

abbrev pub may_write : Partition → Bool
may_write p = not p.enforce_leadership || p.is_leader

-- The error, or the sequence that was assigned, and the partition
unfoldable pub append_record : Disk → ℤ → Partition → Record → Option PartitionError × Partition
unfolding encode write_encoded
append_record disk now p r =
    if has_flag flag_ephemeral r.flags
    then (some ephemeral_record, p)
    else if p.closed
    then (some closed_partition, p)
    else if not (may_write p)
    then (some not_partition_leader, p)
    else write_encoded disk p p.next_seq (encode (stamped p now r))

-- A newer epoch is recorded before the record that carries it.
abbrev pub write_replicated :
    Disk → Partition → Record → Option EpochError × EpochCache → Option PartitionError × Partition
write_replicated disk p r (some e, epochs) = (some (epoch_failed e), record p { epochs = epochs })
write_replicated disk p r (none, epochs) =
    write_encoded disk (record p { epochs = epochs; cur_epoch = r.epoch }) r.seq (encode r)

unfoldable pub append_replicated : Disk → Partition → Record → Option PartitionError × Partition
unfolding encode write_encoded assign
append_replicated disk p r =
    if has_flag flag_ephemeral r.flags
    then (some ephemeral_record, p)
    else if r.seq == 0
    then (some no_sequence, p)
    else if p.closed
    then (some closed_partition, p)
    else if ltb r.seq p.next_seq
    then (none, p)
    else if ltb p.next_seq r.seq
    then (some replication_gap, p)
    else if ltb p.cur_epoch r.epoch
    then write_replicated disk p r (assign disk.epoch p.epochs r.epoch r.seq)
    else write_encoded disk p r.seq (encode r)

-- How many were applied, the error that stopped the run, and the partition
unfoldable pub append_replicated_batch :
    Disk → Partition → List Record → ℕ × Option PartitionError × Partition
unfolding append_replicated
append_replicated_batch disk p [] = (0, none, p)
append_replicated_batch disk p (r ∷ rs) =
    let (e, q) = append_replicated disk p r in
    let (n, stop, last) = append_replicated_batch disk q rs in
    maybe (suc n, stop, last) (λ error. (0, some error, q)) e

-- The sequences that were assigned, none of them told when a record fails
unfoldable pub append_batch_loop :
    Disk → ℤ → Partition → List Record → List ℕ × Option PartitionError × Partition
unfolding write_encoded encode
append_batch_loop disk now p [] = ([], none, p)
append_batch_loop disk now p (r ∷ rs) =
    let (e, q) = write_encoded disk p p.next_seq (encode (stamped p now r)) in
    let (seqs, stop, last) = append_batch_loop disk now q rs in
    if has_flag flag_ephemeral r.flags
    then ([], some ephemeral_record, p)
    else maybe (maybe (p.next_seq ∷ seqs, none, last) (λ error. ([], some error, last)) stop)
        (λ error. ([], some error, q)) e

abbrev synced :
    Disk → List ℕ × Option PartitionError × Partition → List ℕ × Option PartitionError × Partition
synced disk (seqs, some error, p) = (seqs, some error, p)
synced disk (seqs, none, p) =
    if p.cfg.sync_on_append && not disk.sync then ([], some disk_failed, p) else (seqs, none, p)

pub append_batch : Disk → ℤ → Partition → List Record → List ℕ × Option PartitionError × Partition
unfolding append_batch_loop
append_batch disk now p [] = ([], none, p)
append_batch disk now p (r ∷ rs) =
    if p.closed
    then ([], some closed_partition, p)
    else if not (may_write p)
    then ([], some not_partition_leader, p)
    else synced disk (append_batch_loop (record disk { sync = true }) now p (r ∷ rs))

abbrev pub led : Partition → ℕ → Option EpochError × EpochCache → Option PartitionError × Partition
led p epoch (some e, epochs) = (some (epoch_failed e), record p { epochs = epochs })
led p epoch (none, epochs) =
    (none, record p { epochs = epochs; cur_epoch = epoch; is_leader = true })

unfoldable pub become_leader : Bool → Partition → ℕ → Option PartitionError × Partition
unfolding assign
become_leader disk p epoch =
    if epoch == undefined_epoch
    then (some epoch_undefined, p)
    else if p.closed
    then (some closed_partition, p)
    else if leb epoch p.cur_epoch
    then (some epoch_not_newer, p)
    else led p epoch (assign disk p.epochs epoch p.next_seq)

unfoldable pub reassert_leadership : Partition → ℕ → Option PartitionError × Partition
reassert_leadership p epoch =
    if p.closed
    then (some closed_partition, p)
    else if not (epoch == p.cur_epoch)
    then (some epoch_differs, p)
    else (none, record p { is_leader = true })

unfoldable pub resign : Partition → Partition
resign p = record p { is_leader = false }

pub end_offset_for_epoch : Partition → ℕ → ℕ × ℕ
end_offset_for_epoch p epoch = end_offset_for p.epochs epoch p.next_seq

unfoldable pub close : Partition → Partition
close p = record p { closed = true }
