-- ===== src/Replication/Follower.antt =====
-- A batch of records, from the leader's log to the follower's (internal/replication/leader.go,
-- internal/replication/follower.go, and EncodeRecord and DecodeRecord of internal/stream/replicate.go).
-- The partition is the local copy of the one that the batch names; whether a sync succeeds is an
-- argument.
use boltq.Prelude.{
  ℕ, zero, suc, ◌+◌, Bool, not, ◌&&◌, ◌||◌, List, [], ◌∷◌, ◌++◌, Option, none, some, ltb, ◌==◌,
  if◌then◌else◌, GoString, length, take, drop,
}
use boltq.Prelude.Bytes.{of_le}
use boltq.Prelude.Crc.{crc32}
use boltq.Prelude.Dict.{maybe}
use boltq.Stream.{Record}
use boltq.Stream.Codec.{
  encode, EncodeResult, encoded, record_too_large, key_too_long, Decoded, ok, corrupt, stuck,
  decode_record_body, record_body_header_size, record_frame_header_size, max_record_size,
}
use boltq.Stream.Partition.{Partition, PartitionError, Disk, append_replicated, replication_gap}
use boltq.Replication.Wire.{slice, encode_records_header, decode_records_header}

abbrev framed : EncodeResult → Option (List ℕ) → Option (List ℕ)
framed (encoded bytes) rest = maybe none (λ bs. some (bytes ++ bs)) rest
framed record_too_large rest = none
framed key_too_long rest = none

unfoldable pub encode_frames : List Record → Option (List ℕ)
unfolding encode
encode_frames [] = some []
encode_frames (r ∷ rs) = let rest = encode_frames rs in framed (encode r) rest

unfoldable pub encode_batch : GoString → ℕ → List Record → Option (List ℕ)
unfolding encode_frames
encode_batch topic partition rs =
    maybe none
      (λ bs. some (
        encode_records_header (record { topic = topic; partition = partition; count = length rs })
        ++ bs))
      (encode_frames rs)

unfoldable pub decode_record : List ℕ → Decoded Record
decode_record bytes =
    let body_len = of_le (slice 4 8 bytes) in
    let body = take body_len (drop 8 bytes) in
    if ltb (length bytes) record_frame_header_size
    then corrupt
    else if ltb body_len record_body_header_size || ltb max_record_size body_len
    then corrupt
    else if ltb (length bytes) (record_frame_header_size + body_len)
    then corrupt
    else if not (crc32 body == of_le (slice 0 4 bytes))
    then corrupt
    else decode_record_body body

-- The frame at the front, and what follows it
unfoldable pub next_record_frame : List ℕ → Option (List ℕ × List ℕ)
next_record_frame b =
    let total = 8 + of_le (slice 4 8 b) in
    if ltb (length b) 8
    then none
    else if ltb (length b) total
    then none
    else some (take total b, drop total b)

-- A gap is answered with a new request from the follower's next sequence.
pub data Batch : Type 0 where
  applied : ℕ → Batch
  gap : ℕ → Batch
  bad_frame : Batch
  bad_record : Batch
  not_applied : PartitionError → Batch
  not_synced : Batch

abbrev pub stopped_by : PartitionError → Partition → Batch
stopped_by replication_gap p = gap p.next_seq
stopped_by error p = not_applied error

abbrev pub counted : Batch × Partition → Batch × Partition
counted (applied n, p) = (applied (suc n), p)
counted (b, p) = (b, p)

abbrev pub applied_record :
    Option PartitionError × Partition → (Partition → Batch × Partition) → Batch × Partition
applied_record (none, p) continue = counted (continue p)
applied_record (some error, p) continue = (stopped_by error p, p)

abbrev pub decoded_record :
    Disk → Partition → Decoded Record → (Partition → Batch × Partition) → Batch × Partition
decoded_record disk p (ok r) continue = applied_record (append_replicated disk p r) continue
decoded_record disk p corrupt continue = (bad_record, p)
decoded_record disk p stuck continue = (bad_record, p)

unfoldable pub apply_records : Disk → ℕ → List ℕ → Partition → Batch × Partition
apply_records disk zero body p = (applied 0, p)
apply_records disk (suc n) body p =
    maybe (bad_frame, p)
      (λ (bytes, rest).
        decoded_record disk p (decode_record bytes) (λ q. apply_records disk n rest q))
      (next_record_frame body)

abbrev pub synced_batch : Bool → Bool → Batch × Partition → Batch × Partition
synced_batch sync_on_apply sync (applied (suc n), p) =
    if sync_on_apply && not sync then (not_synced, p) else (applied (suc n), p)
synced_batch sync_on_apply sync (b, p) = (b, p)

unfoldable pub apply_batch : Disk → Bool → Bool → List ℕ → Partition → Batch × Partition
unfolding apply_records
apply_batch disk sync_on_apply sync payload p =
    maybe (bad_frame, p)
      (λ (header, offset).
        synced_batch sync_on_apply sync (apply_records disk header.count (drop offset payload) p))
      (decode_records_header payload)
