-- ===== src/Replication/Follows.antt =====
-- A follower that applies a batch has the leader's records (internal/replication/follower.go).
use boltq.Prelude.{
  ℕ, zero, suc, ◌+◌, ◌^◌, ◌≤◌, ◌<◌, ◌≡◌, refl, ◌∙◌, true, false, List, [], ◌∷◌, ◌++◌, Option, none,
  some, ltb, ◌==◌, GoString, length, arith, length-append, take-append, drop-append, take_all,
  append_nil, All,
}
use boltq.Prelude.Bytes.{put_le, of_le, of_le-put_le, append_assoc}
use boltq.Prelude.Crc.{crc32, crc32-bound}
use boltq.Prelude.Words.{u64}
use boltq.Stream.{Record}
use boltq.Stream.Codec.{
  frame_of, record_body, ok, decode_record_body, max_record_size, has_flag, flag_ephemeral,
}
use boltq.Stream.Segment.Frames.{
  Stored, frame_record, frames, length-frame_of, decode-stored, RunFrom,
}
use boltq.Stream.RoundTrip.{length-record_body}
use boltq.Stream.Partition.{Partition, PartitionError, append_replicated}
use boltq.Stream.Partition.Chain.{IsLog}
use boltq.Stream.Partition.Grows.{all_writes, encode-stored, Grew, append_replicated_exact}
use boltq.Replication.Wire.{slice, encode_records_header, RecordsHeader}
use boltq.Replication.Frames.{decode_records_header-encode}
use boltq.Replication.Follower.{
  encode_frames, encode_batch, decode_record, next_record_frame, Batch, applied, gap, bad_frame,
  bad_record, not_applied, not_synced, counted, applied_record, apply_records, apply_batch,
  synced_batch,
}

-- The length in a frame
frame-size :
    (body rest : List ℕ)
    → length body < 256 ^ 4
    → of_le (slice 4 8 (frame_of body ++ rest)) ≡ length body
unfolding put_le
frame-size body rest fits = of_le-put_le 4 (length body) fits

next_record_frame-frame_of :
    (body rest : List ℕ)
    → length body < 256 ^ 4
    → next_record_frame (frame_of body ++ rest) ≡ some (frame_of body, rest)
unfolding next_record_frame
next_record_frame-frame_of body rest fits =
    let size = length-frame_of body in
    let whole = length-append (frame_of body) rest in
    let long : ltb (length (frame_of body ++ rest)) 8 ≡ false = ground (arith, size, whole) in
    let full : ltb (length (frame_of body ++ rest)) (8 + length body) ≡ false =
      ground (arith, size, whole) in
    rw (
      long,
      frame-size body rest fits,
      full,
      take-append (8 + length body) (frame_of body) rest size,
      drop-append (8 + length body) (frame_of body) rest size,
    )

decode_record-frame_of :
    (body : List ℕ) (r : Record)
    → 27 ≤ length body
    → length body ≤ max_record_size
    → decode_record_body body ≡ ok r
    → decode_record (frame_of body) ≡ ok r
unfolding decode_record put_le
decode_record-frame_of body r low high decoded =
    let fits : length body < 256 ^ 4 = omega (arith, high) in
    let size = length-frame_of body in
    let long : ltb (length (frame_of body)) 8 ≡ false = ground (arith, size) in
    let small : ltb (length body) 27 ≡ false = ground (arith, low) in
    let big : ltb max_record_size (length body) ≡ false = ground (arith, high) in
    let full : ltb (length (frame_of body)) (8 + length body) ≡ false = ground (arith, size) in
    let sum : (crc32 body == crc32 body) ≡ true = ground arith in
    rw
      (
        long,
        of_le-put_le 4 (length body) fits,
        small,
        big,
        full,
        take_all body,
        of_le-put_le 4 (crc32 body) (crc32-bound body),
        sum,
      )
      decoded

decode_record-frame_record : (r : Record) → Stored r → decode_record (frame_record r) ≡ ok r
decode_record-frame_record r st =
    let n = length-record_body r in
    decode_record-frame_of (record_body r) r (ground (arith, n)) (omega (arith, n, st.body))
      (decode-stored r st)

encode_frames-stored : (qs : List Record) → All Stored qs → encode_frames qs ≡ some (frames qs)
unfolding encode_frames
encode_frames-stored [] st = refl
encode_frames-stored (q ∷ qs) st = rw (encode-stored q st.0, encode_frames-stored qs st.1) refl

pub encode_batch-stored :
    (topic : GoString) (partition : ℕ) (qs : List Record)
    → All Stored qs
    → encode_batch topic partition qs
      ≡ some (
          encode_records_header (record { topic = topic; partition = partition; count = length qs })
          ++ frames qs)
unfolding encode_batch
encode_batch-stored topic partition qs st = rw (encode_frames-stored qs st) refl

counted_applied :
    (step : Batch × Partition) (n : ℕ)
    → step.0 ≡ applied n
    → counted step ≡ (applied (suc n), step.1)
counted_applied (applied k, p) n h = ground (arith, h)
counted_applied (gap k, p) n h = ground (arith, h)
counted_applied (bad_frame, p) n h = ground (arith, h)
counted_applied (bad_record, p) n h = ground (arith, h)
counted_applied (not_applied e, p) n h = ground (arith, h)
counted_applied (not_synced, p) n h = ground (arith, h)

went_on :
    (step : Option PartitionError × Partition) (continue : Partition → Batch × Partition)
    → step.0 ≡ none
    → applied_record step continue ≡ counted (continue step.1)
went_on (none, p) continue h = refl
went_on (some e, p) continue h = ground (arith, h)

-- A record that a follower of the epoch takes
abbrev pub Sendable : ℕ → Record → Type 0
Sendable epoch r = (has_flag flag_ephemeral r.flags ≡ false) × (r.epoch ≤ epoch)

-- The records of the batch are behind those that the partition had.
pub record Followed (p : Partition) (rs qs : List Record) (step : Batch × Partition) : Type 0 where
  pub all : step.0 ≡ applied (length qs)
  pub log : IsLog step.1 (rs ++ qs)
  pub next : step.1.next_seq ≡ p.next_seq + length qs

apply_records-Followed :
    (p : Partition) (rs qs : List Record) (epoch : ℕ) (rest : List ℕ)
    → IsLog p rs
    → All Stored qs
    → All (Sendable epoch) qs
    → RunFrom p.next_seq qs
    → p.closed ≡ false
    → epoch ≤ p.cur_epoch
    → p.next_seq + length qs < u64
    → Followed p rs qs (apply_records all_writes (length qs) (frames qs ++ rest) p)
unfolding apply_records
apply_records-Followed p rs [] epoch rest log st send run live old room = record {
  all = refl;
  log = rw (append_nil rs) log;
  next = omega arith;
}
apply_records-Followed p rs (q ∷ qs) epoch rest log st send run live old room =
    let step = append_replicated all_writes p q in
    let numbered : 0 < q.seq = omega (arith, run.0, log.low, log.next) in
    let whole = length-record_body q in
    let fits : length (record_body q) < 256 ^ 4 = omega (arith, whole, st.0.body) in
    let early : ltb q.seq p.next_seq ≡ false = ground (arith, run.0) in
    let late : ltb p.next_seq q.seq ≡ false = ground (arith, run.0) in
    let exact =
      append_replicated_exact p rs q log st.0 send.0.0 live numbered (omega (arith, send.0.1, old))
        (omega (arith, room)) in
    let grew : Grew p rs q step = rw (early, late) at exact in
    let next : suc p.next_seq ≡ step.1.next_seq = omega (arith, grew.next) in
    let more =
      apply_records-Followed step.1 (rs ++ q ∷ []) qs epoch rest grew.log st.1 send.1
        (rw next at run.1) (grew.closed ∙ live) (omega (arith, grew.epoch, old))
        (omega (arith, grew.next, room)) in
    rw
      (
        append_assoc (frame_record q) (frames qs) rest,
        next_record_frame-frame_of (record_body q) (frames qs ++ rest) fits,
        decode_record-frame_record q st.0,
        went_on step (λ p. apply_records all_writes (length qs) (frames qs ++ rest) p)
            grew.no_error,
        counted_applied (apply_records all_writes (length qs) (frames qs ++ rest) step.1)
            (length qs) more.all,
      )
      (record {
        all = refl;
        log = rw (← append_assoc rs (q ∷ []) qs) more.log;
        next = omega (arith, more.next, next);
      })

synced : (step : Batch × Partition) → synced_batch true true step ≡ step
synced (applied zero, p) = refl
synced (applied (suc n), p) = refl
synced (gap k, p) = refl
synced (bad_frame, p) = refl
synced (bad_record, p) = refl
synced (not_applied e, p) = refl
synced (not_synced, p) = refl

-- A follower that has the leader's records up to the first of a batch, and applies the batch as the
-- leader encodes it, has the records of the batch behind its own, all of them, in their order; when
-- they carry consecutive sequences and no newer epoch, none is ephemeral, and the disk takes them.
pub apply_batch-Followed :
    (p : Partition) (rs qs : List Record) (topic : GoString) (partition : ℕ) (payload : List ℕ)
    → IsLog p rs
    → All Stored qs
    → All (Sendable p.cur_epoch) qs
    → RunFrom p.next_seq qs
    → p.closed ≡ false
    → p.next_seq + length qs < u64
    → length topic < 65536
    → partition < 256 ^ 4
    → length qs < 256 ^ 4
    → encode_batch topic partition qs ≡ some payload
    → Followed p rs qs (apply_batch all_writes true true payload p)
unfolding apply_batch
apply_batch-Followed p rs qs topic partition payload log st send run live room named numbered few
      sent =
    let header : RecordsHeader = record {
      topic = topic;
      partition = partition;
      count = length qs;
    } in
    let bytes = encode_records_header header ++ frames qs in
    let same : bytes ≡ payload = ground (arith, sent, encode_batch-stored topic partition qs st) in
    let read = decode_records_header-encode header (frames qs) numbered few named in
    let done =
      apply_records-Followed p rs qs p.cur_epoch [] log st send run live (omega arith) room in
    let full = append_nil (frames qs) in
    rw (← same, read.0, read.1, synced (apply_records all_writes (length qs) (frames qs) p))
      (rw full at done)
