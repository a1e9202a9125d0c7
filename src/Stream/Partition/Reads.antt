-- ===== src/Stream/Partition/Reads.antt =====
-- Reading a partition across its segments (internal/stream/partition.go, Read and ReadFrom).
use boltq.Prelude.{
  ℕ, ◌+◌, ◌-◌, ◌%◌, Bool, ◌&&◌, ◌||◌, List, [], ◌∷◌, ◌++◌, Option, none, some, ltb, leb, ◌==◌,
  if◌then◌else◌, length,
}
use boltq.Prelude.Words.{u64}
use boltq.Stream.{Record}
use boltq.Stream.Codec.{encoded_size}
use boltq.Stream.Segment.{Segment, SegmentError}
use boltq.Stream.Segment.Reading.{read}
use boltq.Stream.Partition.{
  Partition, PartitionError, seq_truncated, closed_partition, segment_failed,
}

-- The bytes on disk of some records
abbrev pub sizes : List Record → ℕ
sizes [] = 0
sizes (r ∷ rs) = encoded_size r + sizes rs

-- The sequence after the last record, or where the read stood
abbrev pub next_from : ℕ → List Record → ℕ
next_from from [] = from
next_from from (r ∷ rs) = next_from ((r.seq + 1) % u64) rs

-- An error in a segment ends the read with what the segments before it gave.
abbrev pub joined :
    List Record × Option SegmentError
    → List Record × Option SegmentError
    → List Record × Option SegmentError
joined (rs, some e) more = ([], some e)
joined (rs, none) (qs, e) = (rs ++ qs, e)

-- One round on a segment: no room or no bytes left ends the read.
abbrev pub read_segment : Bool → Segment → ℕ → ℕ → ℕ → ℕ → List Record × Option SegmentError
read_segment flushed s from room max_bytes bytes_read =
    if room == 0 || ltb 0 max_bytes && leb max_bytes bytes_read
    then ([], none)
    else read flushed s from room (if ltb 0 max_bytes then max_bytes - bytes_read else 0)

-- The loop of `Read` over the segments that are left. A sealed segment that ends before `from` is
-- skipped.
unfoldable pub read_segments :
    Bool → List Segment → Segment → ℕ → ℕ → ℕ → ℕ → List Record × Option SegmentError
unfolding read encoded_size
read_segments flushed [] active from room max_bytes bytes_read =
    read_segment flushed active from room max_bytes bytes_read
read_segments flushed (s ∷ sealed) active from room max_bytes bytes_read =
    let got =
      if ltb s.last_seq from
      then ([], none)
      else read_segment flushed s from room max_bytes bytes_read in
    joined got (
      read_segments flushed sealed active (next_from from got.0) (room - length got.0) max_bytes
        (bytes_read + sizes got.0))

pub data ReadAnswer : Type 0 where
  read_failed : PartitionError → List Record → ReadAnswer
  read_records : List Record → ReadAnswer

abbrev pub answer : List Record × Option SegmentError → ReadAnswer
answer (rs, none) = read_records rs
answer (rs, some e) = read_failed (segment_failed e) rs

unfoldable pub read_partition : Bool → Partition → ℕ → ℕ → ℕ → ReadAnswer
unfolding read_segments
read_partition flushed p from_seq max_records max_bytes =
    let from = if from_seq == 0 then p.first_seq else from_seq in
    let room = if max_records == 0 then 100 else max_records in
    if p.closed
    then read_failed closed_partition []
    else if ltb from p.first_seq
    then read_failed seq_truncated []
    else answer (read_segments flushed p.sealed p.active from room max_bytes 0)

-- `ReadFrom`: a budget of 4 MB
abbrev pub read_from : Bool → Partition → ℕ → ℕ → ReadAnswer
read_from flushed p from_seq max_records = read_partition flushed p from_seq max_records 4194304
