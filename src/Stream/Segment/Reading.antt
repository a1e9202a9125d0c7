-- ===== src/Stream/Segment/Reading.antt =====
-- Reading a segment from a sequence on (internal/stream/segment.go).
use boltq.Prelude.{
  ℕ, zero, suc, ◌+◌, Bool, not, ◌&&◌, List, [], ◌∷◌, Option, none, some, ltb, leb, ◌==◌,
  if◌then◌else◌, length, take, drop,
}
use boltq.Prelude.Bytes.{of_le}
use boltq.Prelude.Crc.{crc32}
use boltq.Prelude.Int.{ℤ, pos}
use boltq.Stream.{Record}
use boltq.Stream.Codec.{Decoded, ok, corrupt, stuck, decode_record_body}
use boltq.Stream.Segment.{
  Segment, SegmentError, corrupt_record, disk_error, eof, bad_length, torn, frame, read_frame,
  seek_pos,
}

abbrev pub kept_record :
    Decoded Record → List Record × Option SegmentError → List Record × Option SegmentError
kept_record corrupt rest = ([], some corrupt_record)
kept_record stuck rest = ([], some corrupt_record)
kept_record (ok r) (rs, e) = (r ∷ rs, e)

-- The loop of `read`: `room` is how many records are still wanted, `bytes_read` what was read.
unfoldable pub read_loop : ℕ → List ℕ → ℕ → ℕ → ℕ → ℕ → List Record × Option SegmentError
read_loop zero bs from_seq room max_bytes bytes_read = ([], none)
read_loop (suc fuel) bs from_seq zero max_bytes bytes_read = ([], none)
read_loop (suc fuel) bs from_seq (suc room) max_bytes bytes_read = elim (read_frame bs) [
  | eof ↦ ([], none)
  | torn ↦ ([], none)
  | bad_length ↦ ([], some corrupt_record)
  | frame checksum body rest ↦
      let skip = ltb (of_le (take 8 body)) from_seq in
      let total = bytes_read + length body in
      let more =
        read_loop fuel rest from_seq (if skip then suc room else room) max_bytes
          (if skip then bytes_read else total) in
      if not (crc32 body == checksum)
      then ([], some corrupt_record)
      else if skip
      then more
      else kept_record (decode_record_body body)
          (if ltb 0 max_bytes && leb max_bytes total then ([], none) else more)
]

-- `flushed`: whether the buffered writer could be flushed; a read-only segment has none.
unfoldable pub read : Bool → Segment → ℕ → ℕ → ℕ → List Record × Option SegmentError
read flushed s from_seq max_records max_bytes =
    let start = seek_pos s from_seq in
    let bytes = drop start (take s.size s.file) in
    if not s.read_only && not flushed
    then ([], some disk_error)
    else if leb s.size start
    then ([], none)
    else read_loop (suc (length bytes)) bytes from_seq max_records max_bytes 0

abbrev pub first_of : List Record × Option SegmentError → ℤ
first_of (rs, some e) = pos 0
first_of ([], none) = pos 0
first_of (r ∷ rs, none) = r.timestamp

unfoldable pub first_timestamp : Bool → Segment → ℤ
first_timestamp flushed s = first_of (read flushed s s.base_seq 1 0)
