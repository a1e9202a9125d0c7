-- ===== src/Stream/Segment/Cutting.antt =====
-- Cutting a segment at a sequence (internal/stream/segment.go).
use boltq.Prelude.{
  ℕ, zero, suc, ◌+◌, Bool, true, false, not, List, Option, none, some, ltb, leb, if◌then◌else◌,
  length, take, drop, get_or,
}
use boltq.Prelude.Bytes.{of_le}
use boltq.Prelude.Search.{search}
use boltq.Stream.Codec.{record_frame_header_size}
use boltq.Stream.Segment.{
  IndexEntry, Segment, SegmentError, corrupt_record, read_only_segment, disk_error, before,
  encode_index, eof, bad_length, torn, frame, read_frame, no_index_entry, seek_pos,
}

-- The offset of the first record at `seq` or later; none for ErrCorruptRecord.
unfoldable pub scan_loop : ℕ → List ℕ → ℕ → ℕ → ℕ → Option ℕ
scan_loop zero bs seq pos size = some size
scan_loop (suc fuel) bs seq pos size =
    if ltb pos size
    then elim (read_frame bs) [
      | eof ↦ some size
      | torn ↦ some size
      | bad_length ↦ none
      | frame checksum body rest ↦
          if leb seq (of_le (take 8 body))
          then some pos
          else scan_loop fuel rest seq (pos + record_frame_header_size + length body) size
    ]
    else some size

unfoldable pub scan_for_offset : Segment → ℕ → Option ℕ
scan_for_offset s seq =
    let pos = seek_pos s seq in
    let bytes = drop pos (take s.size s.file) in scan_loop (suc (length bytes)) bytes seq pos s.size

abbrev pub cut_index : Segment → ℕ → List IndexEntry
cut_index s seq =
    take (search (length s.index) (λ i. leb seq (get_or s.index i no_index_entry).seq)) s.index

unfoldable pub cut_at : Segment → ℕ → Option ℕ → Option SegmentError × Bool × Segment
cut_at s seq none = (some corrupt_record, false, s)
cut_at s seq (some pos) = if leb s.size pos then (none, false, s) else (
  none,
  true,
  record s {
    file = take pos s.file;
    index = cut_index s seq;
    idx_file = encode_index (cut_index s seq);
    size = pos;
    last_seq = before seq;
    since_idx = 0;
  },
)

-- The error, whether anything was removed, and the segment
unfoldable pub truncate_to : Bool → Segment → ℕ → Option SegmentError × Bool × Segment
truncate_to disk s seq =
    if s.read_only
    then (some read_only_segment, false, s)
    else if not disk
    then (some disk_error, false, s)
    else if ltb s.last_seq seq
    then (none, false, s)
    else cut_at s seq (scan_for_offset s seq)
