-- ===== src/Stream/Segment/Recovery.antt =====
-- Opening a segment after a crash (internal/stream/segment.go).
use boltq.Prelude.{
  ℕ, zero, suc, ◌+◌, Bool, List, [], ◌∷◌, ltb, ◌==◌, if◌then◌else◌, length, take, drop,
}
use boltq.Prelude.Bytes.{of_le}
use boltq.Prelude.Crc.{crc32}
use boltq.Stream.Codec.{record_frame_header_size}
use boltq.Stream.Segment.{
  IndexEntry, Segment, before, load_index, eof, bad_length, torn, frame, read_frame,
}

-- The index without the entries at its end that lie past the end of the file
abbrev pub trim_head : ℕ → IndexEntry → List IndexEntry → List IndexEntry
trim_head file_size e [] = if ltb e.pos file_size then e ∷ [] else []
trim_head file_size e (x ∷ xs) = e ∷ x ∷ xs

unfoldable pub trim_index : ℕ → List IndexEntry → List IndexEntry
trim_index file_size [] = []
trim_index file_size (e ∷ es) = trim_head file_size e (trim_index file_size es)

abbrev pub last_or : List IndexEntry → IndexEntry → IndexEntry
last_or [] e = e
last_or (x ∷ xs) e = last_or xs x

-- The scan of `recover`: the last sequence and the position that it reaches. Each frame takes eight
-- bytes, so as much fuel as bytes is enough.
unfoldable pub recover_loop : ℕ → List ℕ → ℕ → ℕ → ℕ × ℕ
recover_loop zero bs last_seq pos = (last_seq, pos)
recover_loop (suc fuel) bs last_seq pos = elim (read_frame bs) [
  | eof ↦ (last_seq, pos)
  | bad_length ↦ (last_seq, pos)
  | torn ↦ (last_seq, pos)
  | frame checksum body rest ↦
      if crc32 body == checksum
      then recover_loop fuel rest (of_le (take 8 body))
          (pos + record_frame_header_size + length body)
      else (last_seq, pos)
]

abbrev pub with_scan : Segment → ℕ × ℕ → Segment
with_scan s (last_seq, pos) = record s {
  size = pos;
  last_seq = last_seq;
  file = if s.read_only then s.file else take pos s.file;
}

abbrev pub recover_from : Segment → List IndexEntry → Segment
recover_from s [] =
    with_scan (record s { index = [] }) (recover_loop (length s.file) s.file s.last_seq 0)
recover_from s (e ∷ es) =
    let from = last_or es e in
    with_scan (record s { index = e ∷ es })
      (recover_loop (length s.file) (drop from.pos s.file) (before from.seq) from.pos)

unfoldable pub recover : Segment → Segment
recover s = recover_from s (trim_index (length s.file) s.index)

unfoldable pub open_segment : List ℕ → List ℕ → ℕ → ℕ → Bool → Segment
open_segment file idx_file base_seq index_interval read_only = recover (record {
  base_seq = base_seq;
  read_only = read_only;
  file = file;
  idx_file = idx_file;
  index = load_index idx_file;
  size = 0;
  last_seq = before base_seq;
  since_idx = 0;
  index_interval = index_interval;
})
