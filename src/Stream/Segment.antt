-- ===== src/Stream/Segment.antt =====
-- One segment of a partition's log (internal/stream/segment.go). `file` is the .log file with what
-- is still buffered for it, `idx_file` the .index file. Whether the disk takes a write is an
-- argument. Positions are numbers here: a file is far below 2^63 bytes.
pub mod Recovery
pub mod Frames
pub mod Seek
pub mod Selected
pub mod Appended
pub mod Indexes
pub mod Scanned
pub mod Recovered
pub mod Truncated
pub mod Reading
pub mod Cutting
use boltq.Prelude.{
  ℕ, zero, suc, ◌+◌, ◌-◌, ◌*◌, ◌/◌, ◌%◌, Bool, true, false, not, ◌&&◌, ◌||◌, List, [], ◌∷◌, ◌++◌,
  Option, none, some, ltb, leb, ◌==◌, if◌then◌else◌, length, take, drop, get_or,
}
use boltq.Prelude.Words.{u64}
use boltq.Prelude.Bytes.{put_le, of_le, read_full}
use boltq.Prelude.Crc.{crc32}
use boltq.Prelude.Dict.{maybe}
use boltq.Prelude.Search.{search}
use boltq.Stream.{Record}
use boltq.Stream.Codec.{
  Decoded, ok, corrupt, stuck, decode_record_body, max_record_size, record_body_header_size,
  record_frame_header_size,
}

pub record IndexEntry : Type 0 where
  pub seq : ℕ
  pub pos : ℕ

abbrev pub index_entry_size : ℕ
index_entry_size = 16

pub record Segment : Type 0 where
  pub base_seq : ℕ
  pub read_only : Bool
  pub file : List ℕ
  pub idx_file : List ℕ
  pub index : List IndexEntry
  pub size : ℕ
  pub last_seq : ℕ
  pub since_idx : ℕ
  pub index_interval : ℕ

pub data SegmentError : Type 0 where
  corrupt_record : SegmentError
  read_only_segment : SegmentError
  disk_error : SegmentError

-- x - 1 on a uint64
abbrev pub before : ℕ → ℕ
before x = (x + (u64 - 1)) % u64

unfoldable pub create_segment : ℕ → ℕ → Segment
create_segment base_seq index_interval = record {
  base_seq = base_seq;
  read_only = false;
  file = [];
  idx_file = [];
  index = [];
  size = 0;
  last_seq = before base_seq;
  since_idx = 0;
  index_interval = index_interval;
}

unfoldable pub encode_entry : IndexEntry → List ℕ
encode_entry e = put_le 8 e.seq ++ put_le 8 e.pos

unfoldable pub encode_index : List IndexEntry → List ℕ
unfolding encode_entry
encode_index [] = []
encode_index (e ∷ es) = encode_entry e ++ encode_index es

unfoldable pub decode_index : ℕ → List ℕ → List IndexEntry
decode_index zero bs = []
decode_index (suc n) bs =
    record { seq = of_le (take 8 bs); pos = of_le (take 8 (drop 8 bs)) }
    ∷ decode_index n (drop 16 bs)

-- A torn tail of the index file is dropped by the division.
unfoldable pub load_index : List ℕ → List IndexEntry
unfolding decode_index
load_index bytes = decode_index (length bytes / index_entry_size) bytes

-- What the bytes ahead hold: fewer than a header, a length out of bounds, fewer than the body, or a
-- frame with its checksum and what follows.
pub data Frame : Type 0 where
  eof : Frame
  bad_length : Frame
  torn : Frame
  frame : ℕ → List ℕ → List ℕ → Frame

unfoldable pub read_body : ℕ → ℕ → List ℕ → Frame
unfolding read_full
read_body checksum body_len r =
    if ltb body_len record_body_header_size || ltb max_record_size body_len
    then bad_length
    else maybe torn (λ (body, rest). frame checksum body rest) (read_full body_len r)

unfoldable pub read_frame : List ℕ → Frame
unfolding read_body
read_frame bs =
    maybe eof (λ (head, r). read_body (of_le (take 4 head)) (of_le (drop 4 head)) r)
      (read_full record_frame_header_size bs)

pub contains : Segment → ℕ → Bool
contains s seq = leb s.base_seq seq && leb seq s.last_seq

abbrev pub is_empty : Segment → Bool
is_empty s = ltb s.last_seq s.base_seq

abbrev pub write_record : Bool → Segment → List ℕ → ℕ → Option SegmentError × Segment
write_record false s encoded seq = (some disk_error, s)
write_record true s encoded seq = (
  none,
  record s {
    file = s.file ++ encoded;
    size = s.size + length encoded;
    since_idx = s.since_idx + length encoded;
    last_seq = seq;
  },
)

abbrev pub indexed : Segment → ℕ → Segment
indexed s seq =
    let e : IndexEntry = record { seq = seq; pos = s.size } in
    record s { idx_file = s.idx_file ++ encode_entry e; index = s.index ++ e ∷ []; since_idx = 0 }

unfoldable pub append : Bool → Bool → Segment → List ℕ → ℕ → Option SegmentError × Segment
unfolding encode_entry
append index_ok log_ok s encoded seq =
    if s.read_only
    then (some read_only_segment, s)
    else if leb s.index_interval s.since_idx || length s.index == 0
    then if index_ok then write_record log_ok (indexed s seq) encoded seq else (some disk_error, s)
    else write_record log_ok s encoded seq

abbrev pub no_index_entry : IndexEntry
no_index_entry = record { seq = 0; pos = 0 }

unfoldable pub seek_pos : Segment → ℕ → ℕ
unfolding search
seek_pos s seq =
    let i = search (length s.index) (λ i. ltb seq (get_or s.index i no_index_entry).seq) in
    if i == 0 then 0 else (get_or s.index (i - 1) no_index_entry).pos

unfoldable pub reopen_writable : Bool → Segment → Option SegmentError × Segment
reopen_writable disk s =
    if not s.read_only
    then (none, s)
    else if disk
    then (none, record s { read_only = false })
    else (some disk_error, s)
