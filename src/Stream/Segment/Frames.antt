-- ===== src/Stream/Segment/Frames.antt =====
-- The frames of a segment's file (internal/stream/segment.go), and the records that a segment holds.
use boltq.Prelude.{
  ℕ, suc, ◌+◌, ◌-◌, ◌≤◌, ◌<◌, ◌≡◌, refl, sym, ap, ◌∙◌, List, [], ◌∷◌, ◌++◌, length, length-append,
  take, take-append, drop-append, arith, All,
}
use boltq.Prelude.Words.{u64}
use boltq.Prelude.Bytes.{put_le, of_le, of_le-put_le, length-put_le, append_assoc, read_full-append}
use boltq.Prelude.Crc.{crc32, crc32-bound}
use boltq.Stream.{Record}
use boltq.Stream.Codec.{
  encode, encoded, ok, record_body, body_len, frame_of, max_record_size, decode_record_body,
}
use boltq.Stream.RoundTrip.{Fits, decode-record_body, length-record_body}
use boltq.Stream.Segment.{frame, read_frame, read_body, IndexEntry, Segment}

-- A record that `encode` takes.
pub record Stored (r : Record) : Type 0 where
  pub fits : Fits r
  pub key : length r.key < 65536
  pub body : body_len r ≤ max_record_size

abbrev pub frame_record : Record → List ℕ
frame_record r = frame_of (record_body r)

-- The file of some records
abbrev pub frames : List Record → List ℕ
frames [] = []
frames (r ∷ rs) = frame_record r ++ frames rs

pub frames-append : (rs qs : List Record) → frames (rs ++ qs) ≡ frames rs ++ frames qs
frames-append [] qs = refl
frames-append (r ∷ rs) qs =
    ap (λ t. frame_record r ++ t) (frames-append rs qs)
    ∙ sym (append_assoc (frame_record r) (frames rs) (frames qs))

pub length-frame_of : (body : List ℕ) → length (frame_of body) ≡ 8 + length body
length-frame_of body = omega (
  arith,
  length-append (put_le 4 (crc32 body)) (put_le 4 (length body) ++ body),
  length-append (put_le 4 (length body)) body,
  length-put_le 4 (crc32 body),
  length-put_le 4 (length body),
)

read_body-append :
    (checksum : ℕ) (body rest : List ℕ)
    → 27 ≤ length body
    → length body ≤ max_record_size
    → read_body checksum (length body) (body ++ rest) ≡ frame checksum body rest
unfolding read_body
read_body-append checksum body rest lo hi =
    rw (read_full-append (length body) body rest refl) (ground (arith, lo, hi))

read_frame-parts :
    (a b r : List ℕ)
    → length a ≡ 4
    → length b ≡ 4
    → read_frame (a ++ (b ++ r)) ≡ read_body (of_le a) (of_le b) r
unfolding read_frame
read_frame-parts a b r ha hb =
    rw
      (
        sym (append_assoc a b r),
        read_full-append 8 (a ++ b) r (omega (arith, length-append a b, ha, hb)),
        take-append 4 a b ha,
        drop-append 4 a b ha,
      )
      refl

-- A frame is read back, whatever follows it.
pub read_frame-frame_of :
    (body rest : List ℕ)
    → 27 ≤ length body
    → length body ≤ max_record_size
    → read_frame (frame_of body ++ rest) ≡ frame (crc32 body) body rest
read_frame-frame_of body rest lo hi =
    ap read_frame (
      append_assoc (put_le 4 (crc32 body)) (put_le 4 (length body) ++ body) rest
      ∙ ap (λ t. put_le 4 (crc32 body) ++ t) (append_assoc (put_le 4 (length body)) body rest))
    ∙ read_frame-parts (put_le 4 (crc32 body)) (put_le 4 (length body)) (body ++ rest)
        (length-put_le 4 (crc32 body)) (length-put_le 4 (length body))
    ∙ rw
        (
          of_le-put_le 4 (crc32 body) (crc32-bound body),
          of_le-put_le 4 (length body) (omega (arith, hi)),
        )
        (read_body-append (crc32 body) body rest lo hi)

module _ (r : Record) (st : Stored r) where
  pub read_frame-record :
      (rest : List ℕ)
      → read_frame (frame_record r ++ rest) ≡ frame (crc32 (record_body r)) (record_body r) rest
  read_frame-record rest =
      let n = length-record_body r in
      read_frame-frame_of (record_body r) rest (ground (arith, n)) (omega (arith, n, st.body))

  pub decode-stored : decode_record_body (record_body r) ≡ ok r
  decode-stored = decode-record_body r st.fits st.key st.body

  -- The first eight bytes of a body are the sequence.
  pub seq-of_body : of_le (take 8 (record_body r)) ≡ r.seq
  seq-of_body =
      ap of_le (take-append 8 (put_le 8 r.seq) _ (length-put_le 8 r.seq))
      ∙ of_le-put_le 8 r.seq st.fits.seq

-- A record that is encoded reads back: before any other bytes its frame is found, with its checksum,
-- and its body decodes to the record, when the record's numbers have Go's widths, its headers are
-- distinct with lengths of 16 bits, and its flags leave the bit of the epoch clear.
pub decode-encode :
    (r : Record) (bytes rest : List ℕ)
    → Fits r
    → encode r ≡ encoded bytes
    → (read_frame (bytes ++ rest) ≡ frame (crc32 (record_body r)) (record_body r) rest)
      × (decode_record_body (record_body r) ≡ ok r)
unfolding encode
decode-encode r bytes rest fits e =
    let whole : body_len r ≤ max_record_size = ground (arith, e) in
    let key : length r.key < 65536 = ground (arith, e) in
    let st : Stored r = record { fits = fits; key = key; body = whole } in
    let same : encoded (frame_record r) ≡ encoded bytes = ground (arith, e, whole, key) in
    let bytes_are : frame_record r ≡ bytes = cc in
    rw (sym bytes_are) (read_frame-record r st rest, decode-stored r st)

-- Records at consecutive sequences from `base` on.
abbrev pub RunFrom : ℕ → List Record → Type 0
RunFrom base [] = Unit
RunFrom base (r ∷ rs) = (r.seq ≡ base) × RunFrom (suc base) rs

pub RunFrom-behind :
    (base : ℕ) (ahead behind : List Record)
    → RunFrom base (ahead ++ behind)
    → RunFrom (base + length ahead) behind
RunFrom-behind base [] behind run = let q : base + 0 ≡ base = omega arith in rw q run
RunFrom-behind base (r ∷ ahead) behind run =
    let q : base + suc (length ahead) ≡ suc base + length ahead = omega arith in
    rw q (RunFrom-behind (suc base) ahead behind run.1)

pub RunFrom-append :
    (base : ℕ) (rs qs : List Record)
    → RunFrom base rs
    → RunFrom (base + length rs) qs
    → RunFrom base (rs ++ qs)
RunFrom-append base [] qs run more = let q : base + 0 ≡ base = omega arith in rw (sym q) more
RunFrom-append base (r ∷ rs) qs run more =
    let q : base + suc (length rs) ≡ suc base + length rs = omega arith in
    (run.0, RunFrom-append (suc base) rs qs run.1 (rw (sym q) more))

pub Stored-behind : (ahead behind : List Record) → All Stored (ahead ++ behind) → All Stored behind
Stored-behind [] behind st = st
Stored-behind (r ∷ ahead) behind st = Stored-behind ahead behind st.1

-- An index entry of a file: the position at which the record of its sequence starts.
pub record Points (base : ℕ) (rs : List Record) (e : IndexEntry) : Type 0 where
  pub ahead : List Record
  pub behind : List Record
  pub split : rs ≡ ahead ++ behind
  pub at_seq : e.seq ≡ base + length ahead
  pub at_pos : e.pos ≡ length (frames ahead)

-- In the order in which they were written.
abbrev pub Ascending : List IndexEntry → Type 0
Ascending [] = Unit
Ascending (e ∷ es) = All (λ x. (e.pos ≤ x.pos) × (e.seq ≤ x.seq)) es × Ascending es

-- The segment holds exactly these records.
pub record Holds (s : Segment) (rs : List Record) : Type 0 where
  pub stored : All Stored rs
  pub run : RunFrom s.base_seq rs
  pub file : s.file ≡ frames rs
  pub size : s.size ≡ length (frames rs)
  pub low : 0 < s.base_seq
  pub high : s.base_seq + length rs < u64
  pub last : s.last_seq ≡ s.base_seq + length rs - 1
  pub index : All (Points s.base_seq rs) s.index
  pub order : Ascending s.index
