-- ===== src/Replication/Frames.antt =====
-- Every message between leader and follower is read as it was written
-- (internal/replication/protocol.go).
use boltq.Prelude.{
  ℕ, ◌+◌, ◌-◌, ◌%◌, ◌^◌, ◌<◌, ◌≡◌, refl, ap, ◌∙◌, false, List, ◌∷◌, ◌++◌, none, some, ltb,
  if◌then◌else◌, GoString, length, take, drop, arith, inl, inr, Bool-cases, take-append,
  drop-append, drop-drop, length-append,
}
use boltq.Prelude.Bytes.{put_le, of_le, of_le-put_le, length-put_le, read_full-append, append_assoc}
use boltq.Replication.Wire.{
  max_frame_payload, write_frame, read_frame, frame, FetchRequest, encode_fetch, decode_fetch,
  topic_after, AckMessage, encode_ack, decode_ack, EpochRequest, encode_epoch_request,
  decode_epoch_request, EpochResponse, encode_epoch_response, decode_epoch_response, RecordsHeader,
  encode_records_header, decode_records_header,
}

-- Two bytes hold a number up to a multiple of 65536.
of_le-put_le_mod : (x : ℕ) → of_le (put_le 2 x) ≡ x % 65536
unfolding of_le put_le
of_le-put_le_mod x = omega arith

-- The topic that ends a message, behind a header of which its length is the end
topic_after_exact :
    (n : ℕ) (head : List ℕ) (topic : GoString)
    → length head ≡ n
    → topic_after (n + 2) (head ++ (put_le 2 (length topic) ++ topic))
      ≡ (if ltb (length topic) 65536 then some topic else none)
topic_after_exact n head topic sized =
    let len = length topic in
    let tail = put_le 2 len ++ topic in
    let there : drop n (head ++ tail) ≡ tail = drop-append n head tail sized in
    let last : drop (n + 2) (head ++ tail) ≡ topic =
      drop-drop n 2 (head ++ tail)
      ∙ (ap (drop 2) there ∙ drop-append 2 (put_le 2 len) topic (length-put_le 2 len)) in
    let start : n + 2 - 2 ≡ n = omega arith in
    let two : n + 2 - n ≡ 2 = omega arith in
    let read : take 2 tail ≡ put_le 2 len =
      take-append 2 (put_le 2 len) topic (length-put_le 2 len) in
    let total : length (head ++ tail) ≡ n + 2 + len = omega (
      arith,
      sized,
      length-append head tail,
      length-append (put_le 2 len) topic,
      length-put_le 2 len,
    ) in
    rw (start, two, there, read, last, total, of_le-put_le_mod len) (ground arith)

-- A request for a partition is read as it was written; one whose topic is longer than 16 bits can say
-- is refused.
pub decode_fetch-encode :
    (f : FetchRequest)
    → f.from_seq < 256 ^ 8
    → f.partition < 256 ^ 4
    → f.partition_count < 256 ^ 4
    → decode_fetch (encode_fetch f) ≡ (if ltb (length f.topic) 65536 then some f else none)
unfolding decode_fetch encode_fetch put_le
decode_fetch-encode f seq part count =
    let head = put_le 8 f.from_seq ++ (put_le 4 f.partition ++ put_le 4 f.partition_count) in
    let found = topic_after_exact 16 head f.topic refl in
    let at_seq = of_le-put_le 8 f.from_seq seq in
    let at_part = of_le-put_le 4 f.partition part in
    let at_count = of_le-put_le 4 f.partition_count count in
    rw (found, at_seq, at_part, at_count) (ground arith)

-- So are the acknowledgements,
pub decode_ack-encode :
    (a : AckMessage)
    → a.seq < 256 ^ 8
    → a.partition < 256 ^ 4
    → decode_ack (encode_ack a) ≡ (if ltb (length a.topic) 65536 then some a else none)
unfolding decode_ack encode_ack put_le
decode_ack-encode a seq part =
    let found = topic_after_exact 12 (put_le 8 a.seq ++ put_le 4 a.partition) a.topic refl in
    rw (found, of_le-put_le 8 a.seq seq, of_le-put_le 4 a.partition part) (ground arith)

-- the questions about an epoch,
pub decode_epoch_request-encode :
    (e : EpochRequest)
    → e.epoch < 256 ^ 4
    → e.partition < 256 ^ 4
    → decode_epoch_request (encode_epoch_request e)
      ≡ (if ltb (length e.topic) 65536 then some e else none)
unfolding decode_epoch_request encode_epoch_request put_le
decode_epoch_request-encode e epoch part =
    let found = topic_after_exact 8 (put_le 4 e.epoch ++ put_le 4 e.partition) e.topic refl in
    rw (found, of_le-put_le 4 e.epoch epoch, of_le-put_le 4 e.partition part) (ground arith)

-- and the answers to them.
pub decode_epoch_response-encode :
    (e : EpochResponse)
    → e.epoch < 256 ^ 4
    → e.end_seq < 256 ^ 8
    → e.partition < 256 ^ 4
    → decode_epoch_response (encode_epoch_response e)
      ≡ (if ltb (length e.topic) 65536 then some e else none)
unfolding decode_epoch_response encode_epoch_response put_le
decode_epoch_response-encode e epoch end_at part =
    let head = put_le 4 e.epoch ++ (put_le 8 e.end_seq ++ put_le 4 e.partition) in
    let found = topic_after_exact 16 head e.topic refl in
    let at_epoch = of_le-put_le 4 e.epoch epoch in
    let at_end = of_le-put_le 8 e.end_seq end_at in
    let at_part = of_le-put_le 4 e.partition part in
    rw (found, at_epoch, at_end, at_part) (ground arith)

-- Behind the header of a batch stand its records, at the offset that is read with it.
pub decode_records_header-encode :
    (h : RecordsHeader) (records : List ℕ)
    → h.partition < 256 ^ 4
    → h.count < 256 ^ 4
    → length h.topic < 65536
    → (decode_records_header (encode_records_header h ++ records) ≡ some (h, 10 + length h.topic))
      × (drop (10 + length h.topic) (encode_records_header h ++ records) ≡ records)
unfolding decode_records_header encode_records_header put_le
decode_records_header-encode h records part count fits =
    let len = length h.topic in
    let bytes = encode_records_header h ++ records in
    let at_len = of_le-put_le 2 len fits in
    let some_len : 10 + len - 10 ≡ len = omega arith in
    let topic = take-append len h.topic records refl in
    let total = length-append h.topic records in
    let room : ltb (length bytes) (10 + len) ≡ false = ground (arith, total) in
    (
      rw
          (
            at_len,
            room,
            some_len,
            topic,
            of_le-put_le 4 h.partition part,
            of_le-put_le 4 h.count count,
          )
          (ground arith),
      drop-drop 10 len bytes ∙ drop-append len h.topic records refl,
    )

-- What `writeFrame` puts on a connection is what `readFrame` takes off it, and no byte more.
pub read_frame-write :
    (type : ℕ) (payload bs rest : List ℕ)
    → write_frame type payload ≡ some bs
    → read_frame (bs ++ rest) ≡ frame type payload rest
unfolding read_frame write_frame
read_frame-write type payload bs rest written =
    elim (Bool-cases (ltb max_frame_payload (length payload))) [
      | inl over ↦ ground (arith, rw over at written)
      | inr within ↦
          let len = length payload in
          let same : type ∷ (put_le 4 len ++ payload) ≡ bs = ground (arith, rw within at written) in
          let fits : len < 256 ^ 4 = ground (arith, within) in
          let word = read_full-append 4 (put_le 4 len) (payload ++ rest) (length-put_le 4 len) in
          let all = read_full-append len payload rest refl in
          rw (
            ← same,
            append_assoc (put_le 4 len) payload rest,
            word,
            of_le-put_le 4 len fits,
            within,
            all,
          )
    ]
