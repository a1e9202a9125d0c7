-- ===== src/Replication/Wire.antt =====
-- The messages between leader and follower as bytes (internal/replication/protocol.go). A text is its
-- bytes, an int32 the number of its 32 bits; an error's text is left out.
use boltq.Prelude.{
  ℕ, ◌+◌, ◌-◌, List, [], ◌∷◌, ◌++◌, Option, none, some, ltb, ◌==◌, if◌then◌else◌, GoString, length,
  take, drop,
}
use boltq.Prelude.Bytes.{put_le, of_le, read_full}
use boltq.Prelude.Dict.{maybe}

abbrev pub max_frame_payload : ℕ
max_frame_payload = 16777216

-- b[from:to]
abbrev pub slice : ℕ → ℕ → List ℕ → List ℕ
slice from to b = take (to - from) (drop from b)

-- The bytes that are written; none for a frame that is too large.
unfoldable pub write_frame : ℕ → List ℕ → Option (List ℕ)
write_frame type payload =
    if ltb max_frame_payload (length payload)
    then none
    else some (type ∷ put_le 4 (length payload) ++ payload)

pub data FrameRead : Type 0 where
  short : FrameRead
  too_large : FrameRead
  frame : ℕ → List ℕ → List ℕ → FrameRead

abbrev frame_payload : ℕ → ℕ → List ℕ → FrameRead
frame_payload type len r =
    if ltb max_frame_payload len
    then too_large
    else maybe short (λ (payload, rest). frame type payload rest) (read_full len r)

-- A frame from the connection, and what follows it.
unfoldable pub read_frame : List ℕ → FrameRead
read_frame [] = short
read_frame (type ∷ bs) =
    maybe short (λ (len, rest). frame_payload type (of_le len) rest) (read_full 4 bs)

pub record FetchRequest : Type 0 where
  pub topic : GoString
  pub partition_count : ℕ
  pub partition : ℕ
  pub from_seq : ℕ

unfoldable pub encode_fetch : FetchRequest → List ℕ
encode_fetch f =
    put_le 8 f.from_seq
    ++ (put_le 4 f.partition
        ++ (put_le 4 f.partition_count ++ (put_le 2 (length f.topic) ++ f.topic)))

-- What stands behind a header of so many bytes, of which the last two are its length
abbrev pub topic_after : ℕ → List ℕ → Option GoString
topic_after header b =
    if ltb (length b) header
    then none
    else if header + of_le (slice (header - 2) header b) == length b
    then some (drop header b)
    else none

unfoldable pub decode_fetch : List ℕ → Option FetchRequest
decode_fetch b =
    maybe none
      (λ topic. some (record {
        from_seq = of_le (slice 0 8 b);
        partition = of_le (slice 8 12 b);
        partition_count = of_le (slice 12 16 b);
        topic = topic;
      }))
      (topic_after 18 b)

pub record AckMessage : Type 0 where
  pub topic : GoString
  pub partition : ℕ
  pub seq : ℕ

unfoldable pub encode_ack : AckMessage → List ℕ
encode_ack a = put_le 8 a.seq ++ (put_le 4 a.partition ++ (put_le 2 (length a.topic) ++ a.topic))

unfoldable pub decode_ack : List ℕ → Option AckMessage
decode_ack b =
    maybe none
      (λ topic.
        some
          (record { seq = of_le (slice 0 8 b); partition = of_le (slice 8 12 b); topic = topic }))
      (topic_after 14 b)

pub record EpochRequest : Type 0 where
  pub topic : GoString
  pub partition : ℕ
  pub epoch : ℕ

unfoldable pub encode_epoch_request : EpochRequest → List ℕ
encode_epoch_request e =
    put_le 4 e.epoch ++ (put_le 4 e.partition ++ (put_le 2 (length e.topic) ++ e.topic))

unfoldable pub decode_epoch_request : List ℕ → Option EpochRequest
decode_epoch_request b =
    maybe none
      (λ topic.
        some
          (record { epoch = of_le (slice 0 4 b); partition = of_le (slice 4 8 b); topic = topic }))
      (topic_after 10 b)

pub record EpochResponse : Type 0 where
  pub topic : GoString
  pub partition : ℕ
  pub epoch : ℕ
  pub end_seq : ℕ

unfoldable pub encode_epoch_response : EpochResponse → List ℕ
encode_epoch_response e =
    put_le 4 e.epoch
    ++ (put_le 8 e.end_seq ++ (put_le 4 e.partition ++ (put_le 2 (length e.topic) ++ e.topic)))

unfoldable pub decode_epoch_response : List ℕ → Option EpochResponse
decode_epoch_response b =
    maybe none
      (λ topic. some (record {
        epoch = of_le (slice 0 4 b);
        end_seq = of_le (slice 4 12 b);
        partition = of_le (slice 12 16 b);
        topic = topic;
      }))
      (topic_after 18 b)

pub record RecordsHeader : Type 0 where
  pub topic : GoString
  pub partition : ℕ
  pub count : ℕ

unfoldable pub encode_records_header : RecordsHeader → List ℕ
encode_records_header h =
    put_le 4 h.partition ++ (put_le 4 h.count ++ (put_le 2 (length h.topic) ++ h.topic))

-- The header, and the offset at which the records begin.
unfoldable pub decode_records_header : List ℕ → Option (RecordsHeader × ℕ)
decode_records_header b =
    let topic_len = of_le (slice 8 10 b) in
    if ltb (length b) 10
    then none
    else if ltb (length b) (10 + topic_len)
    then none
    else some (
      record {
        partition = of_le (slice 0 4 b);
        count = of_le (slice 4 8 b);
        topic = slice 10 (10 + topic_len) b;
      },
      10 + topic_len,
    )
