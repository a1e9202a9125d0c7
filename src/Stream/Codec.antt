-- ===== src/Stream/Codec.antt =====
-- Encoding and decoding of records (internal/stream/record.go). Byte slices are lists of numbers.
use boltq.Prelude.{
  ℕ, zero, suc, ◌+◌, ◌-◌, ◌/◌, ◌%◌, Bool, List, [], ◌∷◌, ◌++◌, ltb, ◌==◌, not, if◌then◌else◌,
  GoString, string_eq, length, take, drop,
}
use boltq.Prelude.Int.{ℤ, pos, negsuc}
use boltq.Prelude.Words.{u64}
use boltq.Prelude.Bytes.{put_le, of_le}
use boltq.Prelude.Crc.{crc32}
use boltq.Prelude.Dict.{Dict, put}
use boltq.Stream.{Record}

abbrev pub flag_tombstone : ℕ
flag_tombstone = 1

abbrev pub flag_ephemeral : ℕ
flag_ephemeral = 2

abbrev pub flag_has_epoch : ℕ
flag_has_epoch = 4

abbrev pub record_frame_header_size : ℕ
record_frame_header_size = 8

abbrev pub record_body_header_size : ℕ
record_body_header_size = 27

abbrev pub record_epoch_size : ℕ
record_epoch_size = 4

abbrev pub max_record_size : ℕ
max_record_size = 8388608

-- `flags&bit != 0`, `flags |= bit` and `flags &^= bit` for one bit
abbrev pub has_flag : ℕ → ℕ → Bool
has_flag bit flags = flags / bit % 2 == 1

abbrev pub set_flag : ℕ → ℕ → ℕ
set_flag bit flags = if has_flag bit flags then flags else flags + bit

abbrev pub clear_flag : ℕ → ℕ → ℕ
clear_flag bit flags = if has_flag bit flags then flags - bit else flags

-- uint64(x) and int64(x)
abbrev pub to_word : ℤ → ℕ
to_word (pos n) = n % u64
to_word (negsuc n) = u64 - 1 - n % u64

abbrev pub of_word : ℕ → ℤ
of_word w = if ltb w 9223372036854775808 then pos w else negsuc (u64 - 1 - w)

-- The order of the bindings is the order in which `range` visits the map.
unfoldable pub encode_headers : Dict GoString GoString → List ℕ
encode_headers [] = []
encode_headers ((k, v) ∷ h) =
    put_le 2 (length k) ++ (k ++ (put_le 2 (length v) ++ (v ++ encode_headers h)))

-- `stuck` is no result of the source: the loop ran out of fuel.
pub data Decoded (A : Type 0) : Type 0 where
  ok : A → Decoded A
  corrupt : Decoded A
  stuck : Decoded A

-- int(Uint16(buf)), and the string of that many bytes behind it with what follows the string
abbrev pub prefix : List ℕ → ℕ
prefix buf = of_le (take 2 buf)

unfoldable pub prefixed : List ℕ → GoString
prefixed buf = take (prefix buf) (drop 2 buf)

unfoldable pub past_prefixed : List ℕ → List ℕ
past_prefixed buf = drop (prefix buf) (drop 2 buf)

unfoldable pub decode_headers_loop :
    ℕ → List ℕ → Dict GoString GoString → Decoded (Dict GoString GoString)
unfolding prefixed past_prefixed
decode_headers_loop fuel [] h = ok h
decode_headers_loop zero (b ∷ bs) h = stuck
decode_headers_loop (suc fuel) (b ∷ bs) h =
    let buf = b ∷ bs in
    let after_k = past_prefixed buf in
    let rest =
      decode_headers_loop fuel (past_prefixed after_k) (put h (prefixed buf) (prefixed after_k)) in
    if ltb (length buf) 2
    then corrupt
    else if ltb (length (drop 2 buf)) (prefix buf + 2)
    then corrupt
    else if ltb (length (drop 2 after_k)) (prefix after_k)
    then corrupt
    else rest

-- Each round takes four bytes.
unfoldable pub decode_headers : List ℕ → Decoded (Dict GoString GoString)
unfolding decode_headers_loop
decode_headers buf = decode_headers_loop (length buf) buf []

abbrev pub body_header_size : Record → ℕ
body_header_size r =
    if ltb 0 r.epoch then record_body_header_size + record_epoch_size else record_body_header_size

unfoldable pub encoded_size : Record → ℕ
unfolding encode_headers
encoded_size r =
    record_frame_header_size
    + body_header_size r
    + length r.key
    + length (encode_headers r.headers)
    + length r.payload

abbrev pub body_len : Record → ℕ
body_len r =
    body_header_size r + length r.key + length (encode_headers r.headers) + length r.payload

abbrev pub written_flags : Record → ℕ
written_flags r =
    if ltb 0 r.epoch then set_flag flag_has_epoch r.flags else clear_flag flag_has_epoch r.flags

abbrev pub record_body : Record → List ℕ
record_body r =
    let hdr = encode_headers r.headers in
    put_le 8 r.seq
    ++ (put_le 8 (to_word r.timestamp)
        ++ (written_flags r
            ∷ (put_le 2 (length r.key)
                ++ (put_le 4 (length hdr)
                    ++ (put_le 4 (length r.payload)
                        ++ ((if ltb 0 r.epoch then put_le 4 r.epoch else [])
                            ++ (r.key ++ (hdr ++ r.payload))))))))

pub data EncodeResult : Type 0 where
  encoded : List ℕ → EncodeResult
  record_too_large : EncodeResult
  key_too_long : EncodeResult

-- The body behind its checksum and its length
abbrev pub frame_of : List ℕ → List ℕ
frame_of body = put_le 4 (crc32 body) ++ (put_le 4 (length body) ++ body)

unfoldable pub encode : Record → EncodeResult
unfolding encode_headers
encode r =
    if ltb max_record_size (body_len r)
    then record_too_large
    else if ltb 65535 (length r.key)
    then key_too_long
    else encoded (frame_of (record_body r))

-- body[off : off+n]
abbrev pub slice : ℕ → ℕ → List ℕ → List ℕ
slice off n bs = take n (drop off bs)

abbrev pub with_headers : List ℕ → ℕ → ℕ → ℕ → Decoded (Dict GoString GoString) → Decoded Record
with_headers body body_hdr key_len hdr_len corrupt = corrupt
with_headers body body_hdr key_len hdr_len stuck = stuck
with_headers body body_hdr key_len hdr_len (ok headers) = ok (record {
  seq = of_le (slice 0 8 body);
  timestamp = of_word (of_le (slice 8 8 body));
  key = slice body_hdr key_len body;
  headers = headers;
  payload = slice (body_hdr + key_len + hdr_len) (of_le (slice 23 4 body)) body;
  flags = clear_flag flag_has_epoch (of_le (slice 16 1 body));
  epoch = if has_flag flag_has_epoch (of_le (slice 16 1 body)) then of_le (slice 27 4 body) else 0;
})

abbrev pub decode_sized : List ℕ → ℕ → ℕ → ℕ → ℕ → Decoded Record
decode_sized body body_hdr key_len hdr_len pay_len =
    if not (body_hdr + key_len + hdr_len + pay_len == length body)
    then corrupt
    else with_headers body body_hdr key_len hdr_len
        (decode_headers (slice (body_hdr + key_len) hdr_len body))

unfoldable pub decode_record_body : List ℕ → Decoded Record
unfolding decode_headers
decode_record_body body =
    let key_len = of_le (slice 17 2 body) in
    let hdr_len = of_le (slice 19 4 body) in
    let pay_len = of_le (slice 23 4 body) in
    if ltb (length body) record_body_header_size
    then corrupt
    else if has_flag flag_has_epoch (of_le (slice 16 1 body))
    then if ltb (length body) (record_body_header_size + record_epoch_size)
      then corrupt
      else decode_sized body (record_body_header_size + record_epoch_size) key_len hdr_len pay_len
    else decode_sized body record_body_header_size key_len hdr_len pay_len
