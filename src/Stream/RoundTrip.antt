-- ===== src/Stream/RoundTrip.antt =====
-- Records written and read back (internal/stream/record.go).
use boltq.Prelude.{
  ℕ, ◌+◌, ◌^◌, ◌≤◌, ◌<◌, ◌≡◌, refl, sym, ap, ◌∙◌, List, [], ◌∷◌, ◌++◌, Bool, GoString, string_eq,
  length, length-append, drop, take-append, drop-append, drop-drop, take_all, arith, All,
  if◌then◌else◌, Bool-cases, ltb, true, false, inl, inr,
}
use boltq.Prelude.Int.{ℤ, pos, negsuc}
use boltq.Prelude.Words.{u32, u64}
use boltq.Prelude.Bytes.{put_le, of_le, of_le-put_le, length-put_le}
use boltq.Prelude.Dict.{Dict, Unique}
use boltq.Stream.{Record}
use boltq.Stream.Codec.{
  Decoded, ok, encode_headers, decode_headers, decode_record_body, record_body, body_len,
  body_header_size, slice, decode_sized, with_headers, to_word, of_word, written_flags, has_flag,
  clear_flag, max_record_size,
}
use boltq.Stream.Headers.{FitsHeader, decode-encode_headers}

-- A 64-bit signed number.
abbrev pub IsInt64 : ℤ → Type 0
IsInt64 (pos n) = n < 9223372036854775808
IsInt64 (negsuc n) = n < 9223372036854775808

-- A record as Go can hold it, whose headers have lengths of 16 bits, and whose own flags leave the
-- bit of the epoch clear.
pub record Fits (r : Record) : Type 0 where
  pub seq : r.seq < u64
  pub timestamp : IsInt64 r.timestamp
  pub flags : r.flags < 256
  pub no_epoch_flag : has_flag 4 r.flags ≡ false
  pub epoch : r.epoch < u32
  pub headers : All FitsHeader r.headers
  pub distinct : Unique r.headers

of_word-to_word : (t : ℤ) → IsInt64 t → of_word (to_word t) ≡ t
of_word-to_word (pos n) h = ground (arith, h)
of_word-to_word (negsuc n) h = ground (arith, h)

to_word-bound : (t : ℤ) → to_word t < 256 ^ 8
to_word-bound (pos n) = omega arith
to_word-bound (negsuc n) = omega arith

-- What the fixed header and the optional epoch leave of a body
abbrev tail_of : Record → List ℕ
tail_of r = r.key ++ (encode_headers r.headers ++ r.payload)

abbrev epoch_bytes : Record → List ℕ
epoch_bytes r = if ltb 0 r.epoch then put_le 4 r.epoch else []

header_fields :
    (r : Record)
    → (slice 0 8 (record_body r) ≡ put_le 8 r.seq)
      × (slice 8 8 (record_body r) ≡ put_le 8 (to_word r.timestamp))
      × (slice 16 1 (record_body r) ≡ written_flags r ∷ [])
      × (slice 17 2 (record_body r) ≡ put_le 2 (length r.key))
      × (slice 19 4 (record_body r) ≡ put_le 4 (length (encode_headers r.headers)))
      × (slice 23 4 (record_body r) ≡ put_le 4 (length r.payload))
      × (drop 27 (record_body r) ≡ epoch_bytes r ++ tail_of r)
unfolding put_le
header_fields r = (refl, refl, refl, refl, refl, refl, refl)

pub length-record_body : (r : Record) → length (record_body r) ≡ body_len r
unfolding put_le
length-record_body r = ground (
  arith,
  length-append r.key (encode_headers r.headers ++ r.payload),
  length-append (encode_headers r.headers) r.payload,
)

-- The fixed header is 27 bytes, 31 with an epoch.
behind_header : (r : Record) → drop (body_header_size r) (record_body r) ≡ tail_of r
unfolding put_le
behind_header r = elim (Bool-cases (ltb 0 r.epoch)) [ inl e ↦ rw e refl | inr e ↦ rw e refl ]

decode_sized-whole :
    (body : List ℕ) (hdr kl hl pl : ℕ) (d : Decoded (Dict GoString GoString))
    → hdr + kl + hl + pl ≡ length body
    → decode_headers (slice (hdr + kl) hl body) ≡ d
    → decode_sized body hdr kl hl pl ≡ with_headers body hdr kl hl d
decode_sized-whole body hdr kl hl pl d whole headers = rw headers (ground (arith, whole))

-- The fixed header says how long the header is.
decode_record_body-sized :
    (body : List ℕ) (hdr : ℕ)
    → hdr ≡ (if has_flag 4 (of_le (slice 16 1 body)) then 31 else 27)
    → hdr ≤ length body
    → decode_record_body body
      ≡ decode_sized body hdr
          (of_le (slice 17 2 body))
          (of_le (slice 19 4 body))
          (of_le (slice 23 4 body))
unfolding decode_record_body
decode_record_body-sized body hdr size enough =
    elim (Bool-cases (has_flag 4 (of_le (slice 16 1 body)))) [
      | inl e ↦ let q : hdr ≡ 31 = ground (arith, size, e) in rw (q, e) (ground (arith, q, enough))
      | inr e ↦ let q : hdr ≡ 27 = ground (arith, size, e) in rw (q, e) (ground (arith, q, enough))
    ]

written_flags-bit : (r : Record) → Fits r → has_flag 4 (written_flags r) ≡ ltb 0 r.epoch
written_flags-bit r fits = ground (arith, fits.no_epoch_flag)

written_flags-cleared : (r : Record) → Fits r → clear_flag 4 (written_flags r) ≡ r.flags
written_flags-cleared r fits = ground (arith, fits.no_epoch_flag)

-- What the decoder slices out behind the header
variable_fields :
    (r : Record) (hdr : ℕ)
    → hdr ≡ body_header_size r
    → (slice hdr (length r.key) (record_body r) ≡ r.key)
      × (slice (hdr + length r.key) (length (encode_headers r.headers)) (record_body r)
          ≡ encode_headers r.headers)
      × (slice
            (hdr + length r.key + length (encode_headers r.headers))
            (length r.payload)
            (record_body r)
          ≡ r.payload)
variable_fields r hdr size =
    let hs = encode_headers r.headers in
    let behind : drop hdr (record_body r) ≡ tail_of r = rw size (behind_header r) in
    let past_key : drop (hdr + length r.key) (record_body r) ≡ hs ++ r.payload =
      drop-drop hdr (length r.key) (record_body r)
      ∙ rw behind (drop-append (length r.key) r.key (hs ++ r.payload) refl) in
    let past_headers : drop (hdr + length r.key + length hs) (record_body r) ≡ r.payload =
      drop-drop (hdr + length r.key) (length hs) (record_body r)
      ∙ rw past_key (drop-append (length hs) hs r.payload refl) in
    (
      rw behind (take-append (length r.key) r.key (hs ++ r.payload) refl),
      rw past_key (take-append (length hs) hs r.payload refl),
      rw past_headers (take_all r.payload),
    )

lengths :
    (r : Record)
    → length r.key < 65536
    → body_len r ≤ max_record_size
    → (of_le (slice 17 2 (record_body r)) ≡ length r.key)
      × (of_le (slice 19 4 (record_body r)) ≡ length (encode_headers r.headers))
      × (of_le (slice 23 4 (record_body r)) ≡ length r.payload)
lengths r small whole =
    let f = header_fields r in
    (
      ap of_le f.3 ∙ of_le-put_le 2 (length r.key) small,
      ap of_le f.4 ∙ of_le-put_le 4 (length (encode_headers r.headers)) (omega (arith, whole)),
      ap of_le f.5 ∙ of_le-put_le 4 (length r.payload) (omega (arith, whole)),
    )

flags_byte : (r : Record) → of_le (slice 16 1 (record_body r)) ≡ written_flags r
unfolding of_le
flags_byte r = ap of_le ((header_fields r).2) ∙ omega arith

if_then : {x z : ℕ} (b : Bool) → b ≡ true → x ≡ z → (if b then x else 0) ≡ z
if_then true e q = q
if_then false e q = absurd (ground (arith, e))

epoch_field :
    (r : Record)
    → Fits r
    → (if ltb 0 r.epoch then of_le (slice 27 4 (record_body r)) else 0) ≡ r.epoch
epoch_field r fits = elim (Bool-cases (ltb 0 r.epoch)) [
  | inl e ↦
      let bytes : slice 27 4 (record_body r) ≡ put_le 4 r.epoch =
        rw (header_fields r).6
          (rw e (take-append 4 (put_le 4 r.epoch) (tail_of r) (length-put_le 4 r.epoch))) in
      if_then (ltb 0 r.epoch) e (ap of_le bytes ∙ of_le-put_le 4 r.epoch fits.epoch)
  | inr e ↦ rw e (ground (arith, e))
]

-- The fixed fields, as the decoder reads them
with_headers-record_body :
    (r : Record) (hdr : ℕ)
    → hdr ≡ body_header_size r
    → Fits r
    → length r.key < 65536
    → body_len r ≤ max_record_size
    → with_headers
        (record_body r)
        hdr
        (length r.key)
        (length (encode_headers r.headers))
        (ok r.headers)
      ≡ ok r
with_headers-record_body r hdr size fits small whole =
    let f = header_fields r in
    let v = variable_fields r hdr size in
    let seq : of_le (slice 0 8 (record_body r)) ≡ r.seq =
      ap of_le f.0 ∙ of_le-put_le 8 r.seq fits.seq in
    let ts : of_word (of_le (slice 8 8 (record_body r))) ≡ r.timestamp =
      ap of_word (ap of_le f.1 ∙ of_le-put_le 8 (to_word r.timestamp) (to_word-bound r.timestamp))
      ∙ of_word-to_word r.timestamp fits.timestamp in
    rw
      (
        seq,
        ts,
        (lengths r small whole).2,
        v.0,
        v.2,
        flags_byte r,
        written_flags-cleared r fits,
        written_flags-bit r fits,
        epoch_field r fits,
      )
      refl

pub decode-record_body :
    (r : Record)
    → Fits r
    → length r.key < 65536
    → body_len r ≤ max_record_size
    → decode_record_body (record_body r) ≡ ok r
decode-record_body r fits small whole =
    let hdr = body_header_size r in
    let body = record_body r in
    let l = lengths r small whole in
    decode_record_body-sized body hdr (rw (flags_byte r, written_flags-bit r fits) refl)
      (ground (arith, length-record_body r))
    ∙ rw (l.0, l.1, l.2)
        (decode_sized-whole body hdr (length r.key) (length (encode_headers r.headers))
            (length r.payload) (ok r.headers) (sym (length-record_body r))
            (rw (variable_fields r hdr refl).1
              (decode-encode_headers r.headers fits.headers fits.distinct))
          ∙ with_headers-record_body r hdr refl fits small whole)
