-- ===== src/Stream/Headers.antt =====
-- The headers of a record written and read back (internal/stream/record.go).
use boltq.Prelude.{
  ℕ, zero, suc, ◌+◌, ◌≤◌, ◌<◌, ◌≡◌, ◌≢◌, refl, sym, ap, ◌∙◌, List, [], ◌∷◌, ◌++◌, none, GoString,
  string_eq, length, length-append, drop, take-append, drop-append, arith, All, append_nil,
  length-drop-le, str_eq, false, if◌then◌else◌, ltb,
}
use boltq.Prelude.Bytes.{put_le, of_le, of_le-put_le, length-put_le, append_assoc}
use boltq.Prelude.Dict.{Dict, get, put, Unique}
use boltq.Stream.Codec.{
  ok, corrupt, stuck, encode_headers, decode_headers_loop, decode_headers, prefix, prefixed,
  past_prefixed,
}

past_prefixed-le : (bs : List ℕ) → length (past_prefixed bs) ≤ length bs
unfolding past_prefixed
past_prefixed-le bs = omega (arith, length-drop-le (prefix bs) (drop 2 bs), length-drop-le 2 bs)

past_prefixed-lt : (b : ℕ) (bs : List ℕ) → length (past_prefixed (b ∷ bs)) ≤ length bs
unfolding past_prefixed
past_prefixed-lt b bs =
    omega (arith, length-drop-le (prefix (b ∷ bs)) (drop 1 bs), length-drop-le 1 bs)

decode_headers_loop-ends :
    (fuel : ℕ) (buf : List ℕ) (h : Dict GoString GoString)
    → length buf ≤ fuel
    → decode_headers_loop fuel buf h ≢ stuck
unfolding decode_headers_loop
decode_headers_loop-ends fuel [] h le = ground arith
decode_headers_loop-ends zero (b ∷ bs) h le = absurd (omega arith)
decode_headers_loop-ends (suc fuel) (b ∷ bs) h le =
    let buf = b ∷ bs in
    let after_k = past_prefixed buf in
    ground (
      arith,
      decode_headers_loop-ends fuel (past_prefixed after_k)
          (put h (prefixed buf) (prefixed after_k))
          (omega (arith, le, past_prefixed-le after_k, past_prefixed-lt b bs)),
    )

-- The loop over the headers of a record ends for every input: each round consumes bytes of it.
pub decode_headers_ends : (buf : List ℕ) → decode_headers buf ≢ stuck
unfolding decode_headers
decode_headers_ends buf = decode_headers_loop-ends (length buf) buf [] (omega arith)

put-absent :
    (d : Dict GoString GoString) (k v : GoString) → get d k ≡ none → put d k v ≡ d ++ (k, v) ∷ []
unfolding get put
put-absent [] k v h = refl
put-absent ((j, w) ∷ d) k v h = ground (arith, h, put-absent d k v)

abbrev put_all : Dict GoString GoString → Dict GoString GoString → Dict GoString GoString
put_all acc [] = acc
put_all acc ((k, v) ∷ h) = put_all (put acc k v) h

get-append_at :
    (acc h : Dict GoString GoString) (k v : GoString) (j : GoString)
    → get (acc ++ (k, v) ∷ h) j ≡ none
    → str_eq k j ≡ false
unfolding get
get-append_at [] h k v j e = ground (arith, e)
get-append_at ((i, w) ∷ acc) h k v j e = get-append_at acc h k v j (ground (arith, e))

absent-front :
    (acc h : Dict GoString GoString) (k v : GoString)
    → Unique (acc ++ (k, v) ∷ h)
    → get acc k ≡ none
unfolding get
absent-front [] h k v u = refl
absent-front ((j, w) ∷ acc) h k v u =
    ground
      (arith, u.0, absent-front acc h k v u.1, get-append_at acc h k v j, string_eq.beq_iff j k)

put_all-append : (acc h : Dict GoString GoString) → Unique (acc ++ h) → put_all acc h ≡ acc ++ h
put_all-append acc [] u = sym (append_nil acc)
put_all-append acc ((k, v) ∷ h) u =
    let q = put-absent acc k v (absent-front acc h k v u) in
    let s = append_assoc acc ((k, v) ∷ []) h in
    rw q (put_all-append (acc ++ (k, v) ∷ []) h (rw s u) ∙ s)

-- Keys and values whose length two bytes hold.
abbrev pub FitsHeader : GoString × GoString → Type 0
FitsHeader (k, v) = (length k < 65536) × (length v < 65536)

length-prefix_append :
    (k r : List ℕ) → length (put_le 2 (length k) ++ (k ++ r)) ≡ 2 + length k + length r
length-prefix_append k r = omega (
  arith,
  length-append (put_le 2 (length k)) (k ++ r),
  length-append k r,
  length-put_le 2 (length k),
)

module _ (k r : List ℕ) (fits : length k < 65536) where
  abbrev written : List ℕ
  written = put_le 2 (length k) ++ (k ++ r)

  prefix-put : prefix written ≡ length k
  prefix-put =
      ap of_le (take-append 2 (put_le 2 (length k)) (k ++ r) (length-put_le 2 (length k)))
      ∙ of_le-put_le 2 (length k) fits

  behind : drop 2 written ≡ k ++ r
  behind = drop-append 2 (put_le 2 (length k)) (k ++ r) (length-put_le 2 (length k))

  prefixed-put : prefixed written ≡ k
  unfolding prefixed
  prefixed-put = rw (prefix-put, behind) (take-append (length k) k r refl)

  past_prefixed-put : past_prefixed written ≡ r
  unfolding past_prefixed
  past_prefixed-put = rw (prefix-put, behind) (drop-append (length k) k r refl)

round_of :
    (fuel : ℕ) (buf : List ℕ) (acc : Dict GoString GoString)
    → 0 < length buf
    → decode_headers_loop (suc fuel) buf acc ≡ (
        if ltb (length buf) 2
        then corrupt
        else if ltb (length (drop 2 buf)) (prefix buf + 2)
        then corrupt
        else if ltb (length (drop 2 (past_prefixed buf))) (prefix (past_prefixed buf))
        then corrupt
        else decode_headers_loop fuel
            (past_prefixed (past_prefixed buf))
            (put acc (prefixed buf) (prefixed (past_prefixed buf))))
unfolding decode_headers_loop
round_of fuel [] acc h = absurd (omega (arith, h))
round_of fuel (b ∷ bs) acc h = refl

round-encode :
    (fuel : ℕ) (k v : GoString) (rest : List ℕ) (acc : Dict GoString GoString)
    → FitsHeader (k, v)
    → decode_headers_loop
        (suc fuel)
        (put_le 2 (length k) ++ (k ++ (put_le 2 (length v) ++ (v ++ rest))))
        acc
      ≡ decode_headers_loop fuel rest (put acc k v)
round-encode fuel k v rest acc fits =
    let tail = put_le 2 (length v) ++ (v ++ rest) in
    let buf = put_le 2 (length k) ++ (k ++ tail) in
    let n = length-prefix_append k tail in
    let m = length-prefix_append v rest in
    round_of fuel buf acc (omega (arith, n))
    ∙ rw
        (
          prefix-put k tail fits.0,
          behind k tail fits.0,
          prefixed-put k tail fits.0,
          past_prefixed-put k tail fits.0,
          prefix-put v rest fits.1,
          behind v rest fits.1,
          prefixed-put v rest fits.1,
          past_prefixed-put v rest fits.1,
        )
        (ground (arith, n, m, length-append k tail, length-append v rest))

decode_headers_loop-encode :
    (fuel : ℕ) (h acc : Dict GoString GoString)
    → length (encode_headers h) ≤ fuel
    → All FitsHeader h
    → decode_headers_loop fuel (encode_headers h) acc ≡ ok (put_all acc h)
unfolding encode_headers decode_headers_loop
decode_headers_loop-encode fuel [] acc le fits = refl
decode_headers_loop-encode zero ((k, v) ∷ h) acc le fits =
    absurd
      (omega (arith, le, length-prefix_append k (put_le 2 (length v) ++ (v ++ encode_headers h))))
decode_headers_loop-encode (suc n) ((k, v) ∷ h) acc le fits =
    round-encode n k v (encode_headers h) acc fits.0
    ∙ decode_headers_loop-encode n h (put acc k v)
        (omega (
          arith,
          le,
          length-prefix_append k (put_le 2 (length v) ++ (v ++ encode_headers h)),
          length-prefix_append v (encode_headers h),
        ))
        fits.1

-- The headers of a map are read back as they were written.
pub decode-encode_headers :
    (h : Dict GoString GoString)
    → All FitsHeader h
    → Unique h
    → decode_headers (encode_headers h) ≡ ok h
unfolding decode_headers
decode-encode_headers h fits u =
    decode_headers_loop-encode (length (encode_headers h)) h [] (omega arith) fits
    ∙ ap ok (put_all-append [] h u)
