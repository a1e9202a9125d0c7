-- ===== src/Cursor/Replay.antt =====
-- The cursor log read back (internal/stream/cursor.go).
use boltq.Prelude.{
  ℕ, zero, suc, ◌+◌, ◌^◌, ◌≤◌, ◌<◌, ◌≡◌, refl, sym, ap, ◌∙◌, true, List, [], ◌∷◌, ◌++◌, none, some,
  ◌==◌, if◌then◌else◌, GoString, string_eq, length, length-append, append_nil, arith, All,
  All-append,
}
use boltq.Prelude.Bytes.{
  put_le, of_le, of_le-put_le, length-put_le, append_assoc, read_full, read_full-append,
}
use boltq.Prelude.Crc.{crc32, crc32-bound}
use boltq.Prelude.Dict.{Dict, put}
use boltq.Cursor.{
  CursorKey, cursor_key, cursor_body, encode_cursor_record, parse_key, parse_body, parse_record,
  load, CursorStore, open_cursor_store, commit, commit_found, commit_new,
}

-- A record that its header can describe: a sequence of 64 bits, and a key of 65526 bytes at most.
abbrev pub FitsLog : GoString × ℕ → Type 0
FitsLog (key, seq) = (seq < 256 ^ 8) × (length key ≤ 65526)

length-cursor_body : (key : GoString) (seq : ℕ) → length (cursor_body key seq) ≡ 10 + length key
length-cursor_body key seq = omega (
  arith,
  length-append (put_le 8 seq) (put_le 2 (length key) ++ key),
  length-append (put_le 2 (length key)) key,
  length-put_le 8 seq,
  length-put_le 2 (length key),
)

parse_key-parts :
    (len : ℕ) (a b key rest : List ℕ)
    → length a ≡ 8
    → length b ≡ 2
    → parse_key len (a ++ (b ++ key)) rest
      ≡ (if 10 + of_le b == len then some ((key, of_le a), rest) else none)
unfolding parse_key
parse_key-parts len a b key rest ha hb =
    rw (parse_key, read_full-append 8 a (b ++ key) ha, read_full-append 2 b key hb) refl

parse_key-body :
    (key : GoString) (seq : ℕ) (rest : List ℕ)
    → FitsLog (key, seq)
    → parse_key (10 + length key) (cursor_body key seq) rest ≡ some ((key, seq), rest)
parse_key-body key seq rest fits =
    parse_key-parts (10 + length key) (put_le 8 seq) (put_le 2 (length key)) key rest
      (length-put_le 8 seq) (length-put_le 2 (length key))
    ∙ rw (of_le-put_le 2 (length key) (omega (arith, fits.1)), of_le-put_le 8 seq fits.0)
        (ground arith)

parse_body-body :
    (len : ℕ) (body rest : List ℕ)
    → length body ≡ len
    → 10 ≤ len
    → len ≤ 65536
    → parse_body (crc32 body) len (body ++ rest) ≡ parse_key len body rest
unfolding parse_body
parse_body-body len body rest h lo hi =
    rw (parse_body, read_full-append len body rest h) (ground (arith, lo, hi))

parse_record-parts :
    (a b r : List ℕ)
    → length a ≡ 4
    → length b ≡ 4
    → parse_record (a ++ (b ++ r)) ≡ parse_body (of_le a) (of_le b) r
unfolding parse_record
parse_record-parts a b r ha hb =
    rw (parse_record, read_full-append 4 a (b ++ r) ha, read_full-append 4 b r hb) refl

parse_record-encode :
    (key : GoString) (seq : ℕ) (rest : List ℕ)
    → FitsLog (key, seq)
    → parse_record (encode_cursor_record key seq ++ rest) ≡ some ((key, seq), rest)
unfolding encode_cursor_record
parse_record-encode key seq rest fits =
    let body = cursor_body key seq in
    let n = length-cursor_body key seq in
    ap parse_record (
      append_assoc (put_le 4 (crc32 body)) (put_le 4 (length body) ++ body) rest
      ∙ ap (λ t. put_le 4 (crc32 body) ++ t) (append_assoc (put_le 4 (length body)) body rest))
    ∙ parse_record-parts (put_le 4 (crc32 body)) (put_le 4 (length body)) (body ++ rest)
        (length-put_le 4 (crc32 body)) (length-put_le 4 (length body))
    ∙ rw
        (
          of_le-put_le 4 (crc32 body) (crc32-bound body),
          of_le-put_le 4 (length body) (omega (arith, n, fits.1)),
        )
        (parse_body-body (length body) body rest refl (omega (arith, n)) (omega (arith, n, fits.1))
          ∙ rw n (parse_key-body key seq rest fits))

abbrev pub encode_all : List (GoString × ℕ) → List ℕ
encode_all [] = []
encode_all ((key, seq) ∷ rs) = encode_cursor_record key seq ++ encode_all rs

abbrev pub replay_all : List (GoString × ℕ) → Dict GoString ℕ → Dict GoString ℕ
replay_all [] d = d
replay_all ((key, seq) ∷ rs) d = replay_all rs (put d key seq)

some-length : (key : GoString) (seq : ℕ) → 0 < length (encode_cursor_record key seq)
unfolding encode_cursor_record put_le
some-length key seq = omega arith

load-encode_all :
    (fuel : ℕ) (rs : List (GoString × ℕ)) (d : Dict GoString ℕ)
    → length (encode_all rs) ≤ fuel
    → All FitsLog rs
    → load fuel (encode_all rs) d ≡ replay_all rs d
unfolding load
load-encode_all zero [] d h fits = refl
load-encode_all (suc n) [] d h fits = unfold parse_record read_full in refl
load-encode_all zero ((key, seq) ∷ rs) d h fits = absurd (
    omega
      (arith, h, length-append (encode_cursor_record key seq) (encode_all rs), some-length key seq))
load-encode_all (suc n) ((key, seq) ∷ rs) d h fits =
    rw (parse_record-encode key seq (encode_all rs) fits.0) (
      load-encode_all n rs (put d key seq)
        (omega (
          arith,
          h,
          length-append (encode_cursor_record key seq) (encode_all rs),
          some-length key seq,
        ))
        fits.1)

encode_all-snoc :
    (rs : List (GoString × ℕ)) (key : GoString) (seq : ℕ)
    → encode_all (rs ++ (key, seq) ∷ []) ≡ encode_all rs ++ encode_cursor_record key seq
encode_all-snoc [] key seq = append_nil (encode_cursor_record key seq)
encode_all-snoc ((k, s) ∷ rs) key seq =
    ap (λ t. encode_cursor_record k s ++ t) (encode_all-snoc rs key seq)
    ∙ sym (append_assoc (encode_cursor_record k s) (encode_all rs) (encode_cursor_record key seq))

replay_all-snoc :
    (rs : List (GoString × ℕ)) (key : GoString) (seq : ℕ) (d : Dict GoString ℕ)
    → replay_all (rs ++ (key, seq) ∷ []) d ≡ put (replay_all rs d) key seq
replay_all-snoc [] key seq d = refl
replay_all-snoc ((k, s) ∷ rs) key seq d = replay_all-snoc rs key seq (put d k s)

-- The log holds the commits that made the positions.
record Logged (c : CursorStore) : Type 0 where
  commits : List (GoString × ℕ)
  fits : All FitsLog commits
  log : c.log ≡ encode_all commits
  positions : c.positions ≡ replay_all commits []

commit_new-Logged :
    (c : CursorStore) (key : GoString) (seq : ℕ)
    → FitsLog (key, seq)
    → Logged c
    → Logged (commit_new true c key seq).1
unfolding commit_new
commit_new-Logged c key seq fit l = record {
  commits = l.commits ++ (key, seq) ∷ [];
  fits = All-append FitsLog l.commits ((key, seq) ∷ []) l.fits (fit, tt);
  log = ap (λ t. t ++ encode_cursor_record key seq) l.log ∙ sym (encode_all-snoc l.commits key seq);
  positions = ap (λ d. put d key seq) l.positions ∙ sym (replay_all-snoc l.commits key seq []);
}

-- The cursor's key as text is short enough for its record, and the sequence is one of 64 bits.
abbrev pub FitsCursor : CursorKey × ℕ → Type 0
FitsCursor (key, seq) = FitsLog (cursor_key key, seq)

commit-Logged :
    (c : CursorStore) (key : CursorKey) (seq : ℕ)
    → FitsCursor (key, seq)
    → Logged c
    → Logged (commit true c key seq).1
unfolding commit commit_found
commit-Logged c key seq fit l = ground (arith, l, commit_new-Logged c (cursor_key key) seq fit l)

abbrev pub commit_all : CursorStore → List (CursorKey × ℕ) → CursorStore
commit_all c [] = c
commit_all c ((key, seq) ∷ rs) = commit_all (commit true c key seq).1 rs

commit_all-Logged :
    (c : CursorStore) (rs : List (CursorKey × ℕ))
    → All FitsCursor rs
    → Logged c
    → Logged (commit_all c rs)
commit_all-Logged c [] fits l = l
commit_all-Logged c ((key, seq) ∷ rs) fits l =
    commit_all-Logged (commit true c key seq).1 rs fits.1 (commit-Logged c key seq fits.0 l)

-- After any commits to a new cursor store that the disk took, reading the log back gives the
-- positions that the store holds, for keys of 65526 bytes at most.
pub reopen-commit_all :
    (rs : List (CursorKey × ℕ))
    → All FitsCursor rs
    → (open_cursor_store (commit_all (open_cursor_store []) rs).log).positions
      ≡ (commit_all (open_cursor_store []) rs).positions
unfolding open_cursor_store
reopen-commit_all rs fits =
    let l =
      commit_all-Logged (open_cursor_store []) rs fits
        record { commits = []; fits = tt; log = refl; positions = unfold load in refl } in
    rw (l.log, l.positions)
      (load-encode_all (length (encode_all l.commits)) l.commits [] (omega arith) l.fits)
