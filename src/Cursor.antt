-- ===== src/Cursor.antt =====
-- The cursor store (internal/stream/cursor.go): reader positions and the log that they are read back
-- from. `log` is the file with what is still buffered for it; whether a write to it succeeds is an
-- argument. Commit and Position hold the store's mutex; compaction, in the background, is left out.
pub mod Replay
pub mod Commits
pub mod Examples
use boltq.Prelude.{
  ℕ, zero, suc, ◌+◌, ◌*◌, ◌/◌, ◌%◌, Bool, true, false, not, ◌||◌, List, [], ◌∷◌, ◌++◌, Option, none,
  some, ltb, leb, ◌==◌, if◌then◌else◌, GoString, string_eq, length,
}
use boltq.Prelude.Words.{u32}
use boltq.Prelude.Bytes.{put_le, of_le, read_full}
use boltq.Prelude.Int.{ℤ}
use boltq.Prelude.Decimal.{decimal_ℤ}
use boltq.Prelude.Crc.{crc32}
use boltq.Prelude.Dict.{Dict, get, put, maybe}

pub record CursorKey : Type 0 where
  pub topic : GoString
  pub partition : ℤ
  pub group : GoString
  pub member : GoString

-- `String`
unfoldable pub cursor_key : CursorKey → GoString
cursor_key k = k.topic ++ (0 ∷ (decimal_ℤ k.partition ++ (0 ∷ (k.group ++ (0 ∷ k.member)))))

abbrev pub cursor_body : GoString → ℕ → List ℕ
cursor_body key seq = put_le 8 seq ++ (put_le 2 (length key) ++ key)

unfoldable pub encode_cursor_record : GoString → ℕ → List ℕ
encode_cursor_record key seq =
    let body = cursor_body key seq in put_le 4 (crc32 body) ++ (put_le 4 (length body) ++ body)

-- The rounds of `load`: none where the loop breaks
unfoldable pub parse_key : ℕ → List ℕ → List ℕ → Option ((GoString × ℕ) × List ℕ)
parse_key len body rest =
    maybe none
      (λ (seq, r).
        maybe none
          (λ (key_len, key).
            if 10 + of_le key_len == len then some ((key, of_le seq), rest) else none)
          (read_full 2 r))
      (read_full 8 body)

unfoldable pub parse_body : ℕ → ℕ → List ℕ → Option ((GoString × ℕ) × List ℕ)
parse_body checksum len r =
    if ltb len 10 || ltb 65536 len
    then none
    else maybe none
        (λ (body, rest). if not (crc32 body == checksum) then none else parse_key len body rest)
        (read_full len r)

unfoldable pub parse_record : List ℕ → Option ((GoString × ℕ) × List ℕ)
parse_record bs =
    maybe none
      (λ (checksum, r).
        maybe none (λ (len, rest). parse_body (of_le checksum) (of_le len) rest) (read_full 4 r))
      (read_full 4 bs)

-- On fuel: each round takes a record from the log.
unfoldable pub load : ℕ → List ℕ → Dict GoString ℕ → Dict GoString ℕ
load zero bs positions = positions
load (suc n) bs positions =
    maybe positions (λ ((key, seq), rest). load n rest (put positions key seq)) (parse_record bs)

pub record CursorStore : Type 0 where
  pub positions : Dict GoString ℕ
  pub log : List ℕ
  pub size : ℕ
  pub closed : Bool
  pub dirty : Bool

unfoldable pub open_cursor_store : List ℕ → CursorStore
unfolding load
open_cursor_store log = record {
  positions = load (length log) log [];
  log = log;
  size = length log;
  closed = false;
  dirty = false;
}

pub data CursorError : Type 0 where
  cursor_closed : CursorError
  write_cursor : CursorError

unfoldable pub commit_new : Bool → CursorStore → GoString → ℕ → Option CursorError × CursorStore
commit_new disk c key seq =
    let rec = encode_cursor_record key seq in
    let set_c = record c { positions = put c.positions key seq } in
    if disk
    then (none, record set_c { log = c.log ++ rec; size = c.size + length rec; dirty = true })
    else (some write_cursor, set_c)

unfoldable pub commit_found :
    Option ℕ → Bool → CursorStore → GoString → ℕ → Option CursorError × CursorStore
unfolding commit_new
commit_found none disk c key seq = commit_new disk c key seq
commit_found (some cur) disk c key seq =
    if leb seq cur then (none, c) else commit_new disk c key seq

unfoldable pub commit : Bool → CursorStore → CursorKey → ℕ → Option CursorError × CursorStore
unfolding commit_found
commit disk c key seq =
    let k = cursor_key key in
    if c.closed then (some cursor_closed, c) else commit_found (get c.positions k) disk c k seq

unfoldable pub position : CursorStore → CursorKey → Option ℕ
position c key = get c.positions (cursor_key key)

pub position_or : CursorStore → CursorKey → ℕ → ℕ
unfolding position
position_or c key def = maybe def (λ seq. seq) (position c key)
