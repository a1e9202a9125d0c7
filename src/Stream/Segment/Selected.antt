-- ===== src/Stream/Segment/Selected.antt =====
-- What a read of a segment returns (internal/stream/segment.go, read).
use boltq.Prelude.{
  ℕ, zero, suc, ◌+◌, ◌≤◌, ◌<◌, ◌≡◌, ◌⊎◌, refl, sym, ap, ◌∙◌, List, [], ◌∷◌, ◌++◌, none, length,
  length-append, arith, All, true, ltb, leb, ◌&&◌, if◌then◌else◌, inl, inr, Bool-cases,
}
use boltq.Stream.{Record}
use boltq.Stream.Codec.{body_len, record_body}
use boltq.Stream.RoundTrip.{length-record_body}
use boltq.Stream.Segment.{Segment, seek_pos, read_frame, frame}
use boltq.Prelude.Crc.{crc32}
use boltq.Prelude.Bytes.{read_full}
use boltq.Stream.Segment.Reading.{read, read_loop}
use boltq.Stream.Segment.Frames.{
  frames, Stored-behind, frame_record, frames-append, Holds, Stored, RunFrom, length-frame_of,
  read_frame-record, decode-stored, seq-of_body,
}
use boltq.Stream.Segment.Seek.{seek_pos-StartsAt, scanned-frames}

-- The records at `from` or later, as many as `room`, up to the one with which the bodies reach
-- `max_bytes` when that is not 0; `bytes` have been taken before.
unfoldable pub selected : ℕ → ℕ → ℕ → ℕ → List Record → List Record
selected from room max_bytes bytes [] = []
selected from zero max_bytes bytes (r ∷ rs) = []
selected from (suc room) max_bytes bytes (r ∷ rs) =
    let total = bytes + body_len r in
    let early = ltb r.seq from in
    let rest =
      selected from (if early then suc room else room) max_bytes (if early then bytes else total)
        rs in
    if early then rest else if ltb 0 max_bytes && leb max_bytes total then r ∷ [] else r ∷ rest

read_loop-frame :
    (fuel from room max_bytes bytes : ℕ) (bs : List ℕ) (r : Record) (rest : List ℕ)
    → Stored r
    → read_frame bs ≡ frame (crc32 (record_body r)) (record_body r) rest
    → read_loop (suc fuel) bs from (suc room) max_bytes bytes ≡ (
        let early = ltb r.seq from in
        let more =
          read_loop fuel rest from
            (if early then suc room else room)
            max_bytes
            (if early then bytes else bytes + body_len r) in
        if early
        then more
        else if ltb 0 max_bytes && leb max_bytes (bytes + body_len r)
        then (r ∷ [], none)
        else (r ∷ more.0, more.1))
unfolding read_loop
read_loop-frame fuel from room max_bytes bytes bs r rest st e =
    rw (read_loop, e, seq-of_body r st, length-record_body r, decode-stored r st) (ground arith)

read_loop-frames :
    (fuel from room max_bytes bytes : ℕ) (rs : List Record)
    → length (frames rs) < fuel
    → All Stored rs
    → read_loop fuel (frames rs) from room max_bytes bytes
      ≡ (selected from room max_bytes bytes rs, none)
unfolding read_loop selected
read_loop-frames zero from room max_bytes bytes rs h st = absurd (omega arith)
read_loop-frames (suc fuel) from zero max_bytes bytes [] h st = refl
read_loop-frames (suc fuel) from zero max_bytes bytes (r ∷ rs) h st = refl
read_loop-frames (suc fuel) from (suc room) max_bytes bytes [] h st =
    unfold read_frame read_full in refl
read_loop-frames (suc fuel) from (suc room) max_bytes bytes (r ∷ rs) h st =
    let early = ltb r.seq from in
    let fuel_left : length (frames rs) < fuel =
      omega
        (arith, h, length-append (frame_record r) (frames rs), length-frame_of (record_body r)) in
    let rest =
      read_loop-frames fuel from (if early then suc room else room) max_bytes
        (if early then bytes else bytes + body_len r) rs fuel_left st.1 in
    read_loop-frame fuel from room max_bytes bytes (frames (r ∷ rs)) r (frames rs) st.0
      (read_frame-record r st.0 (frames rs))
    ∙ rw rest (ground arith)

selected-skip :
    (base from room max_bytes bytes : ℕ) (ahead behind : List Record)
    → RunFrom base (ahead ++ behind)
    → (length ahead ≡ 0) ⊎ (base + length ahead ≤ from)
    → selected from room max_bytes bytes (ahead ++ behind)
      ≡ selected from room max_bytes bytes behind
unfolding selected
selected-skip base from room max_bytes bytes [] behind run early = refl
selected-skip base from zero max_bytes bytes (r ∷ ahead) [] run early = refl
selected-skip base from zero max_bytes bytes (r ∷ ahead) (q ∷ behind) run early = refl
selected-skip base from (suc room) max_bytes bytes (r ∷ ahead) behind run early =
    let passed : base + suc (length ahead) ≤ from = ground (arith, early) in
    let skip : ltb r.seq from ≡ true = ground (arith, run.0, passed) in
    rw skip (
      selected-skip (suc base) from (suc room) max_bytes bytes ahead behind run.1
        (inr (omega (arith, passed))))

selected_nil : (from room max_bytes bytes : ℕ) → selected from room max_bytes bytes [] ≡ []
unfolding selected
selected_nil from room max_bytes bytes = refl

no_frames : (rs : List Record) → length (frames rs) ≡ 0 → rs ≡ []
no_frames [] h = refl
no_frames (r ∷ rs) h =
    absurd (
      omega (arith, h, length-append (frame_record r) (frames rs), length-frame_of (record_body r)))

-- A read of a segment returns, in order and without an error, the records at the sequence or later
-- that it holds: as many as were asked for, and no more after the bodies reach the budget of bytes.
pub read_exact :
    (s : Segment) (rs : List Record) (from max_records max_bytes : ℕ)
    → Holds s rs
    → read true s from max_records max_bytes ≡ (selected from max_records max_bytes 0 rs, none)
unfolding read
read_exact s rs from max_records max_bytes h =
    let st = seek_pos-StartsAt s rs from h in
    let bytes = scanned-frames s rs from h st in
    let skip =
      selected-skip s.base_seq from max_records max_bytes 0 st.ahead st.behind
        (rw (sym st.split) h.run) st.early in
    let stored = Stored-behind st.ahead st.behind (rw (sym st.split) h.stored) in
    let total : length (frames rs) ≡ length (frames st.ahead) + length (frames st.behind) =
      ap (λ t. length (frames t)) st.split
      ∙ ap length (frames-append st.ahead st.behind)
      ∙ length-append (frames st.ahead) (frames st.behind) in
    elim (Bool-cases (leb s.size (seek_pos s from))) [
      | inl past ↦
          let left : st.behind ≡ [] =
            no_frames st.behind (ground (arith, past, total, h.size, st.position)) in
          let nothing : selected from max_records max_bytes 0 rs ≡ [] =
            ap (selected from max_records max_bytes 0) st.split
            ∙ skip
            ∙ ap (selected from max_records max_bytes 0) left
            ∙ selected_nil from max_records max_bytes 0 in
          rw (past, nothing) (ground arith)
      | inr inside ↦
          let answer =
            read_loop-frames (suc (length (frames st.behind))) from max_records max_bytes 0
              st.behind (omega arith) stored in
          let all : selected from max_records max_bytes 0 rs
              ≡ selected from max_records max_bytes 0 st.behind =
            ap (selected from max_records max_bytes 0) st.split ∙ skip in
          rw (inside, bytes, answer, all) (ground arith)
    ]
