-- ===== src/Stream/Segment/Scanned.antt =====
-- The scan of a recovery over whole records (internal/stream/segment.go, recover).
use boltq.Prelude.{
  ℕ, zero, suc, ◌+◌, ◌-◌, ◌≤◌, ◌<◌, ◌≡◌, ◌⊎◌, refl, ap, ◌∙◌, List, [], ◌∷◌, ◌++◌, length,
  length-append, arith, All, inl, inr,
}
use boltq.Prelude.Bytes.{append_assoc}
use boltq.Prelude.Crc.{crc32}
use boltq.Stream.{Record}
use boltq.Stream.Codec.{record_body}
use boltq.Stream.Segment.{frame, eof, torn, bad_length, read_frame}
use boltq.Stream.Segment.Recovery.{recover_loop}
use boltq.Stream.Segment.Frames.{
  frames, frame_record, Stored, RunFrom, length-frame_of, read_frame-record, seq-of_body,
}

-- Bytes with no whole frame at their start.
abbrev pub Stops : List ℕ → Type 0
Stops bs = (read_frame bs ≡ eof) ⊎ ((read_frame bs ≡ torn) ⊎ (read_frame bs ≡ bad_length))

recover_loop-Stops :
    (fuel : ℕ) (bs : List ℕ) (last pos : ℕ) → Stops bs → recover_loop fuel bs last pos ≡ (last, pos)
unfolding recover_loop
recover_loop-Stops zero bs last pos st = refl
recover_loop-Stops (suc fuel) bs last pos (inl e) = rw (recover_loop, e) refl
recover_loop-Stops (suc fuel) bs last pos (inr (inl e)) = rw (recover_loop, e) refl
recover_loop-Stops (suc fuel) bs last pos (inr (inr e)) = rw (recover_loop, e) refl

recover_loop-frame :
    (fuel last pos : ℕ) (bs : List ℕ) (r : Record) (rest : List ℕ)
    → Stored r
    → read_frame bs ≡ frame (crc32 (record_body r)) (record_body r) rest
    → recover_loop (suc fuel) bs last pos
      ≡ recover_loop fuel rest r.seq (pos + length (frame_record r))
unfolding recover_loop
recover_loop-frame fuel last pos bs r rest st e =
    let n : pos + 8 + length (record_body r) ≡ pos + length (frame_record r) =
      omega (arith, length-frame_of (record_body r)) in
    rw (recover_loop, e, seq-of_body r st, n) (ground arith)

pub pairs : {a b c d : ℕ} → a ≡ c → b ≡ d → ◌≡◌ {A = ℕ × ℕ} (a, b) (c, d)
pairs p q = cc (p, q)

-- Over whole records the scan reaches their end, with the last of their sequences.
pub recover_loop-frames :
    (fuel n last pos : ℕ) (rs : List Record) (tail : List ℕ)
    → length (frames rs ++ tail) ≤ fuel
    → All Stored rs
    → RunFrom n rs
    → 0 < n
    → last ≡ n - 1
    → Stops tail
    → recover_loop fuel (frames rs ++ tail) last pos ≡ (n + length rs - 1, pos + length (frames rs))
recover_loop-frames fuel n last pos [] tail h st run low start stop =
    recover_loop-Stops fuel tail last pos stop ∙ pairs (omega (arith, start)) (omega arith)
recover_loop-frames zero n last pos (r ∷ rs) tail h st run low start stop = absurd (
    omega (
      arith,
      h,
      length-frame_of (record_body r),
      length-append (frame_record r) (frames rs),
      length-append (frames (r ∷ rs)) tail,
    ))
recover_loop-frames (suc fuel) n last pos (r ∷ rs) tail h st run low start stop =
    let rest : List ℕ = frames rs ++ tail in
    let e = append_assoc (frame_record r) (frames rs) tail in
    let n0 = length-append (frame_record r) (frames rs) in
    ap (λ t. recover_loop (suc fuel) t last pos) e
    ∙ recover_loop-frame fuel last pos (frame_record r ++ rest) r rest st.0
        (read_frame-record r st.0 rest)
    ∙ recover_loop-frames fuel (suc n) r.seq (pos + length (frame_record r)) rs tail
        (omega (
          arith,
          h,
          length-frame_of (record_body r),
          ap length e,
          length-append (frame_record r) rest,
        ))
        st.1 run.1 (omega arith) (omega (arith, run.0)) stop
    ∙ pairs (omega arith) (omega (arith, n0))
