-- ===== src/Stream/Partition/Follows.antt =====
-- What a read of a partition returns across its segments (internal/stream/partition.go, Read).
use boltq.Prelude.{
  ℕ, ◌+◌, ◌-◌, ◌≤◌, ◌<◌, ◌≡◌, ◌⊎◌, refl, sym, ap, ◌∙◌, List, [], ◌∷◌, ◌++◌, none, length,
  length-append, arith, false, true, ltb, ◌==◌, if◌then◌else◌, Cases, by_cases, inl, inr,
  Bool-cases, append_nil,
}
use boltq.Prelude.Words.{u64}
use boltq.Prelude.Bytes.{append_assoc}
use boltq.Stream.{Record}
use boltq.Stream.Segment.{Segment}
use boltq.Stream.Segment.Frames.{Holds, RunFrom}
use boltq.Stream.Partition.{Partition, seq_truncated}
use boltq.Stream.Partition.Reads.{
  sizes, next_from, read_segment, read_segments, read_partition, read_records, read_failed, joined,
}
use boltq.Stream.Partition.Chain.{Chain, IsLog, Chain-run}
use boltq.Stream.Partition.Parts.{later, Part, read_segment-Part}
use boltq.Stream.Partition.Later.{
  later-append, sizes-append, later_all, later_none, later_some, next_from-later, later-run,
  RunFrom-front,
}

-- A round of the loop over the segments.
read_segments-step :
    (s : Segment) (sealed : List Segment) (active : Segment) (from room max_bytes bytes : ℕ)
    (out : List Record)
    → (if ltb s.last_seq from then ([], none) else read_segment true s from room max_bytes bytes)
      ≡ (out, none)
    → read_segments true (s ∷ sealed) active from room max_bytes bytes
      ≡ joined
          (out, none)
          (read_segments true sealed active
            (next_from from out)
            (room - length out)
            max_bytes
            (bytes + sizes out))
unfolding read_segments
read_segments-step s sealed active from room max_bytes bytes out e = rw (read_segments, e) refl

-- With no room or no budget nothing more is read.
read_segments-stopped :
    (sealed : List Segment) (active : Segment) (from room max_bytes bytes : ℕ)
    → (room ≡ 0) ⊎ ((0 < max_bytes) × (max_bytes ≤ bytes))
    → read_segments true sealed active from room max_bytes bytes ≡ ([], none)
read_segments-stopped [] active from room max_bytes bytes over =
    unfold read_segments in ground (arith, over)
read_segments-stopped (s ∷ sealed) active from room max_bytes bytes over =
    read_segments-step s sealed active from room max_bytes bytes [] (ground (arith, over))
    ∙ ap (joined ([], none)) (
        read_segments-stopped sealed active from (room - 0) max_bytes (bytes + 0)
          (ground (arith, over)))

module _ (room max_bytes bytes : ℕ) (there more out : List Record) where
  -- A segment that was read to its end, and the ones behind it.
  Part-joined :
      (next : List Record)
      → Part room max_bytes bytes sizes there out
      → there ≡ out
      → Part (room - length out) max_bytes (bytes + sizes out) sizes more next
      → Part room max_bytes bytes sizes (there ++ more) (out ++ next)
  Part-joined next p whole q = record {
    left = q.left;
    split = rw whole (ap (λ t. out ++ t) q.split ∙ sym (append_assoc out next q.left));
    few = omega (arith, p.few, q.few, length-append out next);
    stop = elim q.stop [
      | inl e ↦ inl e
      | inr (inl e) ↦ inr (inl (omega (arith, e, length-append out next)))
      | inr (inr e) ↦ inr (inr (e.0, omega (arith, e.1, sizes-append out next)))
    ];
    moves = λ a b c. elim (Bool-cases (length out == 0)) [
      | inr some_out ↦ ground (arith, some_out, length-append out next)
      | inl none_out ↦
          let empty = nothing out (ground (arith, none_out)) in
          let spent : sizes out ≡ 0 = rw empty refl in
          let ahead : length there ≡ length out = ap length whole in
          ground (
            arith,
            none_out,
            length-append out next,
            q.moves (ground (arith, none_out, a))
                (ground (arith, b, none_out, ahead, length-append there more))
                (ground (arith, c, spent)),
          )
    ];
  }
    where
      nothing : (rs : List Record) → length rs ≡ 0 → rs ≡ []
      nothing [] e = refl
      nothing (r ∷ rs) e = absurd (omega (arith, e))

  -- A segment in which the read came to an end.
  Part-stopped :
      (p : Part room max_bytes bytes sizes there out)
      → (room ≤ length out) ⊎ ((0 < max_bytes) × (max_bytes ≤ bytes + sizes out))
      → Part room max_bytes bytes sizes (there ++ more) (out ++ [])
  Part-stopped p over = rw (append_nil out) (record {
    left = p.left ++ more;
    split = ap (λ t. t ++ more) p.split ∙ append_assoc out p.left more;
    few = p.few;
    stop = inr over;
    moves = λ a b c. spent_some out (ground (arith, over, a, c));
  })
    where
      spent_some : (rs : List Record) → (0 < length rs) ⊎ (0 < sizes rs) → 0 < length rs
      spent_some [] (inl e) = e
      spent_some [] (inr e) = absurd (omega (arith, e))
      spent_some (r ∷ rs) e = omega arith

-- An answer with its part of what is there
abbrev Answers : List Segment → Segment → ℕ → ℕ → ℕ → ℕ → List Record → Type 0
Answers sealed active from room max_bytes bytes rs =
    (out : List Record) × (read_segments true sealed active from room max_bytes bytes ≡ (out, none))
    × Part room max_bytes bytes sizes (later from rs) out

module _ (s : Segment) (sealed : List Segment) (active : Segment)
    (base from room max_bytes bytes : ℕ) (here rest : List Record) (h : Holds s here)
    (at : s.base_seq ≡ base) (some_here : 0 < length here)
    (c : Chain sealed active (base + length here) rest)
    (fits : base + length here + length rest < u64) where
  run_here : RunFrom base here
  run_here = rw (sym at) h.run

  run_rest : RunFrom (base + length here) rest
  run_rest = (Chain-run sealed active (base + length here) rest c).0

  passed_over :
      s.last_seq < from
      → Answers sealed active from (room - 0) max_bytes (bytes + 0) rest
      → Answers (s ∷ sealed) active from room max_bytes bytes (here ++ rest)
  passed_over past (out, e, part) =
      let none_here : later from here ≡ [] =
        later_none from base here run_here (omega (arith, past, h.last, at, some_here)) in
      (
        out,
        read_segments-step s sealed active from room max_bytes bytes [] (ground (arith, past))
            ∙ ap (joined ([], none)) e,
        rw (later-append from here rest) (
            Part-joined room max_bytes bytes (later from here) (later from rest) [] out
              (rw none_here (record {
                left = [];
                split = refl;
                few = omega arith;
                stop = inl refl;
                moves = λ a b c. absurd (omega (arith, b));
              }))
              none_here part),
      )

  read_whole :
      from ≤ s.last_seq
      → (out : List Record) → read_segment true s from room max_bytes bytes ≡ (out, none)
      → Part room max_bytes bytes sizes (later from here) out
      → later from here ≡ out
      → Answers sealed active
          (next_from from out)
          (room - length out)
          max_bytes
          (bytes + sizes out)
          rest
      → Answers (s ∷ sealed) active from room max_bytes bytes (here ++ rest)
  read_whole within out e p whole (next, e2, q) =
      let inside : from < base + length here = omega (arith, within, h.last, at, some_here) in
      let some_later = later_some from base here run_here inside some_here in
      let goes_on : next_from from out ≡ base + length here =
        ap (next_from from) (sym whole)
        ∙ next_from-later from from base here run_here (omega (arith, fits)) some_later in
      let all_rest : later (next_from from out) rest ≡ later from rest =
        later_all (next_from from out) (base + length here) rest run_rest (omega (arith, goes_on))
        ∙ sym (later_all from (base + length here) rest run_rest (omega (arith, inside))) in
      (
        out ++ next,
        read_segments-step s sealed active from room max_bytes bytes out
              (rw e (ground (arith, within)))
            ∙ ap (joined (out, none)) e2,
        rw (later-append from here rest) (
            Part-joined room max_bytes bytes (later from here) (later from rest) out next p whole
              (rw (sym all_rest) q)),
      )

  read_stopped :
      from ≤ s.last_seq
      → (out : List Record) → read_segment true s from room max_bytes bytes ≡ (out, none)
      → Part room max_bytes bytes sizes (later from here) out
      → (room ≤ length out) ⊎ ((0 < max_bytes) × (max_bytes ≤ bytes + sizes out))
      → Answers (s ∷ sealed) active from room max_bytes bytes (here ++ rest)
  read_stopped within out e p over = (
    out ++ [],
    read_segments-step s sealed active from room max_bytes bytes out (rw e (ground (arith, within)))
        ∙ ap (joined (out, none)) (
            read_segments-stopped sealed active (next_from from out) (room - length out) max_bytes
              (bytes + sizes out) (ground (arith, over))),
    rw (later-append from here rest)
        (Part-stopped room max_bytes bytes (later from here) (later from rest) out p over),
  )

read_segments-Part :
    (sealed : List Segment) (active : Segment) (base from room max_bytes bytes : ℕ)
    (rs : List Record)
    → Chain sealed active base rs
    → base + length rs < u64
    → Answers sealed active from room max_bytes bytes rs
read_segments-Part [] active base from room max_bytes bytes rs (h, e, w) fits =
    unfold read_segments in read_segment-Part active rs from room max_bytes bytes h
read_segments-Part (s ∷ sealed) active base from room max_bytes bytes rs
      (here, rest, split, h, e, some_here, c) fits =
    let fit : base + length here + length rest < u64 =
      omega (arith, fits, ap length split, length-append here rest) in
    rw split (elim (Bool-cases (ltb s.last_seq from)) [
      | inl past ↦
          passed_over s sealed active base from room max_bytes bytes here rest h e some_here c fit
            (ground (arith, past))
            (read_segments-Part sealed active (base + length here) from (room - 0) max_bytes
              (bytes + 0) rest c fit)
      | inr within ↦
          let (out, eo, p) = read_segment-Part s here from room max_bytes bytes h in
          elim p.stop [
            | inl ended ↦
                read_whole s sealed active base from room max_bytes bytes here rest h e some_here c
                  fit (ground (arith, within)) out eo p
                  (p.split ∙ ap (λ t. out ++ t) ended ∙ append_nil out)
                  (read_segments-Part sealed active (base + length here) (next_from from out)
                    (room - length out) max_bytes (bytes + sizes out) rest c fit)
            | inr over ↦
                read_stopped s sealed active base from room max_bytes bytes here rest h e some_here
                  c fit (ground (arith, within)) out eo p over
          ]
    ])

-- Where a read starts: 0 asks for the oldest record.
abbrev pub starts_at : Partition → ℕ → ℕ
starts_at p from_seq = if from_seq == 0 then p.first_seq else from_seq

-- 0 asks for the default number of records.
abbrev pub asked : ℕ → ℕ
asked max_records = if max_records == 0 then 100 else max_records

-- What a read gave: consecutive records from where it starts on, the first that the log has there,
-- which end before the log does only when the number or the bytes asked for are reached, and of
-- which there is one at least when the log has one.
pub record Reads (p : Partition) (rs : List Record) (from_seq max_records max_bytes : ℕ)
    : Type 0 where
  pub out : List Record
  pub answer : read_partition true p from_seq max_records max_bytes ≡ read_records out
  pub run : RunFrom (starts_at p from_seq) out
  pub part : Part (asked max_records) max_bytes 0 sizes (later (starts_at p from_seq) rs) out
  pub moves : 0 < length (later (starts_at p from_seq) rs) → 0 < length out

read_partition-Reads :
    (p : Partition) (rs : List Record) (from_seq max_records max_bytes : ℕ)
    → IsLog p rs
    → p.closed ≡ false
    → ltb (starts_at p from_seq) p.first_seq ≡ false
    → Reads p rs from_seq max_records max_bytes
read_partition-Reads p rs from_seq max_records max_bytes log live kept =
    let from = starts_at p from_seq in
    let room = asked max_records in
    let (out, e, part) =
      read_segments-Part p.sealed p.active p.first_seq from room max_bytes 0 rs log.chain
        (omega (arith, log.next, log.high)) in
    let run =
      later-run from p.first_seq rs (Chain-run p.sealed p.active p.first_seq rs log.chain).0
        (ground (arith, kept)) in
    record {
      out = out;
      answer = unfold read_partition in rw (live, kept, e) refl;
      run = RunFrom-front from out part.left (rw (sym part.split) run);
      part = part;
      moves = λ some_there. part.moves (ground arith) some_there (ground arith);
    }

-- A read of an open partition whose buffers can be flushed: below the first sequence it is told that
-- the records are gone; from there on it returns the next records of the log without a gap, across
-- its segments, and some whenever there are any.
pub read_partition_exact :
    (p : Partition) (rs : List Record) (from_seq max_records max_bytes : ℕ)
    → IsLog p rs
    → p.closed ≡ false
    → Cases
        (ltb (starts_at p from_seq) p.first_seq)
        (read_partition true p from_seq max_records max_bytes ≡ read_failed seq_truncated [])
        (Reads p rs from_seq max_records max_bytes)
read_partition_exact p rs from_seq max_records max_bytes log live =
    by_cases (ltb (starts_at p from_seq) p.first_seq)
      (λ below. unfold read_partition in rw (live, below) refl)
      λ kept. read_partition-Reads p rs from_seq max_records max_bytes log live kept
