-- ===== src/Share/Logs.antt =====
-- The stream partition as the share partition reads it: what internal/queuelog/share.go calls of
-- internal/stream/partition.go, filled in by the model of that file.
use boltq.Prelude.{
  ℕ, zero, suc, ◌-◌, ◌≤◌, ◌<◌, ◌≡◌, ◌≢◌, ◌⊎◌, refl, sym, ap, ◌∙◌, Bool, List, [], ◌∷◌, length,
  arith, false, true, none, ltb, if◌then◌else◌, inl, inr, Bool-cases, GoString, Cases, nat_eq,
}
use boltq.Prelude.Dict.{has, get}
use boltq.Stream.{Record}
use boltq.Stream.Segment.Frames.{RunFrom}
use boltq.Stream.Partition.{Partition, seq_truncated}
use boltq.Stream.Partition.Reads.{ReadAnswer, read_failed, read_records, read_from, read_partition}
use boltq.Stream.Partition.Chain.{IsLog, Chain-run}
use boltq.Stream.Partition.Later.{later_some}
use boltq.Stream.Partition.Parts.{later}
use boltq.Stream.Partition.Follows.{read_partition_exact, Reads, starts_at, asked}
use boltq.Share.{
  Log, ReadResult, truncated, failed, records, Consecutive, SharePartition, Outside, Delivery,
}
use boltq.Share.Acquiring.{round, ends, read_next, acquire}
use boltq.Share.Window.{IsWindow}
use boltq.Share.Carry.{held}
use boltq.Share.Complete.{acquire_complete}
use boltq.Share.Acquire.{acquire_exclusive}

-- errors.Is(err, stream.ErrSeqTruncated)
abbrev pub seen : ReadAnswer → ReadResult
seen (read_records rs) = records rs
seen (read_failed seq_truncated rs) = truncated
seen (read_failed _ rs) = failed

RunFrom-Consecutive : (from : ℕ) (rs : List Record) → RunFrom from rs → Consecutive from rs
RunFrom-Consecutive from [] run = tt
RunFrom-Consecutive from (r ∷ rs) run = (run.0, RunFrom-Consecutive (suc from) rs run.1)

module _ (p : Partition) (rs : List Record) (log : IsLog p rs) (live : p.closed ≡ false) where
  -- The two answers of an open partition.
  answers :
      (from n : ℕ)
      → (ltb (starts_at p from) p.first_seq ≡ true) × (seen (read_from true p from n) ≡ truncated)
        ⊎ (ltb (starts_at p from) p.first_seq ≡ false) × Reads p rs from n 4194304
  answers from n =
      by_answer (ltb (starts_at p from) p.first_seq) refl
        (read_partition_exact p rs from n 4194304 log live)
    where
      by_answer :
          (b : Bool)
          → ltb (starts_at p from) p.first_seq ≡ b
          → Cases b
              (read_partition true p from n 4194304 ≡ read_failed seq_truncated [])
              (Reads p rs from n 4194304)
          → (ltb (starts_at p from) p.first_seq ≡ true)
              × (seen (read_from true p from n) ≡ truncated)
            ⊎ (ltb (starts_at p from) p.first_seq ≡ false) × Reads p rs from n 4194304
      by_answer true e c = inl (e, ap seen c)
      by_answer false e c = inr (e, c)

  pub kept : (from n : ℕ) → p.first_seq ≤ from → seen (read_from true p from n) ≡ truncated → ⊥
  kept from n le e = elim (answers from n) [
    | inl (low, _) ↦ ground (arith, low, le, log.low)
    | inr (_, r) ↦ ground (arith, e, ap seen r.answer)
  ]

  pub ordered :
      (from n : ℕ) (out : List Record)
      → 0 < from
      → 0 < n
      → seen (read_from true p from n) ≡ records out
      → Consecutive from out × (length out ≤ n)
  ordered from n out some_from some_n e = elim (answers from n) [
    | inl (_, t) ↦ absurd (ground (arith, e, t))
    | inr (_, r) ↦
        let same : records r.out ≡ records out = sym (ap seen r.answer) ∙ e in
        let out_is : r.out ≡ out = cc in
        let start : starts_at p from ≡ from = ground (arith, some_from) in
        let many : asked n ≡ n = ground (arith, some_n) in
        rw (sym out_is)
          (RunFrom-Consecutive from r.out (rw start at r.run), omega (arith, r.part.few, many))
  ]

  -- The interface that the share partition is proved over.
  abbrev pub partition_log : Log
  partition_log = record {
    first_seq = p.first_seq;
    numbered = log.low;
    read_from = λ from n. seen (read_from true p from n);
    kept_back = kept;
    in_order = ordered;
  }

  -- An open partition does not fail a read.
  reads : (from n : ℕ) → seen (read_from true p from n) ≢ failed
  reads from n e = elim (answers from n) [
    | inl (_, t) ↦ ground (arith, e, t)
    | inr (_, r) ↦ ground (arith, e, ap seen r.answer)
  ]

  -- An empty answer from the log's records on is given at its end only.
  at_end : (from n : ℕ) → 0 < from → seen (read_from true p from n) ≡ records [] → p.next_seq ≤ from
  at_end from n some_from e = elim (answers from n) [
    | inl (_, t) ↦ absurd (ground (arith, e, t))
    | inr (low, r) ↦
        let same : records r.out ≡ records [] = sym (ap seen r.answer) ∙ e in
        let nothing : r.out ≡ [] = cc in
        let start : starts_at p from ≡ from = ground (arith, some_from) in
        elim (Bool-cases (ltb from p.next_seq)) [
          | inr over ↦ ground (arith, over)
          | inl inside ↦
              let run = (Chain-run p.sealed p.active p.first_seq rs log.chain).0 in
              let above : p.first_seq ≤ from = ground (arith, low, start) in
              let some_there : 0 < length (later from rs) =
                later_some from p.first_seq rs run (ground (arith, inside, log.next))
                  (ground (arith, inside, log.next, above)) in
              let some_out = r.moves (rw start some_there) in
              absurd (ground (arith, some_out, ap length nothing))
        ]
  ]

  round-ends :
      (room from n : ℕ)
      → 0 < from
      → round room (seen (read_from true p from n)) ≡ ends true
      → (room ≡ 0) ⊎ (p.next_seq ≤ from)
  round-ends room from n some_from e =
      by_room room (seen (read_from true p from n)) e (at_end from n some_from)
    where
      by_room :
          (room : ℕ) (r : ReadResult)
          → round room r ≡ ends true
          → (r ≡ records [] → p.next_seq ≤ from)
          → (room ≡ 0) ⊎ (p.next_seq ≤ from)
      by_room zero r e last = inl refl
      by_room (suc room) truncated e last = unfold round in absurd (ground (arith, e))
      by_room (suc room) failed e last = unfold round in absurd (ground (arith, e))
      by_room (suc room) (records []) e last = inr (last refl)
      by_room (suc room) (records (r ∷ rs)) e last = unfold round in absurd (ground (arith, e))

  module _ {E : Type 0} ⦃out : Outside E⦄ where
    -- The window has no room, or the last record of the stream is in it.
    abbrev pub Exhausted : ℕ → List Delivery → SharePartition E → Type 0
    Exhausted want ds end =
        (length ds ≡ want)
        ⊎ (((s : ℕ) → has end.entries s ≡ true → held (get end.entries s) ≡ true)
            × ((end.cfg.max_in_flight ≤ end.next - end.base) ⊎ (p.next_seq ≤ end.next)))

    -- A consumer that asks an open share partition over an open stream partition for records gets
    -- no error, and as many as it asked for, unless no record waits to be handed out again and the
    -- window is full or has reached the end of the stream.
    pub acquire_partition :
        (sp : SharePartition E) (consumer : GoString) (want now : ℕ)
        → IsWindow sp
        → sp.closed ≡ false
        → ((acquire sp consumer (suc want) now partition_log).0.1 ≡ none)
          × Exhausted
              (suc want)
              (acquire sp consumer (suc want) now partition_log).0.0
              (acquire sp consumer (suc want) now partition_log).1
    acquire_partition sp consumer want now w opened =
        let window = (acquire_exclusive sp consumer (suc want) now partition_log w).window in
        let done = acquire_complete sp consumer want now partition_log w opened reads in
        (
          done.0,
          elim done.1 [
            | inl all ↦ inl all
            | inr (busy, (n, some_n, e)) ↦
                let end = (acquire sp consumer (suc want) now partition_log).1 in
                let last =
                  let room = end.cfg.max_in_flight - (end.next - end.base) in
                  round-ends room end.next (if ltb room n then room else n)
                    (omega (arith, window.positive, window.ordered)) (unfold read_next in e) in
                inr (busy, elim last [ inl full ↦ inl (omega (arith, full)) | inr over ↦ inr over ])
          ],
        )
