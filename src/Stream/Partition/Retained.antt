-- ===== src/Stream/Partition/Retained.antt =====
-- What retention leaves of a partition (internal/stream/partition.go, EnforceRetention).
use boltq.Prelude.{
  ℕ, suc, ◌+◌, ◌-◌, ◌≡◌, refl, sym, ap, ◌∙◌, Bool, List, [], ◌∷◌, ◌++◌, Option, none, length,
  length-append, arith, false, true, leb, ◌&&◌, ◌==◌, if◌then◌else◌, inl, inr, Bool-cases, drop,
}
use boltq.Prelude.Int.{ℤ, pos, ◌-ℤ◌}
use boltq.Prelude.Bytes.{append_assoc}
use boltq.Epoch.{EpochCache, EpochError, flush_locked, truncate_before_seq, first_after}
use boltq.Stream.{Record}
use boltq.Stream.Segment.{Segment}
use boltq.Stream.Partition.{Partition, PartitionError}
use boltq.Stream.Partition.Chain.{Chain, IsLog}
use boltq.Stream.Partition.Cuts.{flush_locked-none}
use boltq.Stream.Partition.Trims.{
  drop_due, next_segment, without_oldest, retention_loop, enforce_retention,
}

truncate_before_seq-none : (c : EpochCache) (seq : ℕ) → (truncate_before_seq true c seq).0 ≡ none
unfolding truncate_before_seq
truncate_before_seq-none c seq =
    picked (leb (first_after seq c.entries) 1)
      (flush_locked true (record c { entries = drop (first_after seq c.entries - 1) c.entries }))
      (flush_locked-none (record c { entries = drop (first_after seq c.entries - 1) c.entries }))
  where
    picked :
        (b : Bool) (q : Option EpochError × EpochCache)
        → q.0 ≡ none
        → (if b then (none, c) else q).0 ≡ none
    picked true q e = refl
    picked false q e = e

-- The partition with its log cut at the front, if at all.
pub record Retains (p : Partition) (rs : List Record) (step : ℕ × Option PartitionError × Partition)
    : Type 0 where
  pub gone : List Record
  pub left : List Record
  pub split : rs ≡ gone ++ left
  pub log : IsLog step.2 left
  pub no_error : step.1 ≡ none
  pub first : step.2.first_seq ≡ p.first_seq + length gone
  pub next : step.2.next_seq ≡ p.next_seq

unchanged : (p : Partition) (rs : List Record) → IsLog p rs → Retains p rs (0, none, p)
unchanged p rs log = record {
  gone = [];
  left = rs;
  split = refl;
  log = log;
  no_error = refl;
  first = omega arith;
  next = refl;
}

Chain-next :
    (sealed : List Segment) (active : Segment) (base : ℕ) (rs : List Record)
    → Chain sealed active base rs
    → (next_segment sealed active).base_seq ≡ base
Chain-next [] active base rs (h, e, w) = e
Chain-next (s ∷ sealed) active base rs (here, rest, split, h, e, some_here, c) = e

retention_loop-step :
    (cutoff : ℤ) (s : Segment) (sealed : List Segment) (p : Partition)
    → drop_due cutoff p (next_segment sealed p.active) ≡ true
    → let epochs = (truncate_before_seq true p.epochs (next_segment sealed p.active).base_seq).1 in
      let more = retention_loop true true cutoff sealed (without_oldest p s sealed epochs) in
      retention_loop true true cutoff (s ∷ sealed) p ≡ (suc more.0, more.1, more.2)
unfolding retention_loop
retention_loop-step cutoff s sealed p due =
    let none_failed = truncate_before_seq-none p.epochs (next_segment sealed p.active).base_seq in
    rw (due, none_failed) refl

retention_loop-stops :
    (cutoff : ℤ) (s : Segment) (sealed : List Segment) (p : Partition)
    → drop_due cutoff p (next_segment sealed p.active) ≡ false
    → retention_loop true true cutoff (s ∷ sealed) p ≡ (0, none, p)
unfolding retention_loop
retention_loop-stops cutoff s sealed p kept = rw kept refl

retention_loop-Retains :
    (cutoff : ℤ) (sealed : List Segment) (p : Partition) (rs : List Record)
    → Chain sealed p.active p.first_seq rs
    → IsLog p rs
    → Retains p rs (retention_loop true true cutoff sealed p)
retention_loop-Retains cutoff [] p rs chain log = unfold retention_loop in unchanged p rs log
retention_loop-Retains cutoff (s ∷ sealed) p rs (here, rest, split, h, e, some_here, c) log =
    elim (Bool-cases (drop_due cutoff p (next_segment sealed p.active))) [
      | inr kept ↦ rw (retention_loop-stops cutoff s sealed p kept) (unchanged p rs log)
      | inl due ↦
          let first = Chain-next sealed p.active (p.first_seq + length here) rest c in
          let q =
            without_oldest p s sealed
              (truncate_before_seq true p.epochs (next_segment sealed p.active).base_seq).1 in
          let chain : Chain sealed p.active q.first_seq rest = rw first c in
          let q_log : IsLog q rest = record {
            chain = chain;
            next = omega (arith, first, log.next, ap length split, length-append here rest);
            low = omega (arith, first, log.low);
            high = log.high;
          } in
          let more = retention_loop-Retains cutoff sealed q rest chain q_log in
          rw (retention_loop-step cutoff s sealed p due) (record {
            gone = here ++ more.gone;
            left = more.left;
            split =
                split
                ∙ ap (λ t. here ++ t) more.split
                ∙ sym (append_assoc here more.gone more.left);
            log = more.log;
            no_error = more.no_error;
            first = omega (arith, more.first, first, length-append here more.gone);
            next = more.next;
          })
    ]

-- Retention drops records from the front of the log only: what is left is the rest of the log, with
-- the first sequence moved past what went and the next sequence as it was, when the epoch checkpoint
-- can be written and the files of a segment can be removed.
pub enforce_retention-Retains :
    (now : ℤ) (p : Partition) (rs : List Record)
    → IsLog p rs
    → Retains p rs (enforce_retention true true now p)
unfolding enforce_retention
enforce_retention-Retains now p rs log =
    picked (p.cfg.retention_bytes == 0 && p.cfg.retention_age == 0) p.closed
  where
    cutoff : ℤ
    cutoff = if p.cfg.retention_age == 0 then pos 0 else now -ℤ pos p.cfg.retention_age

    picked :
        (off closed : Bool)
        → Retains p rs (
            if off
            then (0, none, p)
            else if closed
            then (0, none, p)
            else retention_loop true true cutoff p.sealed p)
    picked true closed = unchanged p rs log
    picked false true = unchanged p rs log
    picked false false = retention_loop-Retains cutoff p.sealed p rs log.chain log
