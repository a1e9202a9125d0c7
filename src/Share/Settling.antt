-- ===== src/Share/Settling.antt =====
-- Ack, Nack and the reaping of expired leases (internal/queuelog/share.go).
use boltq.Prelude.{
  ℕ, suc, Bool, not, ◌&&◌, ◌||◌, List, [], ◌∷◌, Option, none, some, ltb, leb, if◌then◌else◌,
  GoString, nat_eq, str_eq,
}
use boltq.Prelude.Dict.{get}
use boltq.Share.{
  rejected, delivered_without_ack, lease_expired_after, Outside, is_acquired, Entry, SharePartition,
  Error, partition_closed, unknown_delivery, not_holder, to_error, release, retire, advance,
  dead_letter,
}

module _ {E : Type 0} ⦃out : Outside E⦄ where
  abbrev pub answer : Bool × SharePartition E → Option Error × SharePartition E
  answer (ok, sp) = (to_error ok, sp)

  unfoldable pub ack_found :
      Option Entry → SharePartition E → GoString → ℕ → Option Error × SharePartition E
  ack_found none sp consumer seq = (some unknown_delivery, sp)
  ack_found (some e) sp consumer seq =
      if not (is_acquired e.state)
      then (some unknown_delivery, sp)
      else if not (str_eq e.holder consumer)
      then (some not_holder, sp)
      else answer (advance (record (retire sp seq) { acked = suc sp.acked }))

  unfoldable pub ack : SharePartition E → GoString → ℕ → Option Error × SharePartition E
  ack sp consumer seq =
      if sp.closed
      then (some partition_closed, sp)
      else ack_found (get sp.entries seq) sp consumer seq

  abbrev pub exhausted : SharePartition E → Entry → Bool
  exhausted sp e = ltb 0 sp.cfg.max_delivery && leb sp.cfg.max_delivery e.count

  unfoldable pub nack_held : SharePartition E → ℕ → Entry → Bool → Option Error × SharePartition E
  nack_held sp seq e requeue =
      if not requeue
      then answer (advance (dead_letter sp seq e rejected))
      else if exhausted sp e
      then answer (advance (dead_letter sp seq e (delivered_without_ack e.count)))
      else (none, release sp seq e)

  unfoldable pub nack_found :
      Option Entry → SharePartition E → GoString → ℕ → Bool → Option Error × SharePartition E
  unfolding nack_held
  nack_found none sp consumer seq requeue = (some unknown_delivery, sp)
  nack_found (some e) sp consumer seq requeue =
      if not (is_acquired e.state)
      then (some unknown_delivery, sp)
      else if not (str_eq e.holder consumer)
      then (some not_holder, sp)
      else nack_held (record sp { nacked = suc sp.nacked }) seq e requeue

  unfoldable pub nack : SharePartition E → GoString → ℕ → Bool → Option Error × SharePartition E
  unfolding nack_found
  nack sp consumer seq requeue =
      if sp.closed
      then (some partition_closed, sp)
      else nack_found (get sp.entries seq) sp consumer seq requeue

  unfoldable pub reap_found : Option Entry → ℕ → SharePartition E → ℕ → SharePartition E
  reap_found none seq sp now = sp
  reap_found (some e) seq sp now =
      let counted = record sp { expired = suc sp.expired } in
      if not (is_acquired e.state) || ltb now e.deadline
      then sp
      else if exhausted sp e
      then dead_letter counted seq e (lease_expired_after e.count)
      else release counted seq e

  -- Over the sequences of the entries, in the order in which the map gives them.
  unfoldable pub reap_all : List (ℕ × Entry) → SharePartition E → ℕ → SharePartition E
  unfolding reap_found
  reap_all [] sp now = sp
  reap_all ((seq, e) ∷ es) sp now = reap_all es (reap_found (get sp.entries seq) seq sp now) now

  -- reapExpiredLocked
  unfoldable pub reap_expired : SharePartition E → ℕ → SharePartition E
  unfolding reap_all
  reap_expired sp now = (advance (reap_all sp.entries sp now)).1
