-- ===== src/Share/Acquiring.antt =====
-- acquire and its two phases (internal/queuelog/share.go).
use boltq.Prelude.{
  ℕ, zero, suc, ◌+◌, ◌-◌, Bool, true, false, not, List, [], ◌∷◌, ◌++◌, Option, none, some, ltb, leb,
  if◌then◌else◌, GoString, nat_eq, length,
}
use boltq.Stream.{Record}
use boltq.Prelude.Dict.{get, put, keep, maybe}
use boltq.Share.{
  ReadResult, truncated, failed, records, Log, Outside, available, is_acquired, Entry,
  SharePartition, Error, partition_closed, read_failed, Delivery, lease, commit_base,
}
use boltq.Share.Settling.{reap_expired}

-- heap.Pop: the least sequence, and the others
unfoldable pub pop_min : List ℕ → Option (ℕ × List ℕ)
pop_min [] = none
pop_min (s ∷ ss) =
    maybe (some (s, [])) (λ (m, rest). if leb s m then some (s, ss) else some (m, s ∷ rest))
      (pop_min ss)

-- What a round of phase 2 does: end without or with an error, skip, or lease the records read.
pub data Round : Type 0 where
  ends : Bool → Round
  skips : Round
  leases : List Record → Round

-- The round for this much room in the window, and this read.
unfoldable pub round : ℕ → ReadResult → Round
round zero r = ends true
round (suc room) truncated = skips
round (suc room) failed = ends false
round (suc room) (records []) = ends true
round (suc room) (records (r ∷ rs)) = leases (r ∷ rs)

abbrev pub by_round {ℓ} : {A : Type ℓ} → (Bool → A) → A → (List Record → A) → Round → A
by_round end skip lease (ends ok) = end ok
by_round end skip lease skips = skip
by_round end skip lease (leases rs) = lease rs

module _ {E : Type 0} where
  -- Phase 1 of acquire: the oldest released record whose heap entry is not stale.
  unfoldable pub leasable : SharePartition E → ℕ → Option Entry
  leasable sp seq =
      maybe none (λ e. if is_acquired e.state then none else some e) (get sp.entries seq)

  -- On fuel: each round takes one sequence from the heap.
  unfoldable pub redeliver :
      ℕ → ℕ → GoString → ℕ → SharePartition E → List Delivery × SharePartition E
  unfolding leasable
  redeliver zero want consumer now sp = ([], sp)
  redeliver (suc n) zero consumer now sp = ([], sp)
  redeliver (suc n) (suc want) consumer now sp =
      maybe ([], sp)
        (λ (seq, rest).
          maybe (redeliver n (suc want) consumer now (record sp { heap = rest }))
            (λ e.
              let (d, leased) = lease (record sp { heap = rest }) seq e consumer now in
              let (ds, end) = redeliver n want consumer now leased in (d ∷ ds, end))
            (leasable sp seq))
        (pop_min sp.heap)

  -- The records of one read, at most `want` of them.
  unfoldable pub lease_fresh :
      ℕ → List Record → GoString → ℕ → SharePartition E → List Delivery × SharePartition E
  lease_fresh want [] consumer now sp = ([], sp)
  lease_fresh zero (r ∷ rs) consumer now sp = ([], sp)
  lease_fresh (suc want) (r ∷ rs) consumer now sp =
      let e : Entry = record { rec = r; state = available; count = 0; deadline = 0; holder = [] } in
      let added = record sp {
        entries = put sp.entries r.seq e;
        next = if leb sp.next r.seq then suc r.seq else sp.next;
      } in
      let (d, leased) = lease added r.seq e consumer now in
      let (ds, end) = lease_fresh want rs consumer now leased in (d ∷ ds, end)

module _ {E : Type 0} ⦃out : Outside E⦄ where
  -- Deletes what is below `seq`, as skipToLocked does with both maps.
  unfoldable pub skip_to : SharePartition E → ℕ → SharePartition E
  unfolding commit_base
  skip_to sp seq =
      let skipped = record sp {
        entries = keep (λ s e. not (ltb s seq)) sp.entries;
        retired = keep (λ s u. not (ltb s seq)) sp.retired;
        base = seq;
        next = if ltb sp.next seq then seq else sp.next;
      } in
      if leb seq sp.base then sp else if sp.has_cursors then (commit_base skipped).1 else skipped

  unfoldable pub read_next : SharePartition E → ℕ → Log → Round
  read_next sp want log =
      let room = sp.cfg.max_in_flight - (sp.next - sp.base) in
      round room (log.read_from sp.next (if ltb room want then room else want))

  -- Phase 2 of acquire, on fuel: each round reads records, or is the last, or follows a skip.
  unfoldable pub fetch :
      ℕ → ℕ → GoString → ℕ → Log → SharePartition E → List Delivery × (Bool × SharePartition E)
  unfolding read_next
  fetch zero want consumer now log sp = ([], (true, sp))
  fetch (suc n) zero consumer now log sp = ([], (true, sp))
  fetch (suc n) (suc want) consumer now log sp =
      by_round (λ ok. ([], (ok, sp)))
        (fetch n (suc want) consumer now log (skip_to sp log.first_seq))
        (λ rs.
          let (ds, leased) = lease_fresh (suc want) rs consumer now sp in
          let (more, (ok, end)) = fetch n (suc want - length ds) consumer now log leased in
          (ds ++ more, (ok, end)))
        (read_next sp (suc want) log)

  -- A failed read is reported only where no record was leased; the records leased are then not
  -- counted as delivered.
  unfoldable pub finish :
      List Delivery → Bool → SharePartition E → (List Delivery × Option Error) × SharePartition E
  finish ds true sp = ((ds, none), record sp { delivered = sp.delivered + length ds })
  finish [] false sp = (([], some read_failed), sp)
  finish (d ∷ ds) false sp = ((d ∷ ds, none), sp)

  unfoldable pub acquire_open :
      SharePartition E → GoString → ℕ → ℕ → Log → (List Delivery × Option Error) × SharePartition E
  unfolding redeliver fetch finish
  acquire_open sp consumer want now log =
      let (again, sp1) = redeliver (length sp.heap) want consumer now sp in
      let (fresh, (ok, sp2)) = fetch (suc (suc want)) (want - length again) consumer now log sp1 in
      finish (again ++ fresh) ok sp2

  unfoldable pub acquire :
      SharePartition E → GoString → ℕ → ℕ → Log → (List Delivery × Option Error) × SharePartition E
  unfolding acquire_open
  acquire sp consumer zero now log = (([], none), sp)
  acquire sp consumer (suc want) now log =
      if sp.closed
      then (([], some partition_closed), sp)
      else acquire_open (reap_expired sp now) consumer (suc want) now log
