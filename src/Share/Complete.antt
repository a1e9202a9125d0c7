-- ===== src/Share/Complete.antt =====
-- When acquire (internal/queuelog/share.go) returns fewer records than it is asked for.
use boltq.Prelude.{
  ℕ, zero, suc, ◌+◌, ◌-◌, ◌≤◌, ◌<◌, ◌≡◌, ◌≢◌, refl, ap, ◌∙◌, Bool, true, false, List, [], ◌∷◌, ◌++◌,
  none, some, ltb, if◌then◌else◌, nat_eq, arith, Bool-cases, inl, inr, GoString, length,
  length-append, Option-cases, ◌⊎◌, elem,
}
use boltq.Prelude.Dict.{get, has}
use boltq.Stream.{Record}
use boltq.Share.{
  SharePartition, Outside, Delivery, Log, ReadResult, truncated, failed, lease, commit_base,
  is_acquired,
}
use boltq.Share.Settling.{reap_expired}
use boltq.Share.Acquiring.{
  ends, skips, leases, round, read_next, redeliver, pop_min, leasable, lease_fresh, skip_to, fetch,
  finish, acquire_open, acquire,
}
use boltq.Share.Window.{IsWindow, reap_expired-IsWindow}
use boltq.Share.Carry.{held, skip_to-Carries}
use boltq.Share.Fetch.{taken, fetch-Leasing, lease_fresh-Leasing, read_next-leases, Round-cases}
use boltq.Share.Lease.{redeliver-Leasing}

pop_min-none : (heap : List ℕ) → pop_min heap ≡ none → heap ≡ []
unfolding pop_min
pop_min-none [] h = refl
pop_min-none (s ∷ ss) h = elim (Option-cases (pop_min ss)) [
  | inl empty ↦ absurd (ground (arith, h, empty))
  | inr ((k, more), p) ↦ absurd (ground (arith, h, p))
]

length-pop_min :
    (heap : List ℕ) (m : ℕ) (rest : List ℕ)
    → pop_min heap ≡ some (m, rest)
    → suc (length rest) ≡ length heap
unfolding pop_min
length-pop_min [] m rest h = absurd (ground (arith, h))
length-pop_min (s ∷ ss) m rest h = elim (Option-cases (pop_min ss)) [
  | inl empty ↦ ground (arith, h, empty, pop_min-none ss empty)
  | inr ((k, more), p) ↦ ground (arith, h, p, length-pop_min ss k more p)
]

length-zero : (heap : List ℕ) → length heap ≤ 0 → heap ≡ []
length-zero [] h = refl
length-zero (s ∷ ss) h = absurd (omega arith)

module _ {E : Type 0} where
  redeliver_complete :
      (n want : ℕ) (consumer : GoString) (now : ℕ) (sp : SharePartition E)
      → length sp.heap ≤ n
      → (length (redeliver n want consumer now sp).0 ≡ want)
        ⊎ ((redeliver n want consumer now sp).1.heap ≡ [])
  unfolding redeliver lease
  redeliver_complete zero want consumer now sp h = inr (length-zero sp.heap h)
  redeliver_complete (suc n) zero consumer now sp h = inl refl
  redeliver_complete (suc n) (suc want) consumer now sp h = elim (Option-cases (pop_min sp.heap)) [
    | inl empty ↦ rw empty (inr (pop_min-none sp.heap empty))
    | inr ((seq, rest), p) ↦ elim (Option-cases (leasable sp seq)) [
      | inl stale ↦
          rw (p, stale)
            (redeliver_complete n (suc want) consumer now (record sp { heap = rest })
              (omega (arith, h, length-pop_min sp.heap seq rest p)))
      | inr (e, fresh) ↦
          let m = (lease (record sp { heap = rest }) seq e consumer now).1 in
          rw (p, fresh)
            (elim (redeliver_complete n want consumer now m
              (omega (arith, h, length-pop_min sp.heap seq rest p))) [
                | inl all ↦ inl (ap suc all)
                | inr empty ↦ inr empty
              ])
    ]
  ]

  redeliver-le :
      (n want : ℕ) (consumer : GoString) (now : ℕ) (sp : SharePartition E)
      → length (redeliver n want consumer now sp).0 ≤ want
  unfolding redeliver
  redeliver-le zero want consumer now sp = omega arith
  redeliver-le (suc n) zero consumer now sp = omega arith
  redeliver-le (suc n) (suc want) consumer now sp = elim (Option-cases (pop_min sp.heap)) [
    | inl empty ↦ rw empty (omega arith)
    | inr ((seq, rest), p) ↦ elim (Option-cases (leasable sp seq)) [
      | inl stale ↦
          rw (p, stale) (redeliver-le n (suc want) consumer now (record sp { heap = rest }))
      | inr (e, fresh) ↦
          rw (p, fresh)
            (omega (
              arith,
              redeliver-le n want consumer now
                  (lease (record sp { heap = rest }) seq e consumer now).1,
            ))
    ]
  ]

  lease_fresh-next :
      (want : ℕ) (rs : List Record) (consumer : GoString) (now : ℕ) (sp : SharePartition E)
      → (sp.next ≤ (lease_fresh want rs consumer now sp).1.next)
        × (length (lease_fresh want rs consumer now sp).0 ≤ want)
        × ((lease_fresh want rs consumer now sp).1.heap ≡ sp.heap)
  unfolding lease_fresh lease
  lease_fresh-next want [] consumer now sp = (omega arith, omega arith, refl)
  lease_fresh-next zero (r ∷ rs) consumer now sp = (omega arith, omega arith, refl)
  lease_fresh-next (suc want) (r ∷ rs) consumer now sp =
      ground (arith, lease_fresh-next want rs consumer now (taken sp r consumer now).1)

round-skips : (room : ℕ) (r : ReadResult) → round room r ≡ skips → r ≡ truncated
unfolding round
round-skips room r h = ground (arith, h)

round-fails : (room : ℕ) (r : ReadResult) → round room r ≡ ends false → r ≡ failed
unfolding round
round-fails room r h = ground (arith, h)

round-leases-some :
    (room : ℕ) (r : ReadResult) (rs : List Record) → round room r ≡ leases rs → 0 < length rs
unfolding round
round-leases-some room r [] h = absurd (ground (arith, h))
round-leases-some room r (x ∷ xs) h = omega arith

module _ {E : Type 0} where
  lease_fresh-some :
      (want : ℕ) (rs : List Record) (consumer : GoString) (now : ℕ) (sp : SharePartition E)
      → 0 < length rs
      → 0 < length (lease_fresh (suc want) rs consumer now sp).0
  unfolding lease_fresh
  lease_fresh-some want [] consumer now sp h = absurd (omega arith)
  lease_fresh-some want (r ∷ rs) consumer now sp h = omega arith

module _ {E : Type 0} ⦃out : Outside E⦄ where
  -- There is nothing more to lease: the window is full, or the log gives no record at `next`.
  abbrev pub CaughtUp : Log → SharePartition E → Type 0
  CaughtUp log sp = (want : ℕ) × (0 < want) × (read_next sp want log ≡ ends true)

  skip_to-next :
      (sp : SharePartition E) (first : ℕ)
      → IsWindow sp
      → (first ≤ (skip_to sp first).next) × ((skip_to sp first).heap ≡ sp.heap)
  unfolding skip_to commit_base
  skip_to-next sp first w = ground (arith, w.ordered)

  read_next-skips :
      (sp : SharePartition E) (want : ℕ) (log : Log)
      → read_next sp want log ≡ skips
      → sp.next < log.first_seq
  unfolding read_next
  read_next-skips sp want log e = elim (Bool-cases (ltb sp.next log.first_seq)) [
    | inl low ↦ ground (arith, low)
    | inr high ↦ absurd (log.kept_back sp.next _ (ground (arith, high)) (round-skips _ _ e))
  ]

  abbrev owed : Log → SharePartition E → ℕ
  owed log sp = if ltb sp.next log.first_seq then 1 else 0

  fetch_complete :
      (n want : ℕ) (consumer : GoString) (now : ℕ) (log : Log) (sp : SharePartition E)
      → IsWindow sp
      → ((from k : ℕ) → log.read_from from k ≢ failed)
      → want + owed log sp < n
      → ((fetch n want consumer now log sp).1.0 ≡ true)
        × ((fetch n want consumer now log sp).1.1.heap ≡ sp.heap)
        × ((length (fetch n want consumer now log sp).0 ≡ want)
            ⊎ CaughtUp log (fetch n want consumer now log sp).1.1)
  unfolding fetch
  fetch_complete zero want consumer now log sp w reads fuel = absurd (omega arith)
  fetch_complete (suc n) zero consumer now log sp w reads fuel = (refl, refl, inl refl)
  fetch_complete (suc n) (suc want) consumer now log sp w reads fuel =
      elim (Round-cases (read_next sp (suc want) log)) [
        | inl (true, e) ↦ rw e (refl, refl, inr (suc want, omega arith, e))
        | inl (false, e) ↦ absurd (reads _ _ (unfold read_next in round-fails _ _ e))
        | inr (inl e) ↦
            let next = skip_to-next sp log.first_seq w in
            let low = read_next-skips sp (suc want) log e in
            let c = skip_to-Carries sp log.first_seq w in
            let rest =
              fetch_complete n (suc want) consumer now log (skip_to sp log.first_seq) c.window reads
                (ground (arith, fuel, low, next.0)) in
            rw e (rest.0, rest.1 ∙ next.1, rest.2)
        | inr (inr (rs, e)) ↦
            let got = lease_fresh (suc want) rs consumer now sp in
            let next = lease_fresh-next (suc want) rs consumer now sp in
            let more =
              lease_fresh-some want rs consumer now sp
                (unfold read_next in round-leases-some _ _ rs e) in
            let fits = read_next-leases sp (suc want) log rs w (omega arith) e in
            let window =
              (lease_fresh-Leasing (suc want) rs 0 consumer now _ sp w refl fits.0
                fits.1).0.window in
            let rest =
              fetch_complete n (suc want - length got.0) consumer now log got.1 window reads
                (ground (arith, fuel, next.0, next.1, more)) in
            rw e (
              rest.0,
              rest.1 ∙ next.2,
              elim rest.2 [
                | inl all ↦ inl (length-append got.0 _ ∙ omega (arith, all, next.1))
                | inr caught ↦ inr caught
              ],
            )
      ]

  -- A call that leases fewer records than it was asked for leaves none that waits, and finds the
  -- window full or the log at its end.
  abbrev pub Exhaustive : Log → ℕ → List Delivery → SharePartition E → Type 0
  Exhaustive log want ds end =
      (length ds ≡ want)
      ⊎ (((s : ℕ) → has end.entries s ≡ true → held (get end.entries s) ≡ true) × CaughtUp log end)

  all-held :
      (sp : SharePartition E) (s : ℕ)
      → IsWindow sp
      → sp.heap ≡ []
      → has sp.entries s ≡ true
      → held (get sp.entries s) ≡ true
  all-held sp s w empty h = elim (Option-cases (get sp.entries s)) [
    | inl absent ↦ absurd (ground (arith, h, absent))
    | inr (e, found) ↦ elim (Bool-cases (is_acquired e.state)) [
      | inl busy ↦ rw found busy
      | inr idle ↦ absurd (unfold elem in ground (arith, w.waiting s e found idle, empty))
    ]
  ]

  fetch-le :
      (n want : ℕ) (consumer : GoString) (now : ℕ) (log : Log) (sp : SharePartition E)
      → want ≡ 0
      → length (fetch n want consumer now log sp).0 ≡ 0
  unfolding fetch
  fetch-le zero want consumer now log sp e = refl
  fetch-le (suc n) zero consumer now log sp e = refl
  fetch-le (suc n) (suc want) consumer now log sp e = absurd (omega (arith, e))

  finish-Exhaustive :
      (ds : List Delivery) (ok : Bool) (b : SharePartition E) (log : Log) (want : ℕ)
      → ok ≡ true
      → Exhaustive log want ds b
      → ((finish ds ok b).0.1 ≡ none) × Exhaustive log want (finish ds ok b).0.0 (finish ds ok b).1
  unfolding finish read_next
  finish-Exhaustive ds true b log want e (inl all) = (refl, inl all)
  finish-Exhaustive ds true b log want e (inr (busy, caught)) = (refl, inr (busy, caught))
  finish-Exhaustive ds false b log want e h = absurd (ground (arith, e))

  acquire_open_complete :
      (sp : SharePartition E) (consumer : GoString) (want now : ℕ) (log : Log)
      → IsWindow sp
      → ((from k : ℕ) → log.read_from from k ≢ failed)
      → ((acquire_open sp consumer want now log).0.1 ≡ none)
        × Exhaustive log want
            (acquire_open sp consumer want now log).0.0
            (acquire_open sp consumer want now log).1
  unfolding acquire_open
  acquire_open_complete sp consumer want now log w reads =
      let again = redeliver (length sp.heap) want consumer now sp in
      let heap = redeliver_complete (length sp.heap) want consumer now sp (omega arith) in
      let one = redeliver-Leasing (length sp.heap) want 0 consumer now _ sp w refl in
      let two =
        fetch_complete (suc (suc want)) (want - length again.0) consumer now log again.1
          one.0.window reads (ground arith) in
      let window =
        (fetch-Leasing (suc (suc want)) (want - length again.0) consumer now _ log again.1
          one.0.window refl).0.window in
      let fresh = fetch (suc (suc want)) (want - length again.0) consumer now log again.1 in
      finish-Exhaustive (again.0 ++ fresh.0) fresh.1.0 fresh.1.1 log want two.0 (elim two.2 [
        | inl all ↦ inl (
            length-append again.0 fresh.0
            ∙ omega (arith, all, redeliver-le (length sp.heap) want consumer now sp))
        | inr caught ↦ elim heap [
          | inl all ↦ inl (
              length-append again.0 fresh.0
              ∙ omega (
                arith,
                all,
                fetch-le (suc (suc want)) (want - length again.0) consumer now log again.1
                    (omega (arith, all)),
              ))
          | inr empty ↦ inr (λ s. all-held fresh.1.1 s window (two.1 ∙ empty), caught)
        ]
      ])

  acquire-open :
      (sp : SharePartition E) (consumer : GoString) (want now : ℕ) (log : Log)
      → sp.closed ≡ false
      → acquire sp consumer (suc want) now log
        ≡ acquire_open (reap_expired sp now) consumer (suc want) now log
  unfolding acquire
  acquire-open sp consumer want now log opened = rw opened refl

  -- Asked for at least one record, on an open partition whose log can be read, acquire returns
  -- without an error, and with as many records as it is asked for unless it has nothing to give:
  -- every record in the window is then leased, and the window is full or the log has no record at
  -- `next`. So no released record is stuck, and the fuel of the loops suffices.
  pub acquire_complete :
      (sp : SharePartition E) (consumer : GoString) (want now : ℕ) (log : Log)
      → IsWindow sp
      → sp.closed ≡ false
      → ((from k : ℕ) → log.read_from from k ≢ failed)
      → ((acquire sp consumer (suc want) now log).0.1 ≡ none)
        × Exhaustive log
            (suc want)
            (acquire sp consumer (suc want) now log).0.0
            (acquire sp consumer (suc want) now log).1
  acquire_complete sp consumer want now log w opened reads =
      rw (acquire-open sp consumer want now log opened) (
        acquire_open_complete (reap_expired sp now) consumer (suc want) now log
          (reap_expired-IsWindow sp now w) reads)
