-- ===== src/Share/Lease.antt =====
-- The two ways in which acquire (internal/queuelog/share.go) leases: released records from the heap,
-- and records that the log gave.
use boltq.Prelude.{
  ℕ, zero, suc, ◌+◌, ◌≡◌, refl, sym, ap, ◌∙◌, Bool, false, ◌||◌, List, [], ◌∷◌, Option, none, some,
  ◌==◌, if◌then◌else◌, nat_eq, arith, Bool-cases, All, Option-cases, inl, inr, GoString, elem,
}
use boltq.Prelude.Dict.{get, put, get-put, get-put_self}
use boltq.Share.{Entry, SharePartition, ShareConfig, Delivery, is_acquired, acquired, lease}
use boltq.Share.Acquiring.{redeliver, leasable, pop_min}
use boltq.Share.Window.{IsWindow}
use boltq.Share.Carry.{
  Carries, Carries-refl, Carries-trans, Delivered, Delivered-later, Delivered-earlier,
}

abbrev in_pop : ℕ → Option (ℕ × List ℕ) → Bool
in_pop s none = false
in_pop s (some (m, rest)) = (m == s) || elem s rest

pub elem-pop_min : (heap : List ℕ) (s : ℕ) → elem s heap ≡ in_pop s (pop_min heap)
unfolding elem pop_min
elem-pop_min [] s = refl
elem-pop_min (h ∷ hs) s = elim (Option-cases (pop_min hs)) [
  | inl empty ↦ rw empty (ground (arith, elem-pop_min hs s, empty))
  | inr ((m, rest), e) ↦ rw e (ground (arith, elem-pop_min hs s, e))
]

module _ {E : Type 0} where
  -- Leasing the least waiting record, which leaves the heap.
  lease_popped-Carries :
      (first : ℕ) (sp : SharePartition E) (seq : ℕ) (rest : List ℕ) (e : Entry)
      (consumer : GoString) (now : ℕ)
      → IsWindow sp
      → pop_min sp.heap ≡ some (seq, rest)
      → get sp.entries seq ≡ some e
      → is_acquired e.state ≡ false
      → Carries first sp (lease (record sp { heap = rest }) seq e consumer now).1
  unfolding lease
  lease_popped-Carries first sp seq rest e consumer now w p found idle = record {
    window = record {
      positive = w.positive;
      ordered = w.ordered;
      bounded = w.bounded;
      entry_in = λ s h. ground (arith, w.entry_in s, h, put_seq s, found);
      retired_in = w.retired_in;
      covered = λ s lo hi. ground (arith, w.covered s lo hi, put_seq s);
      waiting =
          λ s f h q. ground (arith, w.waiting s f, h, q, put_seq s, elem-pop_min sp.heap s, p);
    };
    keeps = λ s lo h. ground (arith, h, put_seq s, found, idle);
    finishes = λ s h. ground (arith, h);
    cfg = refl;
  }
    where
      leased_now : Entry
      leased_now = record e {
        state = acquired;
        count = suc e.count;
        holder = consumer;
        deadline = now + sp.cfg.ack_timeout;
      }

      put_seq :
          (s : ℕ)
          → get (put sp.entries seq leased_now) s
            ≡ (if seq == s then some leased_now else get sp.entries s)
      put_seq s = get-put sp.entries seq leased_now s

  -- Dropping a stale sequence from the heap.
  drop_stale-Carries :
      (first : ℕ) (sp : SharePartition E) (seq : ℕ) (rest : List ℕ)
      → IsWindow sp
      → pop_min sp.heap ≡ some (seq, rest)
      → leasable sp seq ≡ none
      → Carries first sp (record sp { heap = rest })
  unfolding leasable
  drop_stale-Carries first sp seq rest w p stale = record {
    window = record {
      positive = w.positive;
      ordered = w.ordered;
      bounded = w.bounded;
      entry_in = w.entry_in;
      retired_in = w.retired_in;
      covered = w.covered;
      waiting = λ s f h q. ground (arith, w.waiting s f, h, q, elem-pop_min sp.heap s, p, stale);
    };
    keeps = λ s lo h. refl;
    finishes = λ s h. ground (arith, h);
    cfg = refl;
  }

  leasable-found :
      (sp : SharePartition E) (seq : ℕ) (e : Entry)
      → leasable sp seq ≡ some e
      → (get sp.entries seq ≡ some e) × (is_acquired e.state ≡ false)
  unfolding leasable
  leasable-found sp seq e h = elim (Option-cases (get sp.entries seq)) [
    | inl absent ↦ absurd (ground (arith, absent, h))
    | inr (f, found) ↦ elim (Bool-cases (is_acquired f.state)) [
      | inl busy ↦ absurd (ground (arith, found, busy, h))
      | inr idle ↦
          let same : f ≡ e = ground (arith, found, idle, h) in
          (found ∙ ap some same, ap (λ (x : Entry). is_acquired x.state) (sym same) ∙ idle)
    ]
  ]

  abbrev pub Leasing :
      ℕ → GoString → ℕ → SharePartition E → List Delivery × SharePartition E → Type 0
  Leasing first consumer deadline a (ds, b) =
      Carries first a b × All (Delivered first consumer deadline a b) ds

  -- A delivery, then others.
  pub Leasing-cons :
      (first : ℕ) (consumer : GoString) (deadline : ℕ) (a m : SharePartition E) (d : Delivery)
      (more : List Delivery × SharePartition E)
      → Carries first a m
      → Delivered first consumer deadline a m d
      → Leasing first consumer deadline m more
      → Leasing first consumer deadline a (d ∷ more.0, more.1)
  Leasing-cons first consumer deadline a m d more c h rest = (
    Carries-trans first a m more.1 c rest.0,
    (
      (Delivered-later first consumer deadline a m more.1 (d ∷ []) rest.0 (h, tt)).0,
      Delivered-earlier first consumer deadline a m more.1 more.0 c rest.1,
    ),
  )

  pub Leasing-after :
      (first : ℕ) (consumer : GoString) (deadline : ℕ) (a m : SharePartition E)
      (more : List Delivery × SharePartition E)
      → Carries first a m
      → Leasing first consumer deadline m more
      → Leasing first consumer deadline a more
  Leasing-after first consumer deadline a m more c rest = (
    Carries-trans first a m more.1 c rest.0,
    Delivered-earlier first consumer deadline a m more.1 more.0 c rest.1,
  )

  lease_popped-Delivered :
      (first : ℕ) (sp : SharePartition E) (seq : ℕ) (rest : List ℕ) (e : Entry)
      (consumer : GoString) (now : ℕ)
      → get sp.entries seq ≡ some e
      → is_acquired e.state ≡ false
      → Delivered first consumer
          (now + sp.cfg.ack_timeout)
          sp
          (lease (record sp { heap = rest }) seq e consumer now).1
          (lease (record sp { heap = rest }) seq e consumer now).0
  unfolding lease
  lease_popped-Delivered first sp seq rest e consumer now found idle = record {
    to = refl;
    until = refl;
    leased = λ lo. get-put_self sp.entries seq _;
    free = λ lo. rw found idle;
  }

  pub redeliver-Leasing :
      (n want first : ℕ) (consumer : GoString) (now deadline : ℕ) (sp : SharePartition E)
      → IsWindow sp
      → deadline ≡ now + sp.cfg.ack_timeout
      → Leasing first consumer deadline sp (redeliver n want consumer now sp)
  unfolding redeliver
  redeliver-Leasing zero want first consumer now deadline sp w q = (Carries-refl first sp w, tt)
  redeliver-Leasing (suc n) zero first consumer now deadline sp w q = (Carries-refl first sp w, tt)
  redeliver-Leasing (suc n) (suc want) first consumer now deadline sp w q =
      elim (Option-cases (pop_min sp.heap)) [
        | inl empty ↦ rw empty (Carries-refl first sp w, tt)
        | inr ((seq, rest), p) ↦ elim (Option-cases (leasable sp seq)) [
          | inl stale ↦
              let c = drop_stale-Carries first sp seq rest w p stale in
              rw (p, stale)
                (Leasing-after first consumer deadline sp (record sp { heap = rest }) _ c
                  (redeliver-Leasing n (suc want) first consumer now deadline
                    (record sp { heap = rest }) c.window q))
          | inr (e, fresh) ↦
              let h = leasable-found sp seq e fresh in
              let c = lease_popped-Carries first sp seq rest e consumer now w p h.0 h.1 in
              let m = (lease (record sp { heap = rest }) seq e consumer now).1 in
              rw (p, fresh)
                (Leasing-cons first consumer deadline sp m
                  (lease (record sp { heap = rest }) seq e consumer now).0 _ c
                  (rw q (lease_popped-Delivered first sp seq rest e consumer now h.0 h.1))
                  (redeliver-Leasing n want first consumer now deadline m c.window
                    (q ∙ ap (λ (g : ShareConfig). now + g.ack_timeout) (sym c.cfg))))
        ]
      ]
