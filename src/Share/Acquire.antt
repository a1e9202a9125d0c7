-- ===== src/Share/Acquire.antt =====
-- What acquire (internal/queuelog/share.go) promises to the consumers that compete.
use boltq.Prelude.{
  ℕ, zero, suc, ◌+◌, ◌-◌, ◌≤◌, ◌≡◌, refl, sym, ap, ◌∙◌, Bool, true, false, ◌||◌, List, [], ◌∷◌,
  ◌++◌, Option, none, some, ltb, if◌then◌else◌, nat_eq, arith, Bool-cases, All, All-mono, inl, inr,
  GoString, length,
}
use boltq.Prelude.Dict.{get}
use boltq.Share.{
  Entry, SharePartition, Outside, ShareConfig, Delivery, Error, partition_closed, Log,
}
use boltq.Share.Settling.{reap_expired}
use boltq.Share.Acquiring.{redeliver, fetch, finish, acquire_open, acquire}
use boltq.Share.Window.{IsWindow}
use boltq.Share.Settle.{finished}
use boltq.Share.Carry.{held, entry_of, Carries, Carries-trans, Delivered-later}
use boltq.Share.Lease.{Leasing, redeliver-Leasing}
use boltq.Share.Fetch.{fetch-Leasing, Leasing-append}
use boltq.Share.Reap.{live, doomed, Reaps, reap_expired-Reaps}

live-held : (now : ℕ) (o : Option Entry) → live now o ≡ true → held o ≡ true
live-held now none h = ground (arith, h)
live-held now (some e) h = ground (arith, h)

module _ {E : Type 0} ⦃out : Outside E⦄ where
  finish-Leasing :
      (ds : List Delivery) (ok : Bool) (first : ℕ) (consumer : GoString) (deadline : ℕ)
      (a b : SharePartition E)
      → Leasing first consumer deadline a (ds, b)
      → Leasing first consumer deadline a ((finish ds ok b).0.0, (finish ds ok b).1)
  unfolding finish
  finish-Leasing ds true first consumer deadline a b h =
      let counted : Carries first b (record b { delivered = b.delivered + length ds }) = record {
        window = h.0.window;
        keeps = λ s lo q. refl;
        finishes = λ s q. ground (arith, q);
        cfg = refl;
      } in
      (
        Carries-trans first a b _ h.0 counted,
        Delivered-later first consumer deadline a b _ ds counted h.1,
      )
  finish-Leasing [] false first consumer deadline a b h = h
  finish-Leasing (d ∷ ds) false first consumer deadline a b h = h

  acquire_open-Leasing :
      (sp : SharePartition E) (consumer : GoString) (want now : ℕ) (log : Log)
      → IsWindow sp
      → Leasing log.first_seq consumer
          (now + sp.cfg.ack_timeout)
          sp
          ((acquire_open sp consumer want now log).0.0, (acquire_open sp consumer want now log).1)
  unfolding acquire_open
  acquire_open-Leasing sp consumer want now log w =
      let deadline = now + sp.cfg.ack_timeout in
      let again = redeliver (length sp.heap) want consumer now sp in
      let one =
        redeliver-Leasing (length sp.heap) want log.first_seq consumer now deadline sp w refl in
      let fresh = fetch (suc (suc want)) (want - length again.0) consumer now log again.1 in
      let two =
        fetch-Leasing (suc (suc want)) (want - length again.0) consumer now deadline log again.1
          one.0.window (ap (λ (g : ShareConfig). now + g.ack_timeout) (sym one.0.cfg)) in
      finish-Leasing (again.0 ++ fresh.0) fresh.1.0 log.first_seq consumer deadline sp fresh.1.1
        (Leasing-append log.first_seq consumer deadline sp again (fresh.0, fresh.1.1) one two)

  -- A delivery to `consumer` until `deadline`: before, no lease on the record was live, and now the
  -- consumer holds it.
  pub record Exclusive (now : ℕ) (first : ℕ) (consumer : GoString) (deadline : ℕ)
      (a b : SharePartition E) (d : Delivery) : Type 0 where
    pub to : d.consumer ≡ consumer
    pub until : d.deadline ≡ deadline
    pub leased : first ≤ d.seq → get b.entries d.seq ≡ some (entry_of d)
    pub free : first ≤ d.seq → live now (get a.entries d.seq) ≡ false

  -- What acquire does to the window between `a` and `b`, with these deliveries.
  pub record Acquires (now : ℕ) (first : ℕ) (consumer : GoString) (a : SharePartition E)
      (ds : List Delivery) (b : SharePartition E) : Type 0 where
    pub window : IsWindow b
    pub keeps :
        (s : ℕ) → first ≤ s → live now (get a.entries s) ≡ true → get b.entries s ≡ get a.entries s
    pub finishes :
        (s : ℕ)
        → finished b s ≡ true
        → (finished a s || doomed now a (get a.entries s) || ltb s first) ≡ true
    pub exclusive : All (Exclusive now first consumer (now + a.cfg.ack_timeout) a b) ds

  after_reaping :
      (now first : ℕ) (consumer : GoString) (a m : SharePartition E)
      (got : List Delivery × SharePartition E)
      → Reaps now a m
      → Leasing first consumer (now + m.cfg.ack_timeout) m got
      → Acquires now first consumer a got.0 got.1
  after_reaping now first consumer a m got f g = record {
    window = g.0.window;
    keeps = λ s lo h. g.0.keeps s lo (rw (f.keeps s h) (live-held now _ h)) ∙ f.keeps s h;
    finishes = λ s h. ground (arith, g.0.finishes s h, f.finishes s);
    exclusive =
        All-mono got.0
          (λ d h. record {
            to = h.to;
            until = h.until ∙ ap (λ (g : ShareConfig). now + g.ack_timeout) f.cfg;
            leased = h.leased;
            free = λ lo. elim (Bool-cases (live now (get a.entries d.seq))) [
              | inl alive ↦
                  absurd (ground (arith, h.free lo, live-held now _ alive, f.keeps d.seq alive))
              | inr free ↦ free
            ];
          })
          g.1;
  }

  idle-Acquires :
      (now first : ℕ) (consumer : GoString) (a : SharePartition E)
      → IsWindow a
      → Acquires now first consumer a [] a
  idle-Acquires now first consumer a w = record {
    window = w;
    keeps = λ s lo h. refl;
    finishes = λ s h. ground (arith, h);
    exclusive = tt;
  }

  -- Whatever it is asked for, and whether or not the log can be read, acquire keeps the window in
  -- order and takes no live lease from anyone: every record that it delivers was free, belongs to
  -- this consumer until the timeout, and every other live lease stands. It finishes no sequence but
  -- those whose lease has expired after the last delivery allowed. What is said of a record holds
  -- from the log's first sequence on: retention drops the entries below.
  pub acquire_exclusive :
      (sp : SharePartition E) (consumer : GoString) (want now : ℕ) (log : Log)
      → IsWindow sp
      → Acquires now log.first_seq consumer sp
          (acquire sp consumer want now log).0.0
          (acquire sp consumer want now log).1
  unfolding acquire
  acquire_exclusive sp consumer zero now log w = idle-Acquires now log.first_seq consumer sp w
  acquire_exclusive sp consumer (suc want) now log w = by_closed sp.closed
    where
      got : (List Delivery × Option Error) × SharePartition E
      got = acquire_open (reap_expired sp now) consumer (suc want) now log

      reaped : Reaps now sp (reap_expired sp now)
      reaped = reap_expired-Reaps sp now w

      by_closed :
          (c : Bool)
          → let r = if c then (([], some partition_closed), sp) else got in
            Acquires now log.first_seq consumer sp r.0.0 r.1
      by_closed true = idle-Acquires now log.first_seq consumer sp w
      by_closed false =
          after_reaping now log.first_seq consumer sp (reap_expired sp now) (got.0.0, got.1) reaped
            (acquire_open-Leasing (reap_expired sp now) consumer (suc want) now log reaped.window)
