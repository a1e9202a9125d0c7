-- ===== src/Share/Fetch.antt =====
-- Phase 2 of acquire (internal/queuelog/share.go): records that were never handed out.
use boltq.Prelude.{
  ℕ, zero, suc, ◌+◌, ◌-◌, ◌≤◌, ◌<◌, ◌≡◌, refl, sym, ap, ◌∙◌, Bool, List, [], ◌∷◌, ◌++◌, some, ltb,
  leb, ◌==◌, if◌then◌else◌, nat_eq, arith, All-append, inl, inr, GoString, length, ◌⊎◌,
}
use boltq.Prelude.Dict.{get, put, get-put, get-put_self}
use boltq.Stream.{Record}
use boltq.Share.{
  Entry, SharePartition, Outside, ShareConfig, Delivery, available, acquired, lease, Consecutive,
  Log, ReadResult, truncated, failed, records,
}
use boltq.Share.Acquiring.{
  lease_fresh, Round, ends, skips, leases, round, read_next, fetch, skip_to,
}
use boltq.Share.Window.{IsWindow}
use boltq.Share.Carry.{
  Carries, Carries-refl, Carries-trans, Delivered, Delivered-later, Delivered-earlier,
  skip_to-Carries,
}
use boltq.Share.Lease.{Leasing, Leasing-cons, Leasing-after}

module _ {E : Type 0} where
  -- The record at `next`, added to the window and leased.
  abbrev pub taken : SharePartition E → Record → GoString → ℕ → Delivery × SharePartition E
  taken sp r consumer now =
      let e : Entry = record { rec = r; state = available; count = 0; deadline = 0; holder = [] } in
      lease
        (record sp {
          entries = put sp.entries r.seq e;
          next = if leb sp.next r.seq then suc r.seq else sp.next;
        })
        r.seq e consumer now

  taken-Carries :
      (first : ℕ) (sp : SharePartition E) (r : Record) (consumer : GoString) (now : ℕ)
      → IsWindow sp
      → r.seq ≡ sp.next
      → sp.next < sp.base + sp.cfg.max_in_flight
      → Carries first sp (taken sp r consumer now).1
  unfolding lease
  taken-Carries first sp r consumer now w here room = record {
    window = record {
      positive = w.positive;
      ordered = ground (arith, w.ordered, here);
      bounded = ground (arith, here, room);
      entry_in =
          λ s h. ground (arith, w.entry_in s, w.retired_in s, w.ordered, h, here, put_twice s);
      retired_in = λ s h. ground (arith, w.retired_in s h, here);
      covered = λ s lo hi. ground (arith, w.covered s lo, hi, here, put_twice s);
      waiting = λ s f h q. ground (arith, w.waiting s f, h, q, put_twice s);
    };
    keeps = λ s lo h. ground (arith, h, w.entry_in s, put_twice s, here);
    finishes = λ s h. ground (arith, h);
    cfg = refl;
  }
    where
      e : Entry
      e = record { rec = r; state = available; count = 0; deadline = 0; holder = [] }

      f : Entry
      f = record e {
        state = acquired;
        count = 1;
        holder = consumer;
        deadline = now + sp.cfg.ack_timeout;
      }

      put_twice :
          (s : ℕ)
          → get (put (put sp.entries r.seq e) r.seq f) s
            ≡ (if r.seq == s then some f else get sp.entries s)
      put_twice s =
          ground (arith, get-put (put sp.entries r.seq e) r.seq f s, get-put sp.entries r.seq e s)

  taken-Delivered :
      (first : ℕ) (sp : SharePartition E) (r : Record) (consumer : GoString) (now : ℕ)
      → IsWindow sp
      → r.seq ≡ sp.next
      → Delivered first consumer
          (now + sp.cfg.ack_timeout)
          sp
          (taken sp r consumer now).1
          (taken sp r consumer now).0
  unfolding lease
  taken-Delivered first sp r consumer now w here = record {
    to = refl;
    until = refl;
    leased = λ lo. get-put_self _ r.seq _;
    free = λ lo. ground (arith, w.entry_in r.seq, here);
  }

  pub lease_fresh-Leasing :
      (want : ℕ) (rs : List Record) (first : ℕ) (consumer : GoString) (now deadline : ℕ)
      (sp : SharePartition E)
      → IsWindow sp
      → deadline ≡ now + sp.cfg.ack_timeout
      → Consecutive sp.next rs
      → sp.next + length rs ≤ sp.base + sp.cfg.max_in_flight
      → Leasing first consumer deadline sp (lease_fresh want rs consumer now sp)
  unfolding lease_fresh lease
  lease_fresh-Leasing want [] first consumer now deadline sp w q c room =
      (Carries-refl first sp w, tt)
  lease_fresh-Leasing zero (r ∷ rs) first consumer now deadline sp w q c room =
      (Carries-refl first sp w, tt)
  lease_fresh-Leasing (suc want) (r ∷ rs) first consumer now deadline sp w q c room =
      let m = (taken sp r consumer now).1 in
      let next_is : m.next ≡ suc sp.next = ground (arith, c.0) in
      let carried = taken-Carries first sp r consumer now w c.0 (omega (arith, room)) in
      Leasing-cons first consumer deadline sp m (taken sp r consumer now).0 _ carried
        (rw q (taken-Delivered first sp r consumer now w c.0))
        (lease_fresh-Leasing want rs first consumer now deadline m carried.window q (rw next_is c.1)
          (omega (arith, next_is, room)))

  pub Leasing-append :
      (first : ℕ) (consumer : GoString) (deadline : ℕ) (a : SharePartition E)
      (some_ more : List Delivery × SharePartition E)
      → Leasing first consumer deadline a some_
      → Leasing first consumer deadline some_.1 more
      → Leasing first consumer deadline a (some_.0 ++ more.0, more.1)
  Leasing-append first consumer deadline a some_ more f g = (
    Carries-trans first a some_.1 more.1 f.0 g.0,
    All-append _ some_.0 more.0
        (Delivered-later first consumer deadline a some_.1 more.1 some_.0 g.0 f.1)
        (Delivered-earlier first consumer deadline a some_.1 more.1 more.0 f.0 g.1),
  )

pub Round-cases :
    (r : Round)
    → ((ok : Bool) × (r ≡ ends ok)) ⊎ ((r ≡ skips) ⊎ ((rs : List Record) × (r ≡ leases rs)))
Round-cases (ends ok) = inl (ok, refl)
Round-cases skips = inr (inl refl)
Round-cases (leases rs) = inr (inr (rs, refl))

-- A round leases only what the log read, and only where there is room.
pub round-leases :
    (room : ℕ) (r : ReadResult) (rs : List Record)
    → round room r ≡ leases rs
    → (0 < room) × (r ≡ records rs)
unfolding round
round-leases zero r rs h = absurd (ground (arith, h))
round-leases (suc room) truncated rs h = absurd (ground (arith, h))
round-leases (suc room) failed rs h = absurd (ground (arith, h))
round-leases (suc room) (records []) rs h = absurd (ground (arith, h))
round-leases (suc room) (records (r ∷ more)) rs h = (omega arith, cc)

module _ {E : Type 0} ⦃out : Outside E⦄ where
  pub read_next-leases :
      (sp : SharePartition E) (want : ℕ) (log : Log) (rs : List Record)
      → IsWindow sp
      → 0 < want
      → read_next sp want log ≡ leases rs
      → Consecutive sp.next rs × (sp.next + length rs ≤ sp.base + sp.cfg.max_in_flight)
  unfolding read_next
  read_next-leases sp want log rs w some_want h =
      let room = sp.cfg.max_in_flight - (sp.next - sp.base) in
      let asked = if ltb room want then room else want in
      let read = round-leases room (log.read_from sp.next asked) rs h in
      let law =
        log.in_order sp.next asked rs (omega (arith, w.positive, w.ordered))
          (ground (arith, some_want, read.0)) read.1 in
      (law.0, ground (arith, law.1, w.ordered, w.bounded))

  pub fetch-Leasing :
      (n want : ℕ) (consumer : GoString) (now deadline : ℕ) (log : Log) (sp : SharePartition E)
      → IsWindow sp
      → deadline ≡ now + sp.cfg.ack_timeout
      → Leasing log.first_seq consumer deadline sp
          ((fetch n want consumer now log sp).0, (fetch n want consumer now log sp).1.1)
  unfolding fetch
  fetch-Leasing zero want consumer now deadline log sp w q = (Carries-refl log.first_seq sp w, tt)
  fetch-Leasing (suc n) zero consumer now deadline log sp w q =
      (Carries-refl log.first_seq sp w, tt)
  fetch-Leasing (suc n) (suc want) consumer now deadline log sp w q =
      elim (Round-cases (read_next sp (suc want) log)) [
        | inl (ok, e) ↦ rw e (Carries-refl log.first_seq sp w, tt)
        | inr (inl e) ↦
            let c = skip_to-Carries sp log.first_seq w in
            rw e (
              Leasing-after log.first_seq consumer deadline sp (skip_to sp log.first_seq) _ c (
                fetch-Leasing n (suc want) consumer now deadline log (skip_to sp log.first_seq)
                  c.window (q ∙ ap (λ (g : ShareConfig). now + g.ack_timeout) (sym c.cfg))))
        | inr (inr (rs, e)) ↦
            let fits = read_next-leases sp (suc want) log rs w (omega arith) e in
            let one =
              lease_fresh-Leasing (suc want) rs log.first_seq consumer now deadline sp w q fits.0
                fits.1 in
            let got = lease_fresh (suc want) rs consumer now sp in
            rw e (
              Leasing-append log.first_seq consumer deadline sp got _ one (
                fetch-Leasing n (suc want - length got.0) consumer now deadline log got.1
                  one.0.window (q ∙ ap (λ (g : ShareConfig). now + g.ack_timeout) (sym one.0.cfg))))
      ]
