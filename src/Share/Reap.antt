-- ===== src/Share/Reap.antt =====
-- The leases that expire: reapExpiredLocked (internal/queuelog/share.go).
use boltq.Prelude.{
  ℕ, suc, ◌≡◌, refl, sym, ap, ◌∙◌, Bool, true, false, ◌&&◌, ◌||◌, List, [], ◌∷◌, Option, none, some,
  ltb, leb, nat_eq, arith,
}
use boltq.Prelude.Dict.{get}
use boltq.Share.{
  Entry, SharePartition, Outside, ShareConfig, lease_expired_after, is_acquired, release, retire,
  dead_letter, advance, commit_base,
}
use boltq.Share.Settling.{exhausted, reap_found, reap_all, reap_expired}
use boltq.Share.Window.{IsWindow, reap_found-IsWindow, reap_expired-IsWindow}
use boltq.Share.Settle.{finished, release-Settled, dead_letter-Settled, advance_exact}
use boltq.Share.Carry.{held}

-- A lease that has not expired.
abbrev pub live : ℕ → Option Entry → Bool
live now none = false
live now (some e) = is_acquired e.state && ltb now e.deadline

module _ {E : Type 0} ⦃out : Outside E⦄ where
  -- An entry whose lease has expired after as many deliveries as are allowed.
  abbrev pub doomed : ℕ → SharePartition E → Option Entry → Bool
  doomed now sp none = false
  doomed now sp (some e) = is_acquired e.state && leb e.deadline now && exhausted sp e

  -- From `a` to `b` only expired leases are given up.
  pub record Reaps (now : ℕ) (a b : SharePartition E) : Type 0 where
    pub window : IsWindow b
    pub keeps : (s : ℕ) → live now (get a.entries s) ≡ true → get b.entries s ≡ get a.entries s
    pub takes : (s : ℕ) → held (get b.entries s) ≡ true → get b.entries s ≡ get a.entries s
    pub finishes :
        (s : ℕ) → finished b s ≡ true → (finished a s || doomed now a (get a.entries s)) ≡ true
    pub cfg : b.cfg ≡ a.cfg

  reap_found-Reaps :
      (o : Option Entry) (seq : ℕ) (sp : SharePartition E) (now : ℕ)
      → get sp.entries seq ≡ o
      → IsWindow sp
      → Reaps now sp (reap_found o seq sp now)
  unfolding reap_found
  reap_found-Reaps none seq sp now found w = record {
    window = w;
    keeps = λ s h. refl;
    takes = λ s h. refl;
    finishes = λ s h. ground (arith, h);
    cfg = refl;
  }
  reap_found-Reaps (some e) seq sp now found w =
      let counted : SharePartition E = record sp { expired = suc sp.expired } in
      let reason = lease_expired_after e.count in
      record {
        window = reap_found-IsWindow (some e) seq sp now found w;
        keeps = λ s h. ground (
          arith,
          h,
          found,
          release-Settled counted seq e s,
          dead_letter-Settled counted seq e reason s,
        );
        takes = λ s h. ground (
          arith,
          h,
          found,
          release-Settled counted seq e s,
          dead_letter-Settled counted seq e reason s,
        );
        finishes = λ s h. ground (
          arith,
          h,
          found,
          release-Settled counted seq e s,
          dead_letter-Settled counted seq e reason s,
        );
        cfg = unfold dead_letter retire release in ground arith;
      }

  Reaps-trans : (now : ℕ) (a b c : SharePartition E) → Reaps now a b → Reaps now b c → Reaps now a c
  Reaps-trans now a b c f g = record {
    window = g.window;
    keeps = λ s h. g.keeps s (rw (f.keeps s h) h) ∙ f.keeps s h;
    takes = λ s h. g.takes s h ∙ f.takes s (rw (sym (g.takes s h)) h);
    finishes = λ s h. finishes s (g.finishes s h);
    cfg = g.cfg ∙ f.cfg;
  }
    where
      doomed-taken :
          (o : Option Entry) (s : ℕ)
          → (held o ≡ true → o ≡ get a.entries s)
          → doomed now b o ≡ true
          → doomed now a (get a.entries s) ≡ true
      doomed-taken none s same d = absurd (ground (arith, d))
      doomed-taken (some e) s same d =
          rw (sym (same (ground (arith, d))))
            (ground (arith, d, ap (λ (g : ShareConfig). g.max_delivery) f.cfg))

      finishes :
          (s : ℕ)
          → (finished b s || doomed now b (get b.entries s)) ≡ true
          → (finished a s || doomed now a (get a.entries s)) ≡ true
      finishes s h = ground (arith, h, f.finishes s, doomed-taken (get b.entries s) s (f.takes s))

  reap_all-Reaps :
      (es : List (ℕ × Entry)) (sp : SharePartition E) (now : ℕ)
      → IsWindow sp
      → Reaps now sp (reap_all es sp now)
  unfolding reap_all
  reap_all-Reaps [] sp now w = record {
    window = w;
    keeps = λ s h. refl;
    takes = λ s h. refl;
    finishes = λ s h. ground (arith, h);
    cfg = refl;
  }
  reap_all-Reaps ((seq, e) ∷ es) sp now w =
      let one = reap_found-Reaps (get sp.entries seq) seq sp now refl w in
      Reaps-trans now sp (reap_found (get sp.entries seq) seq sp now) _ one
        (reap_all-Reaps es (reap_found (get sp.entries seq) seq sp now) now one.window)

  advance-cfg : (sp : SharePartition E) → (advance sp).1.cfg ≡ sp.cfg
  unfolding advance commit_base
  advance-cfg sp = ground arith

  pub reap_expired-Reaps :
      (sp : SharePartition E) (now : ℕ) → IsWindow sp → Reaps now sp (reap_expired sp now)
  unfolding reap_expired
  reap_expired-Reaps sp now w =
      let all = reap_all-Reaps sp.entries sp now w in
      let slid = advance_exact (reap_all sp.entries sp now) all.window in
      record {
        window = unfold reap_expired in reap_expired-IsWindow sp now w;
        keeps = λ s h. ap (λ d. get d s) slid.1 ∙ all.keeps s h;
        takes = λ s h. ap (λ d. get d s) slid.1 ∙ all.takes s (rw (sym slid.1) h);
        finishes = λ s h. all.finishes s (rw (sym (slid.0 s)) h);
        cfg = advance-cfg (reap_all sp.entries sp now) ∙ all.cfg;
      }
