-- ===== src/Share/Window.antt =====
-- The window of a share partition: what every method keeps of it.
use boltq.Prelude.{
  ℕ, suc, ◌+◌, ◌-◌, ◌≤◌, ◌<◌, ◌≡◌, refl, true, false, not, ◌&&◌, ◌||◌, List, [], ◌∷◌, Option, none,
  some, leb, ◌==◌, nat_eq, elem, elem-cons, arith, Bool-cases, inl, inr,
}
use boltq.Prelude.Dict.{Dict, get, has, size, get-put, get-remove}
use boltq.Share.{
  Entry, SharePartition, Outside, Reason, lease_expired_after, is_acquired, released, release,
  retire, slide, advance, commit_base, dead_letter,
}
use boltq.Share.Settling.{reap_found, reap_all, reap_expired}
use boltq.Share.Slide.{slide-passes}

-- State exists for the sequences from `base` to `next`, at most `max_in_flight` of them, each of
-- which is either retired or has an entry; the heap has every entry that waits.
pub record WindowOf (base next max : ℕ) (entries : Dict ℕ Entry) (retired : Dict ℕ (Unit {0}))
    (heap : List ℕ) : Type 0 where
  pub positive : 0 < base
  pub ordered : base ≤ next
  pub bounded : next ≤ base + max
  pub entry_in : (s : ℕ) → has entries s ≡ true → (base ≤ s) × (s < next) × (has retired s ≡ false)
  pub retired_in : (s : ℕ) → has retired s ≡ true → (base ≤ s) × (s < next)
  pub covered : (s : ℕ) → base ≤ s → s < next → (has entries s || has retired s) ≡ true
  pub waiting :
      (s : ℕ) (e : Entry)
      → get entries s ≡ some e
      → is_acquired e.state ≡ false
      → elem s heap ≡ true

abbrev pub IsWindow : {E : Type 0} → SharePartition E → Type 0
IsWindow sp = WindowOf sp.base sp.next sp.cfg.max_in_flight sp.entries sp.retired sp.heap

module _ {E : Type 0} where
  pub release-IsWindow :
      (sp : SharePartition E) (seq : ℕ) (e : Entry)
      → has sp.entries seq ≡ true
      → IsWindow sp
      → IsWindow (release sp seq e)
  unfolding release
  release-IsWindow sp seq e held w = record {
    positive = w.positive;
    ordered = w.ordered;
    bounded = w.bounded;
    entry_in = λ s h. ground (arith, w.entry_in s, h, get-put sp.entries seq (released e) s, held);
    retired_in = w.retired_in;
    covered =
        λ s lo hi. ground (arith, w.covered s lo hi, get-put sp.entries seq (released e) s, held);
    waiting = λ s f h idle. ground (
      arith,
      w.waiting s f,
      h,
      idle,
      get-put sp.entries seq (released e) s,
      elem-cons s seq sp.heap,
    );
  }

  pub retire-IsWindow :
      (sp : SharePartition E) (seq : ℕ)
      → has sp.entries seq ≡ true
      → IsWindow sp
      → IsWindow (retire sp seq)
  unfolding retire
  retire-IsWindow sp seq held w = record {
    positive = w.positive;
    ordered = w.ordered;
    bounded = w.bounded;
    entry_in = λ s h.
        ground (arith, w.entry_in s, h, get-remove sp.entries seq s, get-put sp.retired seq tt s);
    retired_in =
        λ s h. ground (arith, w.retired_in s, w.entry_in s, h, held, get-put sp.retired seq tt s);
    covered = λ s lo hi.
        ground (arith, w.covered s lo hi, get-remove sp.entries seq s, get-put sp.retired seq tt s);
    waiting = λ s f h idle. ground (arith, w.waiting s f, h, idle, get-remove sp.entries seq s);
  }

slid-IsWindow :
    (n base next max : ℕ) (entries : Dict ℕ Entry) (retired : Dict ℕ (Unit {0})) (heap : List ℕ)
    → WindowOf base next max entries retired heap
    → WindowOf (slide n base retired).0 next max entries (slide n base retired).1 heap
slid-IsWindow n base next max entries retired heap w = record {
  positive = ground (arith, w.positive, passes base);
  ordered =
      let s = (slide n base retired).0 - 1 in ground (arith, passes s, w.ordered, w.retired_in s);
  bounded = ground (arith, w.bounded, passes base);
  entry_in = λ s h. ground (arith, w.entry_in s h, passes s);
  retired_in = λ s h. ground (arith, passes s, w.retired_in s, h);
  covered = λ s lo hi. ground (arith, passes s, w.covered s, lo, hi);
  waiting = w.waiting;
}
  where
    passes :
        (s : ℕ)
        → (base ≤ (slide n base retired).0)
          × (has (slide n base retired).1 s ≡ (has retired s && leb (slide n base retired).0 s))
          × (base ≤ s → s < (slide n base retired).0 → has retired s ≡ true)
    passes s = slide-passes n base s retired (λ t held. (w.retired_in t held).0)

module _ {E : Type 0} ⦃out : Outside E⦄ where
  pub advance-IsWindow : (sp : SharePartition E) → IsWindow sp → IsWindow (advance sp).1
  unfolding advance commit_base
  advance-IsWindow sp w =
      let slid =
        slid-IsWindow (size sp.retired) sp.base sp.next sp.cfg.max_in_flight sp.entries sp.retired
          sp.heap w in
      elim (Bool-cases
        ((slide (size sp.retired) sp.base sp.retired).0 == sp.base || not sp.has_cursors)) [
          | inl still ↦ rw still slid
          | inr moved ↦ rw moved slid
        ]

  pub dead_letter-IsWindow :
      (sp : SharePartition E) (seq : ℕ) (e : Entry) (reason : Reason)
      → has sp.entries seq ≡ true
      → IsWindow sp
      → IsWindow (dead_letter sp seq e reason)
  unfolding dead_letter
  dead_letter-IsWindow sp seq e reason held w =
      let env = (out.dead_letter sp.env sp.key e.rec reason).1 in
      ground (
        arith,
        retire-IsWindow (record sp { dlq_count = suc sp.dlq_count }) seq held w,
        retire-IsWindow (record sp { env = env; dlq_count = suc sp.dlq_count }) seq held w,
        release-IsWindow (record sp { env = env }) seq e held w,
      )

  pub reap_found-IsWindow :
      (o : Option Entry) (seq : ℕ) (sp : SharePartition E) (now : ℕ)
      → get sp.entries seq ≡ o
      → IsWindow sp
      → IsWindow (reap_found o seq sp now)
  unfolding reap_found
  reap_found-IsWindow none seq sp now found w = w
  reap_found-IsWindow (some e) seq sp now found w =
      let held : has sp.entries seq ≡ true = rw found in
      ground (
        arith,
        dead_letter-IsWindow (record sp { expired = suc sp.expired }) seq e
            (lease_expired_after e.count) held w,
        release-IsWindow (record sp { expired = suc sp.expired }) seq e held w,
        w,
      )

  pub reap_all-IsWindow :
      (es : List (ℕ × Entry)) (sp : SharePartition E) (now : ℕ)
      → IsWindow sp
      → IsWindow (reap_all es sp now)
  unfolding reap_all
  reap_all-IsWindow [] sp now w = w
  reap_all-IsWindow ((seq, e) ∷ es) sp now w =
      reap_all-IsWindow es _ now (reap_found-IsWindow (get sp.entries seq) seq sp now refl w)

  pub reap_expired-IsWindow :
      (sp : SharePartition E) (now : ℕ) → IsWindow sp → IsWindow (reap_expired sp now)
  unfolding reap_expired
  reap_expired-IsWindow sp now w = advance-IsWindow _ (reap_all-IsWindow sp.entries sp now w)
