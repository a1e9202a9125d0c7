-- ===== src/Share/Carry.antt =====
-- What the parts of acquire (internal/queuelog/share.go) keep of a share partition.
use boltq.Prelude.{
  ℕ, ◌≤◌, ◌≡◌, refl, ◌∙◌, Bool, true, false, not, ◌||◌, List, Option, none, some, ltb, leb,
  if◌then◌else◌, nat_eq, arith, Bool-cases, All, All-mono, inl, inr, GoString,
}
use boltq.Prelude.Dict.{Dict, get, has, keep, get-keep}
use boltq.Share.{Entry, SharePartition, Outside, Delivery, is_acquired, acquired, commit_base}
use boltq.Share.Acquiring.{skip_to}
use boltq.Share.Window.{IsWindow, WindowOf}
use boltq.Share.Settle.{finished}

abbrev pub held : Option Entry → Bool
held none = false
held (some e) = is_acquired e.state

-- The entry that a delivery leaves in the window.
abbrev pub entry_of : Delivery → Entry
entry_of d = record {
  rec = d.rec;
  state = acquired;
  count = d.count;
  deadline = d.deadline;
  holder = d.consumer;
}

module _ {E : Type 0} where
  -- From `a` to `b` no lease is lost and no sequence is finished, but below `first`.
  pub record Carries (first : ℕ) (a b : SharePartition E) : Type 0 where
    pub window : IsWindow b
    pub keeps :
        (s : ℕ) → first ≤ s → held (get a.entries s) ≡ true → get b.entries s ≡ get a.entries s
    pub finishes : (s : ℕ) → finished b s ≡ true → (finished a s || ltb s first) ≡ true
    pub cfg : b.cfg ≡ a.cfg

  pub Carries-refl : (first : ℕ) (a : SharePartition E) → IsWindow a → Carries first a a
  Carries-refl first a w = record {
    window = w;
    keeps = λ s lo h. refl;
    finishes = λ s h. ground (arith, h);
    cfg = refl;
  }

  pub Carries-trans :
      (first : ℕ) (a b c : SharePartition E)
      → Carries first a b
      → Carries first b c
      → Carries first a c
  Carries-trans first a b c f g = record {
    window = g.window;
    keeps = λ s lo h. g.keeps s lo (rw (f.keeps s lo h) h) ∙ f.keeps s lo h;
    finishes = λ s h. ground (arith, f.finishes s, g.finishes s h);
    cfg = g.cfg ∙ f.cfg;
  }

  -- A delivery to `consumer` made between `a` and `b`: no one held the record, and now it does.
  pub record Delivered (first : ℕ) (consumer : GoString) (deadline : ℕ) (a b : SharePartition E)
      (d : Delivery) : Type 0 where
    pub to : d.consumer ≡ consumer
    pub until : d.deadline ≡ deadline
    pub leased : first ≤ d.seq → get b.entries d.seq ≡ some (entry_of d)
    pub free : first ≤ d.seq → held (get a.entries d.seq) ≡ false

  pub Delivered-later :
      (first : ℕ) (consumer : GoString) (deadline : ℕ) (a b c : SharePartition E)
      (ds : List Delivery)
      → Carries first b c
      → All (Delivered first consumer deadline a b) ds
      → All (Delivered first consumer deadline a c) ds
  Delivered-later first consumer deadline a b c ds g = All-mono ds λ d h. record {
    to = h.to;
    until = h.until;
    leased = λ lo. g.keeps d.seq lo (rw (h.leased lo)) ∙ h.leased lo;
    free = h.free;
  }

  pub Delivered-earlier :
      (first : ℕ) (consumer : GoString) (deadline : ℕ) (a b c : SharePartition E)
      (ds : List Delivery)
      → Carries first a b
      → All (Delivered first consumer deadline b c) ds
      → All (Delivered first consumer deadline a c) ds
  Delivered-earlier first consumer deadline a b c ds f = All-mono ds λ d h. record {
    to = h.to;
    until = h.until;
    leased = h.leased;
    free = λ lo. elim (Bool-cases (held (get a.entries d.seq))) [
      | inl was ↦ absurd (ground (arith, was, h.free lo, f.keeps d.seq lo was))
      | inr free ↦ free
    ];
  }

module _ {E : Type 0} ⦃out : Outside E⦄ where
  pub skip_to-Carries :
      (sp : SharePartition E) (first : ℕ) → IsWindow sp → Carries first sp (skip_to sp first)
  unfolding skip_to commit_base
  skip_to-Carries sp first w = elim (Bool-cases (leb first sp.base)) [
    | inl below ↦ rw below (Carries-refl first sp w)
    | inr above ↦ elim (Bool-cases sp.has_cursors) [
      | inl c ↦
          rw (above, c)
            record { window = skipped above; keeps = kept_entry; finishes = done; cfg = refl }
      | inr c ↦
          rw (above, c)
            record { window = skipped above; keeps = kept_entry; finishes = done; cfg = refl }
    ]
  ]
    where
      after : Dict ℕ Entry
      after = keep (λ s e. not (ltb s first)) sp.entries

      after_retired : Dict ℕ (Unit {0})
      after_retired = keep (λ s u. not (ltb s first)) sp.retired

      kept_entry :
          (s : ℕ) → first ≤ s → held (get sp.entries s) ≡ true → get after s ≡ get sp.entries s
      kept_entry s lo h = ground (arith, lo, get-keep (λ s e. not (ltb s first)) sp.entries s)

      done :
          (s : ℕ)
          → (ltb s first || has after_retired s) ≡ true
          → (finished sp s || ltb s first) ≡ true
      done s h = ground (arith, h, get-keep (λ s u. not (ltb s first)) sp.retired s)

      skipped :
          leb first sp.base ≡ false
          → WindowOf first
              (if ltb sp.next first then first else sp.next)
              sp.cfg.max_in_flight
              after
              after_retired
              sp.heap
      skipped above = record {
        positive = ground (arith, above);
        ordered = ground arith;
        bounded = ground (arith, w.bounded, above);
        entry_in = λ s h. ground (
          arith,
          w.entry_in s,
          h,
          get-keep (λ s e. not (ltb s first)) sp.entries s,
          get-keep (λ s u. not (ltb s first)) sp.retired s,
        );
        retired_in = λ s h.
            ground (arith, w.retired_in s, h, get-keep (λ s u. not (ltb s first)) sp.retired s);
        covered = λ s lo hi. ground (
          arith,
          above,
          w.covered s,
          lo,
          hi,
          get-keep (λ s e. not (ltb s first)) sp.entries s,
          get-keep (λ s u. not (ltb s first)) sp.retired s,
        );
        waiting = λ s e h idle.
            ground
              (arith, w.waiting s e, h, idle, get-keep (λ s e. not (ltb s first)) sp.entries s);
      }
