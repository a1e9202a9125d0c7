-- ===== src/Epoch/Truncate.antt =====
-- Truncation of the epoch history, from the end and from the front.
use boltq.Prelude.{
  ℕ, zero, suc, ◌-◌, ◌≤◌, ◌<◌, ◌≡◌, refl, ap, sym, ◌∙◌, Bool, true, not, List, [], ◌∷◌, arith, ltb,
  leb, ◌==◌, if◌then◌else◌, length, All, All-keep_if, take, drop, keep_if, Bool-cases, inl, inr,
}
use boltq.Prelude.Search.{first_index, Monotone}
use boltq.Epoch.{
  EpochEntry, EpochCache, no_entry, first_after, first_from, truncate_from_seq, truncate_before_seq,
  epoch_for_seq,
}
use boltq.Epoch.History.{IsHistory, entries-flush_locked}
use boltq.Epoch.Lookup.{
  first_after-scan, first_from-scan, Monotone-from, last_before, epoch_for_seq_covers,
}

module _ (p : EpochEntry → Bool) where
  first_index-le : (es : List EpochEntry) → first_index p es ≤ length es
  first_index-le [] = omega arith
  first_index-le (x ∷ es) = ground (arith, first_index-le es)

  keep_none : (es : List EpochEntry) → All (λ e. p e ≡ true) es → keep_if (λ e. not (p e)) es ≡ []
  keep_none [] all = refl
  keep_none (x ∷ es) all = ground (arith, all.0, keep_none es all.1)

  -- Cutting at the first entry that passes keeps exactly those that do not.
  take-first_index :
      (es : List EpochEntry)
      → Monotone p es
      → take (first_index p es) es ≡ keep_if (λ e. not (p e)) es
  take-first_index [] mono = refl
  take-first_index (x ∷ es) mono = elim (Bool-cases (p x)) [
    | inl hit ↦ rw hit (sym (keep_none es (mono.0 hit)))
    | inr miss ↦ rw miss (ap (◌∷◌ x) (take-first_index es mono.1))
  ]

take_all : (es : List EpochEntry) → take (length es) es ≡ es
take_all [] = refl
take_all (x ∷ es) = ap (◌∷◌ x) (take_all es)

keep_if-IsHistory :
    (q : EpochEntry → Bool) (es : List EpochEntry) → IsHistory es → IsHistory (keep_if q es)
keep_if-IsHistory q [] h = tt
keep_if-IsHistory q (x ∷ es) h = ground (
  arith,
  h.0,
  All-keep_if (λ y. (x.epoch < y.epoch) × (x.start_seq ≤ y.start_seq)) q es h.1,
  keep_if-IsHistory q es h.2,
)

entries-truncate_from :
    (disk : Bool) (c : EpochCache) (seq : ℕ)
    → (truncate_from_seq disk c seq).1.entries ≡ take (first_from seq c.entries) c.entries
unfolding truncate_from_seq
entries-truncate_from disk c seq =
    elim (Bool-cases (first_from seq c.entries == length c.entries)) [
      | inl all ↦
          let e : first_from seq c.entries ≡ length c.entries = ground (arith, all) in
          rw e (ground (arith, take_all c.entries))
      | inr cut ↦ rw cut (
          entries-flush_locked disk
            (record c { entries = take (first_from seq c.entries) c.entries }))
    ]

-- On a well-formed history `truncateFromSeq` keeps exactly the entries that start below the
-- sequence, also when the disk fails, and the history stays well formed.
pub truncate_from_seq_exact :
    (disk : Bool) (c : EpochCache) (seq : ℕ)
    → IsHistory c.entries
    → ((truncate_from_seq disk c seq).1.entries
        ≡ keep_if (λ e. not (leb seq e.start_seq)) c.entries)
      × IsHistory (truncate_from_seq disk c seq).1.entries
truncate_from_seq_exact disk c seq h =
    let e =
      entries-truncate_from disk c seq
      ∙ ap (λ i. take i c.entries) (first_from-scan seq c.entries h)
      ∙ take-first_index (λ e. leb seq e.start_seq) c.entries (Monotone-from seq c.entries h) in
    (e, rw e (keep_if-IsHistory (λ e. not (leb seq e.start_seq)) c.entries h))

-- The entries that `truncateBeforeSeq` keeps, with the scan for the search.
abbrev trimmed : List EpochEntry → ℕ → List EpochEntry
trimmed es i = if leb i 1 then es else drop (i - 1) es

drop-IsHistory : (n : ℕ) (es : List EpochEntry) → IsHistory es → IsHistory (drop n es)
drop-IsHistory zero es h = h
drop-IsHistory (suc n) [] h = tt
drop-IsHistory (suc n) (x ∷ es) h = drop-IsHistory n es h.2

trimmed-cons :
    (x y : EpochEntry) (es : List EpochEntry) (i : ℕ)
    → trimmed (x ∷ y ∷ es) (suc (suc i)) ≡ trimmed (y ∷ es) (suc i)
trimmed-cons x y es zero = ground arith
trimmed-cons x y es (suc i) =
    let e : suc (suc (suc i)) - 1 ≡ suc (suc i) = omega arith in
    let e' : suc (suc i) - 1 ≡ suc i = omega arith in rw (e, e') (ground arith)

module _ (seq s : ℕ) (later : seq ≤ s) where
  abbrev after : EpochEntry → Bool
  after e = ltb seq e.start_seq

  abbrev after' : EpochEntry → Bool
  after' e = ltb s e.start_seq

  last_before-trimmed :
      (prev : EpochEntry) (es : List EpochEntry)
      → last_before after' prev (trimmed es (first_index after es)) ≡ last_before after' prev es
  last_before-trimmed prev [] = refl
  last_before-trimmed prev (x ∷ []) = ground arith
  last_before-trimmed prev (x ∷ y ∷ es) = elim (Bool-cases (after x)) [
    | inl above ↦ rw above
    | inr below ↦ elim (Bool-cases (after y)) [
      | inl above ↦ rw (below, above)
      | inr below' ↦
          rw (below, below')
            (ap (last_before after' prev) (trimmed-cons x y es (first_index after es))
              ∙ (rw below' at (last_before-trimmed prev (y ∷ es)))
              ∙ ground (arith, below, below'))
    ]
  ]

entries-truncate_before :
    (disk : Bool) (c : EpochCache) (seq : ℕ)
    → (truncate_before_seq disk c seq).1.entries ≡ trimmed c.entries (first_after seq c.entries)
unfolding truncate_before_seq
entries-truncate_before disk c seq = ground (
  arith,
  entries-flush_locked disk (record c { entries = drop (first_after seq c.entries - 1) c.entries }),
)

trimmed-IsHistory : (es : List EpochEntry) (i : ℕ) → IsHistory es → IsHistory (trimmed es i)
trimmed-IsHistory es i h = elim (Bool-cases (leb i 1)) [
  | inl few ↦ rw few h
  | inr many ↦ rw many (drop-IsHistory (i - 1) es h)
]

-- On a well-formed history `truncateBeforeSeq` keeps it well formed, and places every record at
-- or after the sequence in the epoch in which it was before.
pub truncate_before_seq_keeps :
    (disk : Bool) (c : EpochCache) (seq s : ℕ)
    → IsHistory c.entries
    → seq ≤ s
    → IsHistory (truncate_before_seq disk c seq).1.entries
      × (epoch_for_seq (truncate_before_seq disk c seq).1 s ≡ epoch_for_seq c s)
truncate_before_seq_keeps disk c seq s h later =
    let e =
      entries-truncate_before disk c seq
      ∙ ap (trimmed c.entries) (first_after-scan seq c.entries h) in
    let kept : IsHistory (truncate_before_seq disk c seq).1.entries =
      rw e (trimmed-IsHistory c.entries (first_index (λ x. ltb seq x.start_seq) c.entries) h) in
    (
      kept,
      epoch_for_seq_covers (truncate_before_seq disk c seq).1 s kept
          ∙ ap (λ es. (last_before (λ x. ltb s x.start_seq) no_entry es).epoch) e
          ∙ ap (λ (x : EpochEntry). x.epoch) (last_before-trimmed seq s later no_entry c.entries)
          ∙ sym (epoch_for_seq_covers c s h),
    )
