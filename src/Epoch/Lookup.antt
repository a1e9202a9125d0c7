-- ===== src/Epoch/Lookup.antt =====
-- The lookups of the epoch history, against scans of it.
use boltq.Prelude.{
  ℕ, zero, suc, ◌-◌, ◌≤◌, ◌≡◌, refl, ap, ◌∙◌, Bool, List, [], ◌∷◌, arith, ltb, leb, ◌==◌,
  if◌then◌else◌, length, get_or, All-mono, Bool-cases, inl, inr,
}
use boltq.Prelude.Search.{first_index, Monotone, search-eq-first_index}
use boltq.Epoch.{
  EpochEntry, EpochCache, undefined_epoch, no_entry, entry_at, last_entry, first_newer, first_after,
  first_from, end_offset_for, epoch_for_seq,
}
use boltq.Epoch.History.{IsHistory, last_entry-cons, last_entry_one}

Monotone-newer :
    (epoch : ℕ) (es : List EpochEntry) → IsHistory es → Monotone (λ e. ltb epoch e.epoch) es
Monotone-newer epoch [] h = tt
Monotone-newer epoch (e ∷ es) h = (
  λ newer. All-mono es (λ x later. ground (arith, newer, later.0)) h.1,
  Monotone-newer epoch es h.2,
)

Monotone-after :
    (seq : ℕ) (es : List EpochEntry) → IsHistory es → Monotone (λ e. ltb seq e.start_seq) es
Monotone-after seq [] h = tt
Monotone-after seq (e ∷ es) h = (
  λ above. All-mono es (λ x later. ground (arith, above, later.1)) h.1,
  Monotone-after seq es h.2,
)

pub Monotone-from :
    (seq : ℕ) (es : List EpochEntry) → IsHistory es → Monotone (λ e. leb seq e.start_seq) es
Monotone-from seq [] h = tt
Monotone-from seq (e ∷ es) h =
    (λ above. All-mono es (λ x later. ground (arith, above, later.1)) h.1, Monotone-from seq es h.2)

pub first_newer-scan :
    (epoch : ℕ) (es : List EpochEntry)
    → IsHistory es
    → first_newer epoch es ≡ first_index (λ e. ltb epoch e.epoch) es
unfolding first_newer
first_newer-scan epoch es h =
    search-eq-first_index (λ e. ltb epoch e.epoch) no_entry es (Monotone-newer epoch es h)

pub first_after-scan :
    (seq : ℕ) (es : List EpochEntry)
    → IsHistory es
    → first_after seq es ≡ first_index (λ e. ltb seq e.start_seq) es
unfolding first_after
first_after-scan seq es h =
    search-eq-first_index (λ e. ltb seq e.start_seq) no_entry es (Monotone-after seq es h)

pub first_from-scan :
    (seq : ℕ) (es : List EpochEntry)
    → IsHistory es
    → first_from seq es ≡ first_index (λ e. leb seq e.start_seq) es
unfolding first_from
first_from-scan seq es h =
    search-eq-first_index (λ e. leb seq e.start_seq) no_entry es (Monotone-from seq es h)

-- The last entry before the test passes, or `prev`.
abbrev pub last_before : (EpochEntry → Bool) → EpochEntry → List EpochEntry → EpochEntry
last_before p prev [] = prev
last_before p prev (x ∷ xs) = if p x then prev else last_before p x xs

entry_before_index :
    (p : EpochEntry → Bool) (prev : EpochEntry) (es : List EpochEntry)
    → (if first_index p es == 0 then prev else entry_at es (first_index p es - 1))
      ≡ last_before p prev es
unfolding entry_at
entry_before_index p prev [] = refl
entry_before_index p prev (x ∷ xs) = elim (Bool-cases (p x)) [
  | inl hit ↦ rw hit
  | inr miss ↦ rw miss (shifted (first_index p xs) ∙ entry_before_index p x xs)
]
  where
    shifted :
        (i : ℕ)
        → (if suc i == 0 then prev else get_or (x ∷ xs) (suc i - 1) no_entry)
          ≡ (if i == 0 then x else get_or xs (i - 1) no_entry)
    shifted zero = refl
    shifted (suc i) =
        let e : suc (suc i) - 1 ≡ suc i = omega arith in
        let e' : suc i - 1 ≡ i = omega arith in rw (e, e') (ground arith)

-- On a well-formed history `epochForSeq` is the epoch of the last entry that starts at or before
-- the sequence, and the undefined epoch when every entry starts after it.
pub epoch_for_seq_covers :
    (c : EpochCache) (seq : ℕ)
    → IsHistory c.entries
    → epoch_for_seq c seq ≡ (last_before (λ e. ltb seq e.start_seq) no_entry c.entries).epoch
unfolding epoch_for_seq
epoch_for_seq_covers c seq h = rw (first_after-scan seq c.entries h) (
    push_epoch (first_index (λ e. ltb seq e.start_seq) c.entries)
    ∙ ap (λ (e : EpochEntry). e.epoch)
        (entry_before_index (λ e. ltb seq e.start_seq) no_entry c.entries))
  where
    push_epoch :
        (i : ℕ)
        → (if i == 0 then undefined_epoch else (entry_at c.entries (i - 1)).epoch)
          ≡ (if i == 0 then no_entry else entry_at c.entries (i - 1)).epoch
    push_epoch zero = refl
    push_epoch (suc i) = ground arith

-- Where a term ended, scanning the history: before its first entry nothing is known; the open term
-- ends at the log's end, and any other where the next one begins.
abbrev pub term_end : ℕ → ℕ → List EpochEntry → ℕ × ℕ
term_end epoch log_end [] = (undefined_epoch, 0)
term_end epoch log_end (x ∷ []) =
    if ltb epoch x.epoch then (undefined_epoch, 0) else (x.epoch, log_end)
term_end epoch log_end (x ∷ y ∷ es) =
    if ltb epoch x.epoch
    then (undefined_epoch, 0)
    else if ltb epoch y.epoch
    then (x.epoch, y.start_seq)
    else term_end epoch log_end (y ∷ es)

-- The body of `endOffsetFor` over a history that is not empty, with the scan for the search.
abbrev ends : ℕ → ℕ → List EpochEntry → ℕ → ℕ × ℕ
ends epoch log_end es i =
    if leb (last_entry es).epoch epoch
    then ((last_entry es).epoch, log_end)
    else if i == 0
    then (undefined_epoch, 0)
    else ((entry_at es (i - 1)).epoch, (entry_at es i).start_seq)

-- Dropping an entry that is not newer than the epoch moves the index down by one.
ends-cons :
    (epoch log_end : ℕ) (x y : EpochEntry) (es : List EpochEntry) (i : ℕ)
    → ends epoch log_end (x ∷ y ∷ es) (suc (suc i)) ≡ ends epoch log_end (y ∷ es) (suc i)
unfolding entry_at
ends-cons epoch log_end x y es i =
    let e : suc (suc i) - 1 ≡ suc i = omega arith in
    let e' : suc i - 1 ≡ i = omega arith in rw (last_entry-cons, e, e') (ground arith)

head-le-last :
    (x : EpochEntry) (es : List EpochEntry)
    → IsHistory (x ∷ es)
    → x.epoch ≤ (last_entry (x ∷ es)).epoch
head-le-last x [] h = rw last_entry_one (omega arith)
head-le-last x (y ∷ es) h = rw last_entry-cons (omega (arith, head-le-last y es h.2, h.1.0.0))

ends-term_end :
    (epoch log_end : ℕ) (x : EpochEntry) (es : List EpochEntry)
    → IsHistory (x ∷ es)
    → ends epoch log_end (x ∷ es) (first_index (λ e. ltb epoch e.epoch) (x ∷ es))
      ≡ term_end epoch log_end (x ∷ es)
ends-term_end epoch log_end x [] h = rw last_entry_one (ground arith)
ends-term_end epoch log_end x (y ∷ es) h = elim (Bool-cases (ltb epoch x.epoch)) [
  | inl older ↦ rw older (ground (arith, head-le-last x (y ∷ es) h, older))
  | inr known ↦ elim (Bool-cases (ltb epoch y.epoch)) [
    | inl newer ↦
        unfold entry_at in
        rw (known, newer, last_entry-cons x y es) (ground (arith, head-le-last y es h.2, newer))
    | inr later ↦
        rw (known, later)
          (ends-cons epoch log_end x y es (first_index (λ e. ltb epoch e.epoch) es)
            ∙ (rw later at (ends-term_end epoch log_end y es h.2)))
  ]
]

end_offset_for-eq-term_end :
    (c : EpochCache) (epoch log_end : ℕ)
    → IsHistory c.entries
    → end_offset_for c epoch log_end ≡ term_end epoch log_end c.entries
unfolding end_offset_for
end_offset_for-eq-term_end c epoch log_end h =
    rw (first_newer-scan epoch c.entries h) (go c.entries h)
  where
    go :
        (es : List EpochEntry)
        → IsHistory es
        → (if length es == 0
            then (undefined_epoch, 0)
            else ends epoch log_end es (first_index (λ e. ltb epoch e.epoch) es))
          ≡ term_end epoch log_end es
    go [] h = refl
    go (x ∷ es) h = ground (arith, ends-term_end epoch log_end x es h)

-- A query for an epoch that is no newer than the latest of a well-formed history is answered as the
-- scan does: nothing for an empty history or an epoch before it, the log's end for the latest epoch,
-- and for any other the last epoch that is not newer, with the start of the next.
pub end_offset_for_exact :
    (c : EpochCache) (epoch log_end : ℕ)
    → IsHistory c.entries
    → epoch ≤ (last_entry c.entries).epoch
    → end_offset_for c epoch log_end ≡ term_end epoch log_end c.entries
end_offset_for_exact c epoch log_end h known = end_offset_for-eq-term_end c epoch log_end h
