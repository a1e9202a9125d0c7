-- ===== src/Epoch/History.antt =====
-- The well-formed histories, and that `assign` keeps them.
use boltq.Prelude.{
  ℕ, suc, ◌-◌, ◌≤◌, ◌<◌, ◌≡◌, refl, ap, ◌&&◌, ◌||◌, Bool, true, List, [], ◌∷◌, ◌++◌, arith, ltb,
  leb, ◌==◌, if◌then◌else◌, length, get_or, All, All-append, Bool-cases, inl, inr,
}
use boltq.Epoch.{
  EpochEntry, EpochCache, undefined_epoch, no_entry, last_entry, flush_locked, assign,
}

-- Epochs rise strictly along the history, starts never fall, and no entry has the undefined epoch.
abbrev pub IsHistory : List EpochEntry → Type 0
IsHistory [] = Unit
IsHistory (e ∷ es) =
    (undefined_epoch < e.epoch)
    × All (λ x. (e.epoch < x.epoch) × (e.start_seq ≤ x.start_seq)) es
    × IsHistory es

-- The last entry bounds all others.
abbrev pub BelowLast : EpochEntry → List EpochEntry → Type 0
BelowLast l = All (λ x. (x.epoch < l.epoch) × (x.start_seq ≤ l.start_seq))

IsHistory-snoc :
    (es : List EpochEntry) (l : EpochEntry)
    → undefined_epoch < l.epoch
    → IsHistory es
    → BelowLast l es
    → IsHistory (es ++ l ∷ [])
IsHistory-snoc [] l known h below = (known, tt, tt)
IsHistory-snoc (e ∷ es) l known h below = (
  h.0,
  All-append (λ x. (e.epoch < x.epoch) × (e.start_seq ≤ x.start_seq)) es (l ∷ []) h.1 (below.0, tt),
  IsHistory-snoc es l known h.2 below.1,
)

pub last_entry-cons :
    (e x : EpochEntry) (es : List EpochEntry) → last_entry (e ∷ x ∷ es) ≡ last_entry (x ∷ es)
unfolding last_entry
last_entry-cons e x es =
    let shift : length (e ∷ x ∷ es) - 1 ≡ suc (length (x ∷ es) - 1) = omega arith in
    ap (λ i. get_or (e ∷ x ∷ es) i no_entry) shift

pub last_entry_one : (e : EpochEntry) → last_entry (e ∷ []) ≡ e
unfolding last_entry
last_entry_one e = refl

-- What is above the last entry is above all.
below_new :
    (es : List EpochEntry) (l : EpochEntry)
    → IsHistory es
    → (last_entry es).epoch < l.epoch
    → (last_entry es).start_seq ≤ l.start_seq
    → BelowLast l es
below_new [] l h he hs = tt
below_new (e ∷ []) l h he hs = ((rw last_entry_one at he, rw last_entry_one at hs), tt)
below_new (e ∷ x ∷ es) l h he hs =
    let rest : BelowLast l (x ∷ es) =
      below_new (x ∷ es) l h.2 (rw last_entry-cons at he) (rw last_entry-cons at hs) in
    ((omega arith, omega arith), rest)

-- Writing the checkpoint leaves the history in memory alone.
pub entries-flush_locked :
    (disk : Bool) (c : EpochCache) → (flush_locked disk c).1.entries ≡ c.entries
unfolding flush_locked
entries-flush_locked disk c = ground arith

-- What `assign` does with a request, by the history alone.
abbrev pub accepted : List EpochEntry → EpochEntry → Bool
accepted es l =
    ltb undefined_epoch l.epoch
    && ((length es == 0)
        || (ltb (last_entry es).epoch l.epoch && leb (last_entry es).start_seq l.start_seq))

accepted-IsHistory :
    (es : List EpochEntry) (l : EpochEntry)
    → IsHistory es
    → accepted es l ≡ true
    → IsHistory (es ++ l ∷ [])
accepted-IsHistory [] l h ok = (ground arith, tt, tt)
accepted-IsHistory (e ∷ es) l h ok =
    IsHistory-snoc (e ∷ es) l (ground (arith, ok)) h
      (below_new (e ∷ es) l h (ground (arith, ok)) (ground (arith, ok)))

entries-assign :
    (disk : Bool) (c : EpochCache) (epoch start_seq : ℕ)
    → let l : EpochEntry = record { epoch = epoch; start_seq = start_seq } in
      (assign disk c epoch start_seq).1.entries
      ≡ (if accepted c.entries l then c.entries ++ l ∷ [] else c.entries)
unfolding assign
entries-assign disk c epoch start_seq = ground arith

-- On a well-formed history `assign` appends exactly the epochs that are defined, newer than the
-- last one and start no earlier, leaves the history alone otherwise, and keeps it well formed,
-- also when the disk fails.
pub assign-IsHistory :
    (disk : Bool) (c : EpochCache) (epoch start_seq : ℕ)
    → IsHistory c.entries
    → let l : EpochEntry = record { epoch = epoch; start_seq = start_seq } in
      ((assign disk c epoch start_seq).1.entries
        ≡ (if accepted c.entries l then c.entries ++ l ∷ [] else c.entries))
      × IsHistory (assign disk c epoch start_seq).1.entries
assign-IsHistory disk c epoch start_seq h =
    let l : EpochEntry = record { epoch = epoch; start_seq = start_seq } in
    let e = entries-assign disk c epoch start_seq in
    (
      e,
      elim (Bool-cases (accepted c.entries l)) [
        | inl ok ↦ rw (e, ok) (accepted-IsHistory c.entries l h ok)
        | inr refused ↦ rw (e, refused) h
      ],
    )
