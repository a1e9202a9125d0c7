-- ===== src/Dedup/Window.antt =====
-- Sequences of calls on the claim table, and what they keep of one key's entry.
use boltq.Prelude.{
  ℕ, ◌+◌, ◌≤◌, ◌<◌, ◌≡◌, ◌⊎◌, refl, ap, ◌∙◌, true, false, List, [], ◌∷◌, some, arith, GoString,
  str_eq, string_eq, Bool-cases, inl, inr,
}
use boltq.Prelude.Dict.{remove}
use boltq.Dedup.{
  Entry, Result, Config, Table, Key, shard_of, with_shard, known_claim, claim, claim_found,
  complete, abandon, sweep, key_string,
}
use boltq.Dedup.Shards.{find, IsTable, find-put, with_shard-IsTable, sweep_exact, sweep-IsTable}
use boltq.Dedup.Claims.{claim-keeps, abandon-keeps, claim-by-find, claim-IsTable}

pub data Op : Type 0 where
  claims : Key → Op
  completes : Key → Result → Op
  abandons : Key → Op
  sweeps : Op

pub step : Table → ℕ × Op → Table
step t (now, claims k) = (claim t k now).1
step t (now, completes k r) = complete t k r now
step t (now, abandons k) = abandon t k
step t (now, sweeps) = (sweep t now).1

pub run : Table → List (ℕ × Op) → Table
run t [] = t
run t (op ∷ ops) = run (step t op) ops

pub cfg-claim : (t : Table) (k : Key) (now : ℕ) → (claim t k now).1.cfg ≡ t.cfg
unfolding claim with_shard
cfg-claim t k now = ground arith

cfg-abandon : (t : Table) (k : Key) → (abandon t k).cfg ≡ t.cfg
unfolding abandon with_shard
cfg-abandon t k = ground arith

abandon-IsTable : (t : Table) (k : Key) → IsTable t → IsTable (abandon t k)
unfolding abandon
abandon-IsTable t k h = ground (
  arith,
  with_shard-IsTable t (key_string k) (remove (shard_of t (key_string k)) (key_string k)) h,
)

cfg-sweep : (t : Table) (now : ℕ) → (sweep t now).1.cfg ≡ t.cfg
unfolding sweep
cfg-sweep t now = refl

-- An entry for this key string that lasts until `until` at least and satisfies `P`.
pub record Held (P : Entry → Type 0) (ks : GoString) (ttl until : ℕ) (t : Table) : Type 0 where
  pub table : IsTable t
  pub ttl_is : t.cfg.ttl ≡ ttl
  pub entry : Entry
  pub found : find t ks ≡ some entry
  pub lasts : until ≤ entry.expires
  pub holds : P entry

abbrev pub Lasting : Entry → Type 0
Lasting e = Unit

abbrev pub HasResult : Result → Entry → Type 0
HasResult r e = (e.complete ≡ true) × (e.result ≡ r)

abbrev pub completed_entry : Result → ℕ → Entry
completed_entry r x = record { result = r; expires = x; complete = true }

-- A call at a time in the window that cannot undo `P` at the key.
abbrev pub Allowed : (Entry → Type 0) → GoString → Op → Type 0
Allowed P ks (claims k) = Unit
Allowed P ks (completes k r) =
    (str_eq (key_string k) ks ≡ false) ⊎ ((x : ℕ) → P (completed_entry r x))
Allowed P ks (abandons k) =
    (str_eq (key_string k) ks ≡ false) ⊎ ((e : Entry) → P e → e.complete ≡ true)
Allowed P ks sweeps = Unit

-- Calls at times from `from` on and before `until`.
abbrev pub AllAllowed : (Entry → Type 0) → GoString → ℕ → ℕ → List (ℕ × Op) → Type 0
AllAllowed P ks from until [] = Unit
AllAllowed P ks from until ((now, op) ∷ ops) =
    (from ≤ now) × (now < until) × Allowed P ks op × AllAllowed P ks from until ops

module _ (P : Entry → Type 0) (ks : GoString) (ttl from until : ℕ)
    (window : until ≤ from + ttl) where
  complete-Held :
      (t : Table) (k : Key) (r : Result) (now : ℕ)
      → from ≤ now
      → Allowed P ks (completes k r)
      → Held P ks ttl until t
      → Held P ks ttl until (complete t k r now)
  unfolding complete
  complete-Held t k r now since ok h = elim (Bool-cases (str_eq (key_string k) ks)) [
    | inl same ↦ record {
      table = with_shard-IsTable t (key_string k) _ h.table;
      ttl_is = unfold with_shard in h.ttl_is;
      entry = completed_entry r (now + t.cfg.ttl);
      found = find-put t (key_string k) ks _ h.table ∙ rw same;
      lasts = omega (arith, h.ttl_is);
      holds = own same ok;
    }
    | inr other ↦ record {
      table = with_shard-IsTable t (key_string k) _ h.table;
      ttl_is = unfold with_shard in h.ttl_is;
      entry = h.entry;
      found = find-put t (key_string k) ks _ h.table ∙ rw other h.found;
      lasts = h.lasts;
      holds = h.holds;
    }
  ]
    where
      own :
          str_eq (key_string k) ks ≡ true
          → Allowed P ks (completes k r)
          → P (completed_entry r (now + t.cfg.ttl))
      own same (inl ne) = absurd (ground (arith, same, ne))
      own same (inr p) = p (now + t.cfg.ttl)

  step-Held :
      (t : Table) (now : ℕ) (op : Op)
      → from ≤ now
      → now < until
      → Allowed P ks op
      → Held P ks ttl until t
      → Held P ks ttl until (step t (now, op))
  unfolding step
  step-Held t now (claims k) since before ok h = record {
    table = claim-IsTable t k now h.table;
    ttl_is = ap (λ (c : Config). c.ttl) (cfg-claim t k now) ∙ h.ttl_is;
    entry = h.entry;
    found = claim-keeps t k ks now h.entry h.table h.found (omega (arith, h.lasts));
    lasts = h.lasts;
    holds = h.holds;
  }
  step-Held t now (completes k r) since before ok h = complete-Held t k r now since ok h
  step-Held t now (abandons k) since before ok h = record {
    table = abandon-IsTable t k h.table;
    ttl_is = ap (λ (c : Config). c.ttl) (cfg-abandon t k) ∙ h.ttl_is;
    entry = h.entry;
    found = abandon-keeps t k ks h.entry h.table h.found (spared ok);
    lasts = h.lasts;
    holds = h.holds;
  }
    where
      spared :
          Allowed P ks (abandons k) → (str_eq (key_string k) ks ≡ false) ⊎ (h.entry.complete ≡ true)
      spared (inl ne) = inl ne
      spared (inr q) = inr (q h.entry h.holds)
  step-Held t now sweeps since before ok h = record {
    table = sweep-IsTable t now h.table;
    ttl_is = ap (λ (c : Config). c.ttl) (cfg-sweep t now) ∙ h.ttl_is;
    entry = h.entry;
    found = (sweep_exact t now).0 ks ∙ rw h.found (ground (arith, h.lasts));
    lasts = h.lasts;
    holds = h.holds;
  }

  pub run-Held :
      (t : Table) (ops : List (ℕ × Op))
      → AllAllowed P ks from until ops
      → Held P ks ttl until t
      → Held P ks ttl until (run t ops)
  unfolding run
  run-Held t [] ok h = h
  run-Held t ((now, op) ∷ ops) ok h =
      run-Held (step t (now, op)) ops ok.3 (step-Held t now op ok.0 ok.1 ok.2 h)

-- A key whose entry has not expired is not claimed.
pub Held-claim :
    (P : Entry → Type 0) (ks : GoString) (ttl until : ℕ) (t : Table) (k : Key) (now : ℕ)
    (h : Held P ks ttl until t)
    → key_string k ≡ ks
    → now < until
    → (claim t k now).0 ≡ known_claim h.entry
unfolding claim_found
Held-claim P ks ttl until t k now h e before =
    rw (claim-by-find, e, h.found) (ground (arith, h.lasts))
