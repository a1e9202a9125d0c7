-- ===== src/Dedup/Once.antt =====
-- One submission, one claim: the promise of the claim table to a client that retries.
use boltq.Prelude.{
  ℕ, ◌+◌, ◌<◌, ◌≡◌, ◌≢◌, refl, ap, sym, ◌∙◌, true, List, some, arith, ltb, str_eq_iff, Bool-cases,
  Option-cases, inl, inr,
}
use boltq.Dedup.{
  Entry, Result, Config, Table, Key, fresh, duplicate, known_claim, claim, claim_found,
  claimed_entry, complete, lookup, lookup_found, key_string, with_shard,
}
use boltq.Dedup.Shards.{find, IsTable, find-put, with_shard-IsTable}
use boltq.Dedup.Claims.{claim-by-find, claim-IsTable, take_claim_self}
use boltq.Dedup.Window.{
  Op, run, Held, Lasting, HasResult, AllAllowed, run-Held, Held-claim, cfg-claim, completed_entry,
}

known-ne-fresh : (e : Entry) → known_claim e ≢ fresh
unfolding known_claim
known-ne-fresh e = ground arith

-- A fresh claim leaves its entry behind.
fresh-claim :
    (t : Table) (k : Key) (now : ℕ)
    → IsTable t
    → (claim t k now).0 ≡ fresh
    → find (claim t k now).1 (key_string k) ≡ some (claimed_entry t.cfg now)
unfolding claim_found
fresh-claim t k now h e = rw claim-by-find (elim (Option-cases (find t (key_string k))) [
  | inl absent ↦ rw absent (take_claim_self t (key_string k) now h)
  | inr (old, held) ↦ elim (Bool-cases (ltb now old.expires)) [
    | inl busy ↦
        absurd (known-ne-fresh old (rw (held, claim_found, busy) at (rw claim-by-find at e)))
    | inr over ↦ rw (held, over) (take_claim_self t (key_string k) now h)
  ]
])

-- Once a key is claimed, no claim of it succeeds while the claim lasts, whatever calls come between
-- that do not abandon it: claims, completions and sweeps of any keys included.
pub claim_once :
    (t : Table) (k : Key) (from : ℕ) (ops : List (ℕ × Op)) (now : ℕ)
    → IsTable t
    → (claim t k from).0 ≡ fresh
    → AllAllowed Lasting (key_string k) from (from + t.cfg.ttl) ops
    → now < from + t.cfg.ttl
    → (claim (run (claim t k from).1 ops) k now).0 ≢ fresh
claim_once t k from ops now h won ok before again =
    let claimed : Held Lasting (key_string k) t.cfg.ttl (from + t.cfg.ttl) (claim t k from).1 =
      record {
        table = claim-IsTable t k from h;
        ttl_is = ap (λ (c : Config). c.ttl) (cfg-claim t k from);
        entry = claimed_entry t.cfg from;
        found = fresh-claim t k from h won;
        lasts = omega arith;
        holds = tt;
      } in
    let later =
      run-Held Lasting (key_string k) t.cfg.ttl from (from + t.cfg.ttl) (omega arith)
        (claim t k from).1 ops ok claimed in
    known-ne-fresh later.entry (
      sym (Held-claim Lasting (key_string k) t.cfg.ttl (from + t.cfg.ttl) _ k now later refl before)
      ∙ again)

known-duplicate :
    (e : Entry) (r : Result) → e.complete ≡ true → e.result ≡ r → known_claim e ≡ duplicate r
unfolding known_claim
known-duplicate e r done same = ground (arith, done, same)

lookup-by-find :
    (t : Table) (k : Key) (now : ℕ) → lookup t k now ≡ lookup_found (find t (key_string k)) now
unfolding lookup find
lookup-by-find t k now = refl

lookup-answers :
    (e : Entry) (r : Result) (now : ℕ)
    → e.complete ≡ true
    → e.result ≡ r
    → now < e.expires
    → lookup_found (some e) now ≡ some r
unfolding lookup_found
lookup-answers e r now done same before = ground (arith, done, same, before)

-- Once a submission is completed, every retry of it within the time that a claim lasts gets the
-- recorded outcome, from `Claim` and from `Lookup`, whatever calls come between that do not
-- complete its key with another outcome: abandoning it included.
pub complete_answers :
    (t : Table) (k : Key) (r : Result) (from : ℕ) (ops : List (ℕ × Op)) (now : ℕ)
    → IsTable t
    → AllAllowed (HasResult r) (key_string k) from (from + t.cfg.ttl) ops
    → now < from + t.cfg.ttl
    → ((claim (run (complete t k r from) ops) k now).0 ≡ duplicate r)
      × (lookup (run (complete t k r from) ops) k now ≡ some r)
unfolding complete
complete_answers t k r from ops now h ok before =
    let stored : Held (HasResult r) (key_string k) t.cfg.ttl (from + t.cfg.ttl)
        (complete t k r from) =
      record {
        table = with_shard-IsTable t (key_string k) _ h;
        ttl_is = unfold with_shard in refl;
        entry = completed_entry r (from + t.cfg.ttl);
        found =
            find-put t (key_string k) (key_string k) _ h
            ∙ rw ((str_eq_iff (key_string k) (key_string k)).1 refl);
        lasts = omega arith;
        holds = (refl, refl);
      } in
    let later =
      run-Held (HasResult r) (key_string k) t.cfg.ttl from (from + t.cfg.ttl) (omega arith)
        (complete t k r from) ops ok stored in
    (
      Held-claim (HasResult r) (key_string k) t.cfg.ttl (from + t.cfg.ttl) _ k now later refl before
          ∙ known-duplicate later.entry r later.holds.0 later.holds.1,
      lookup-by-find _ k now
          ∙ ap (λ o. lookup_found o now) later.found
          ∙ lookup-answers later.entry r now later.holds.0 later.holds.1
              (omega (arith, later.lasts)),
    )
