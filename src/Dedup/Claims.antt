-- ===== src/Dedup/Claims.antt =====
-- What the claim table promises over any sequence of calls.
use boltq.Prelude.{
  ℕ, ◌<◌, ◌≡◌, ◌≢◌, ◌⊎◌, refl, ap, ◌∙◌, true, false, some, arith, ltb, ◌==◌, ==_iff, GoString,
  str_eq, str_eq_iff, string_eq, Bool-cases, Option-cases, inl, inr,
}
use boltq.Prelude.Dict.{get, put, get-put, get-put_self, get-keep}
use boltq.Dedup.{
  Entry, Config, Table, Key, Shard, hash_key, shard_of, not_expired, make_room, take_claim,
  claimed_entry, claim, claim_found, abandon_found, abandon, key_string,
}
use boltq.Dedup.Shards.{
  find, IsTable, find-with_shard, find-remove, shard_of_same, with_shard-IsTable,
}

-- An entry that has not expired survives the making of room.
make_room-keeps :
    (cfg : Config) (now : ℕ) (sh : Shard) (js : GoString) (e : Entry)
    → get sh js ≡ some e
    → now < e.expires
    → get (make_room cfg now sh) js ≡ some e
unfolding make_room
make_room-keeps cfg now sh js e found alive =
    ground (arith, get-keep (not_expired now) sh js, found, alive)

take_claim-other :
    (t : Table) (ks js : GoString) (now : ℕ) (e : Entry)
    → IsTable t
    → str_eq ks js ≡ false
    → find t js ≡ some e
    → now < e.expires
    → find (take_claim t ks now).1 js ≡ some e
unfolding take_claim find
take_claim-other t ks js now e h ne found alive = elim (Bool-cases (hash_key ks == hash_key js)) [
  | inl same ↦
      let room = make_room t.cfg now (shard_of t ks) in
      let here : get (shard_of t ks) js ≡ some e =
        ap (λ d. get d js) (shard_of_same t ks js (ground (arith, same))) ∙ found in
      find-with_shard t ks js _ h
      ∙ rw same (
          get-put room ks (claimed_entry t.cfg now) js
          ∙ rw ne (make_room-keeps t.cfg now (shard_of t ks) js e here alive))
  | inr other ↦ find-with_shard t ks js _ h ∙ rw other found
]

pub take_claim_self :
    (t : Table) (ks : GoString) (now : ℕ)
    → IsTable t
    → find (take_claim t ks now).1 ks ≡ some (claimed_entry t.cfg now)
unfolding take_claim
take_claim_self t ks now h =
    find-with_shard t ks ks _ h
    ∙ rw ((==_iff (hash_key ks) (hash_key ks)).1 refl)
        (get-put_self (make_room t.cfg now (shard_of t ks)) ks (claimed_entry t.cfg now))

different :
    (t : Table) (ks js : GoString) (e : Entry)
    → find t js ≡ some e
    → find t ks ≢ some e
    → str_eq ks js ≡ false
different t ks js e found h = elim (Bool-cases (str_eq ks js)) [
  | inl same ↦ absurd (h (ap (find t) ((str_eq_iff ks js).0 same) ∙ found))
  | inr ne ↦ ne
]

pub claim-by-find :
    (t : Table) (k : Key) (now : ℕ)
    → claim t k now ≡ claim_found (find t (key_string k)) t (key_string k) now
unfolding claim find
claim-by-find t k now = refl

abandon-by-find :
    (t : Table) (k : Key) → abandon t k ≡ abandon_found (find t (key_string k)) t (key_string k)
unfolding abandon find
abandon-by-find t k = refl

-- A claim leaves every entry alone that has not expired.
pub claim-keeps :
    (t : Table) (k : Key) (js : GoString) (now : ℕ) (e : Entry)
    → IsTable t
    → find t js ≡ some e
    → now < e.expires
    → find (claim t k now).1 js ≡ some e
unfolding claim_found
claim-keeps t k js now e h found alive =
    rw claim-by-find (elim (Option-cases (find t (key_string k))) [
      | inl absent ↦
          rw (absent, claim_found)
            (take_claim-other t (key_string k) js now e h
              (different t (key_string k) js e found λ q. cc) found alive)
      | inr (old, held) ↦ elim (Bool-cases (ltb now old.expires)) [
        | inl busy ↦ rw (held, claim_found, busy) found
        | inr over ↦
            rw (held, claim_found, over)
              (take_claim-other t (key_string k) js now e h
                (different t (key_string k) js e found λ q. ground (arith, held, q, over, alive))
                found alive)
      ]
    ])

pub claim-IsTable : (t : Table) (k : Key) (now : ℕ) → IsTable t → IsTable (claim t k now).1
unfolding claim take_claim
claim-IsTable t k now h = ground (
  arith,
  with_shard-IsTable t (key_string k)
      (put (make_room t.cfg now (shard_of t (key_string k))) (key_string k)
        (claimed_entry t.cfg now))
      h,
)

-- Abandoning drops an entry only if it is the key's own and not complete.
pub abandon-keeps :
    (t : Table) (k : Key) (js : GoString) (e : Entry)
    → IsTable t
    → find t js ≡ some e
    → (str_eq (key_string k) js ≡ false) ⊎ (e.complete ≡ true)
    → find (abandon t k) js ≡ some e
unfolding abandon_found
abandon-keeps t k js e h found spared =
    rw abandon-by-find (elim (Option-cases (find t (key_string k))) [
      | inl absent ↦ rw absent found
      | inr (old, held) ↦ elim (Bool-cases old.complete) [
        | inl finished ↦ rw (held, finished) found
        | inr open_claim ↦
            rw (held, open_claim)
              (find-remove t (key_string k) js h ∙ elim spared [
                | inl ne ↦ rw ne found
                | inr done ↦
                    rw
                      (different t (key_string k) js e found
                        λ q. ground (arith, held, q, open_claim, done))
                      found
              ])
      ]
    ])
