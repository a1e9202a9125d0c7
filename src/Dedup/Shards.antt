-- ===== src/Dedup/Shards.antt =====
-- The shards as one map: which shard a key is in cannot be seen.
use native.Mathlib.Nat.{mod-lt}
use boltq.Prelude.{
  ℕ, zero, suc, ◌+◌, ◌<◌, ◌≡◌, ◌≢◌, refl, ap, sym, ◌∙◌, false, List, [], ◌∷◌, Option, none, some,
  arith, ◌==◌, if◌then◌else◌, GoString, str_eq, str_eq_iff, string_eq, length, get_or, length-set,
  get_or-set_self, get_or-set_ne, Bool-cases, inl, inr,
}
use boltq.Prelude.Dict.{get, put, remove, kept, get-put, get-remove, get-keep, size-keep-le}
use boltq.Dedup.{
  Entry, Table, Shard, shard_count, hash_key, shard_of, with_shard, not_expired, sweep_shards,
  sweep, total_size, len,
}

-- The entry of a key string, wherever it is.
unfoldable pub find : Table → GoString → Option Entry
find t ks = get (shard_of t ks) ks

abbrev pub IsTable : Table → Type 0
IsTable t = length t.shards ≡ shard_count

hash_key-in-range : (ks : GoString) → hash_key ks < shard_count
unfolding hash_key
hash_key-in-range ks = mod-lt _ (omega arith)

-- Writing the shard of one key is seen by the keys of that shard.
pub find-with_shard :
    (t : Table) (ks js : GoString) (sh : Shard)
    → IsTable t
    → find (with_shard t ks sh) js ≡ (if hash_key ks == hash_key js then get sh js else find t js)
unfolding find with_shard shard_of
find-with_shard t ks js sh h = elim (Bool-cases (hash_key ks == hash_key js)) [
  | inl same ↦
      let e : hash_key ks ≡ hash_key js = ground (arith, same) in
      rw (same, e)
        (ap (λ d. get d js)
          (get_or-set_self t.shards (hash_key js) sh [] (omega (arith, h, hash_key-in-range js))))
  | inr other ↦ rw other (
      ap (λ d. get d js)
        (get_or-set_ne t.shards (hash_key ks) (hash_key js) sh [] (λ e. ground (arith, other, e))))
]

-- Two keys of one shard look into the same map.
pub shard_of_same :
    (t : Table) (ks js : GoString) → hash_key ks ≡ hash_key js → shard_of t ks ≡ shard_of t js
unfolding shard_of
shard_of_same t ks js e = ap (λ i. get_or t.shards i []) e

-- An update of the shard that changes each of its keys by `g` changes every key of the table so,
-- where `g` leaves the keys of the other shards alone.
pub find_updated :
    (t : Table) (ks js : GoString) (sh : Shard) (g : Option Entry → Option Entry)
    → IsTable t
    → get sh js ≡ g (get (shard_of t ks) js)
    → (hash_key ks ≢ hash_key js → g (find t js) ≡ find t js)
    → find (with_shard t ks sh) js ≡ g (find t js)
find_updated t ks js sh g h inside outside = elim (Bool-cases (hash_key ks == hash_key js)) [
  | inl same ↦
      let e : hash_key ks ≡ hash_key js = ground (arith, same) in
      find-with_shard t ks js sh h
      ∙ rw same (inside ∙ unfold find in ap (λ d. g (get d js)) (shard_of_same t ks js e))
  | inr other ↦
      find-with_shard t ks js sh h ∙ rw other (sym (outside (λ e. ground (arith, other, e))))
]

-- A key of another shard is another key.
pub other_key : (ks js : GoString) → hash_key ks ≢ hash_key js → str_eq ks js ≡ false
other_key ks js h = elim (Bool-cases (str_eq ks js)) [
  | inl same ↦ absurd (h (ap hash_key ((str_eq_iff ks js).0 same)))
  | inr e ↦ e
]

pub find-put :
    (t : Table) (ks js : GoString) (e : Entry)
    → IsTable t
    → find (with_shard t ks (put (shard_of t ks) ks e)) js
      ≡ (if str_eq ks js then some e else find t js)
find-put t ks js e h =
    find_updated t ks js (put (shard_of t ks) ks e) (λ o. if str_eq ks js then some e else o) h
      (get-put (shard_of t ks) ks e js) (λ ne. rw (other_key ks js ne))

pub find-remove :
    (t : Table) (ks js : GoString)
    → IsTable t
    → find (with_shard t ks (remove (shard_of t ks) ks)) js
      ≡ (if str_eq ks js then none else find t js)
find-remove t ks js h =
    find_updated t ks js (remove (shard_of t ks) ks) (λ o. if str_eq ks js then none else o) h
      (get-remove (shard_of t ks) ks js) (λ ne. rw (other_key ks js ne))

pub with_shard-IsTable :
    (t : Table) (ks : GoString) (sh : Shard) → IsTable t → IsTable (with_shard t ks sh)
unfolding with_shard
with_shard-IsTable t ks sh h = length-set t.shards (hash_key ks) sh ∙ h

sweep_shards-get :
    (now : ℕ) (shs : List Shard) (i : ℕ) (ks : GoString)
    → get (get_or (sweep_shards now shs).1 i []) ks
      ≡ kept (not_expired now) ks (get (get_or shs i []) ks)
unfolding sweep_shards
sweep_shards-get now [] i ks = unfold get in refl
sweep_shards-get now (sh ∷ shs) zero ks = get-keep (not_expired now) sh ks
sweep_shards-get now (sh ∷ shs) (suc i) ks = sweep_shards-get now shs i ks

length-sweep_shards : (now : ℕ) (shs : List Shard) → length (sweep_shards now shs).1 ≡ length shs
unfolding sweep_shards
length-sweep_shards now [] = refl
length-sweep_shards now (sh ∷ shs) = ap suc (length-sweep_shards now shs)

sweep_shards-count :
    (now : ℕ) (shs : List Shard)
    → (sweep_shards now shs).0 + total_size (sweep_shards now shs).1 ≡ total_size shs
unfolding sweep_shards total_size
sweep_shards-count now [] = refl
sweep_shards-count now (sh ∷ shs) =
    omega (arith, sweep_shards-count now shs, size-keep-le (not_expired now) sh)

-- `Sweep` drops exactly the claims whose expiry has passed, and returns how many it dropped.
pub sweep_exact :
    (t : Table) (now : ℕ)
    → ((ks : GoString) → find (sweep t now).1 ks ≡ kept (not_expired now) ks (find t ks))
      × ((sweep t now).0 + len (sweep t now).1 ≡ len t)
unfolding sweep find shard_of len
sweep_exact t now =
    (λ ks. sweep_shards-get now t.shards (hash_key ks) ks, sweep_shards-count now t.shards)

pub sweep-IsTable : (t : Table) (now : ℕ) → IsTable t → IsTable (sweep t now).1
unfolding sweep
sweep-IsTable t now h = length-sweep_shards now t.shards ∙ h
