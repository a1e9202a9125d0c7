-- ===== src/Cache/Account.antt =====
-- The cache's account of its memory (internal/cache/store.go).
use boltq.Prelude.{
  ℕ, zero, suc, ◌+◌, ◌≡◌, refl, ap, ◌∙◌, List, [], ◌∷◌, Option, none, some, GoString, string_eq,
  str_eq_iff, length, arith, Bool-cases, inl, inr,
}
use boltq.Prelude.Int.{ℤ, pos, negsuc, ◌+ℤ◌, ◌-ℤ◌}
use boltq.Prelude.Dict.{
  Dict, get, put, remove, cost, total, Unique, total-put, total-remove, put-Unique, remove-Unique,
  get-put, get-remove,
}
use boltq.Cache.{
  Entry, Store, is_expired, remove_entry, evict_one, stored, without_old, set_value, get_value,
  get_found, del, del_found, exists, exists_found, with_ttl, expire, expire_found, flush_all,
  clean_found, clean_each, clean_expired, new_store, deadline,
}

abbrev pub bytes : GoString → Entry → ℕ
bytes k e = length k + length e.value

-- The account is the number of bytes in the keys and values, and each entry is under its own key.
pub record AccountOf (data_map : Dict GoString Entry) (mem_used : ℤ) : Type 0 where
  pub unique : Unique data_map
  pub used : mem_used ≡ pos (total bytes data_map)
  pub own_key : (k : GoString) (e : Entry) → get data_map k ≡ some e → e.key ≡ k

abbrev pub Accounted : Store → Type 0
Accounted s = AccountOf s.data_map s.mem_used

remove-Account :
    (s : Store) (key : GoString) (e : Entry)
    → get s.data_map key ≡ some e
    → Accounted s
    → Accounted (remove_entry s key e)
unfolding remove_entry
remove-Account s key e found a = record {
  unique = remove-Unique s.data_map key a.unique;
  used = taken (total-remove bytes s.data_map key a.unique);
  own_key = λ k x h. a.own_key k x (ground (arith, h, get-remove s.data_map key k));
}
  where
    taken :
        total bytes s.data_map
          ≡ total bytes (remove s.data_map key) + cost bytes key (get s.data_map key)
        → s.mem_used -ℤ pos (length key + length e.value)
          ≡ pos (total bytes (remove s.data_map key))
    taken q = rw a.used (unfold ◌-ℤ◌ in ground (arith, rw found at q))

put-Account :
    (s : Store) (key : GoString) (e : Entry) (used : ℤ)
    → e.key ≡ key
    → used ≡ pos (total bytes (put s.data_map key e))
    → Accounted s
    → AccountOf (put s.data_map key e) used
put-Account s key e used own q a = record {
  unique = put-Unique s.data_map key e a.unique;
  used = q;
  own_key =
      λ k x h. ground (arith, h, a.own_key k x, own, get-put s.data_map key e k, str_eq_iff key k);
}

stored-Account :
    (s : Store) (key : GoString) (value : List ℕ) (ttl : ℤ) (now : ℕ)
    → Accounted s
    → Accounted (stored s key value ttl now)
unfolding stored
stored-Account s key value ttl now a =
    put-Account s key e _ refl (used (get s.data_map key) refl (total-put bytes s.data_map key e)) a
  where
    e : Entry
    e = record {
      key = key;
      value = value;
      created_at = now;
      expires_at = deadline now ttl;
      ttl = ttl;
    }

    used :
        (o : Option Entry)
        → get s.data_map key ≡ o
        → total bytes (put s.data_map key e) + cost bytes key (get s.data_map key)
          ≡ total bytes s.data_map + bytes key e
        → without_old o s.mem_used +ℤ pos (length key + length value)
          ≡ pos (total bytes (put s.data_map key e))
    used none found q = rw a.used (unfold ◌+ℤ◌ in ground (arith, rw found at q))
    used (some old) found q =
        rw (a.used, a.own_key key old found) (unfold ◌+ℤ◌ ◌-ℤ◌ in ground (arith, rw found at q))

evict-Account :
    (s : Store) (d : Dict GoString Entry) → s.data_map ≡ d → Accounted s → Accounted (evict_one s d)
unfolding evict_one
evict-Account s [] q a = a
evict-Account s ((key, e) ∷ rest) q a =
    remove-Account s key e (rw q (unfold get in ground (arith, str_eq_iff key key))) a

pub set-Account :
    (s : Store) (key : GoString) (value : List ℕ) (ttl : ℤ) (now : ℕ)
    → Accounted s
    → Accounted (set_value s key value ttl now)
unfolding set_value
set-Account s key value ttl now a =
    let kept = stored-Account s key value ttl now a in
    ground (
      arith,
      kept,
      evict-Account (stored s key value ttl now) (stored s key value ttl now).data_map refl kept,
    )

get_found-Account :
    (o : Option Entry) (s : Store) (key : GoString) (now : ℕ)
    → get s.data_map key ≡ o
    → Accounted s
    → Accounted (get_found o s key now).1
unfolding get_found
get_found-Account none s key now found a = record {
  unique = a.unique;
  used = a.used;
  own_key = a.own_key;
}
get_found-Account (some e) s key now found a =
    let gone = remove-Account s key e found a in
    elim (Bool-cases (is_expired now e)) [
      | inl late ↦ rw late record { unique = gone.unique; used = gone.used; own_key = gone.own_key }
      | inr live ↦ rw live record { unique = a.unique; used = a.used; own_key = a.own_key }
    ]

del_found-Account :
    (o : Option Entry) (s : Store) (key : GoString)
    → get s.data_map key ≡ o
    → Accounted s
    → Accounted (del_found o s key).1
unfolding del_found
del_found-Account none s key found a = a
del_found-Account (some e) s key found a = remove-Account s key e found a

exists_found-Account :
    (o : Option Entry) (s : Store) (key : GoString) (now : ℕ)
    → get s.data_map key ≡ o
    → Accounted s
    → Accounted (exists_found o s key now).1
unfolding exists_found
exists_found-Account none s key now found a = a
exists_found-Account (some e) s key now found a = ground (arith, remove-Account s key e found a, a)

with_ttl-same :
    (now : ℕ) (ttl : ℤ) (e : Entry)
    → ((with_ttl now ttl e).key ≡ e.key) × ((with_ttl now ttl e).value ≡ e.value)
with_ttl-same now (pos zero) e = (refl, refl)
with_ttl-same now (pos (suc n)) e = (refl, refl)
with_ttl-same now (negsuc n) e = (refl, refl)

expire_found-Account :
    (o : Option Entry) (s : Store) (key : GoString) (ttl : ℤ) (now : ℕ)
    → get s.data_map key ≡ o
    → Accounted s
    → Accounted (expire_found o s key ttl now).1
unfolding expire_found
expire_found-Account none s key ttl now found a = a
expire_found-Account (some e) s key ttl now found a =
    let same = with_ttl-same now ttl e in
    let sum = total-put bytes s.data_map key (with_ttl now ttl e) in
    let bytes_same : bytes key (with_ttl now ttl e) ≡ bytes key e =
      ap (λ v. length key + length v) same.1 in
    let held : cost bytes key (get s.data_map key) ≡ bytes key e = rw found in
    elim (Bool-cases (is_expired now e)) [
      | inl late ↦ rw late a
      | inr live ↦ rw live (
          put-Account s key (with_ttl now ttl e) s.mem_used (same.0 ∙ a.own_key key e found)
            (a.used ∙ ap pos (omega (arith, sum, bytes_same, held))) a)
    ]

clean_each-Account :
    (es : List (GoString × Entry)) (now n : ℕ) (s : Store)
    → Accounted s
    → Accounted (clean_each es now (n, s)).1
unfolding clean_each
clean_each-Account [] now n s a = a
clean_each-Account ((key, e) ∷ es) now n s a =
    clean_each-Account es now (clean_found (get s.data_map key) key now (n, s)).0 _
      (one (get s.data_map key) refl)
  where
    one : (o : Option Entry) → get s.data_map key ≡ o → Accounted (clean_found o key now (n, s)).1
    one none found = unfold clean_found in a
    one (some x) found = unfold clean_found in ground (arith, remove-Account s key x found a, a)

pub data Op : Type 0 where
  sets : GoString → List ℕ → ℤ → Op
  gets : GoString → Op
  dels : GoString → Op
  checks : GoString → Op
  expires : GoString → ℤ → Op
  flushes : Op
  cleans : Op

pub step : Store → ℕ × Op → Store
step s (now, sets key value ttl) = set_value s key value ttl now
step s (now, gets key) = (get_value s key now).1
step s (now, dels key) = (del s key).1
step s (now, checks key) = (exists s key now).1
step s (now, expires key ttl) = (expire s key ttl now).1
step s (now, flushes) = (flush_all s).1
step s (now, cleans) = (clean_expired s now).1

step-Account : (s : Store) (op : ℕ × Op) → Accounted s → Accounted (step s op)
unfolding step get_value del exists expire flush_all clean_expired
step-Account s (now, sets key value ttl) a = set-Account s key value ttl now a
step-Account s (now, gets key) a = get_found-Account (get s.data_map key) s key now refl a
step-Account s (now, dels key) a = del_found-Account (get s.data_map key) s key refl a
step-Account s (now, checks key) a = exists_found-Account (get s.data_map key) s key now refl a
step-Account s (now, expires key ttl) a =
    expire_found-Account (get s.data_map key) s key ttl now refl a
step-Account s (now, flushes) a = record {
  unique = tt;
  used = refl;
  own_key = λ k e h. unfold get in ground (arith, h);
}
step-Account s (now, cleans) a = clean_each-Account s.data_map now 0 s a

pub run : Store → List (ℕ × Op) → Store
unfolding step
run s [] = s
run s (op ∷ ops) = run (step s op) ops

run-Account : (s : Store) (ops : List (ℕ × Op)) → Accounted s → Accounted (run s ops)
unfolding run
run-Account s [] a = a
run-Account s (op ∷ ops) a = run-Account (step s op) ops (step-Account s op a)

-- After any calls of Set, Get, Del, Exists, Expire, FlushAll and CleanExpired on a new cache,
-- evictions included, `memUsed` is exactly the number of bytes in the keys and values that it
-- holds, each key once; so it never falls below 0.
pub memory_account : (max_keys : ℕ) (ops : List (ℕ × Op)) → Accounted (run (new_store max_keys) ops)
memory_account max_keys ops = run-Account (new_store max_keys) ops (
    unfold new_store in
    record { unique = tt; used = refl; own_key = λ k e h. unfold get in ground (arith, h) })
