-- ===== src/Cache/Expiry.antt =====
-- What a reader finds in the cache (internal/cache/store.go).
use boltq.Prelude.{
  ℕ, zero, suc, ◌+◌, ◌*◌, ◌<◌, ◌≡◌, refl, false, ◌&&◌, List, Option, none, some, ltb, if◌then◌else◌,
  GoString, string_eq, str_eq_iff, arith, Bool-cases, inl, inr,
}
use boltq.Prelude.Int.{ℤ, pos, negsuc, pos_part}
use boltq.Prelude.Dict.{get, size, get-put_self, get-remove}
use boltq.Cache.{
  Entry, Store, is_expired, remove_entry, stored, set_value, get_value, get_found, deadline,
}

abbrev pub written : GoString → List ℕ → ℤ → ℕ → Entry
written key value ttl now = record {
  key = key;
  value = value;
  created_at = now;
  expires_at = deadline now ttl;
  ttl = ttl;
}

set-finds :
    (s : Store) (key : GoString) (value : List ℕ) (ttl : ℤ) (now : ℕ)
    → (ltb 0 s.max_keys && ltb s.max_keys (size (stored s key value ttl now).data_map)) ≡ false
    → get (set_value s key value ttl now).data_map key ≡ some (written key value ttl now)
unfolding set_value stored
set-finds s key value ttl now room =
    rw room (get-put_self s.data_map key (written key value ttl now))

abbrev pub value_of : Option Entry → Option (List ℕ)
value_of none = none
value_of (some e) = some e.value

expiry-written :
    (key : GoString) (value : List ℕ) (ttl : ℤ) (now later : ℕ)
    → is_expired later (written key value ttl now)
      ≡ (ltb 0 (pos_part ttl) && ltb (now + pos_part ttl * 1000000) later)
unfolding is_expired
expiry-written key value (pos zero) now later = ground arith
expiry-written key value (pos (suc n)) now later = ground arith
expiry-written key value (negsuc n) now later = ground arith

-- What was set with a lifetime in milliseconds is read back until so many million nanoseconds have
-- passed, for ever without a lifetime, and from then on it is not found and is dropped; where the
-- cache had room for it and so evicted no entry, and its end is a time of 63 bits.
pub get_after_set :
    (s : Store) (key : GoString) (value : List ℕ) (ttl : ℤ) (now later : ℕ)
    → now + pos_part ttl * 1000000 < 9223372036854775808
    → (ltb 0 s.max_keys && ltb s.max_keys (size (stored s key value ttl now).data_map)) ≡ false
    → let over = ltb 0 (pos_part ttl) && ltb (now + pos_part ttl * 1000000) later in
      let left = if over then none else some value in
      (value_of (get_value (set_value s key value ttl now) key later).0 ≡ left)
      × (value_of (get (get_value (set_value s key value ttl now) key later).1.data_map key) ≡ left)
unfolding get_value get_found remove_entry
get_after_set s key value ttl now later in_range room =
    let s1 = set_value s key value ttl now in
    let found = set-finds s key value ttl now room in
    let over = expiry-written key value ttl now later in
    elim (Bool-cases (is_expired later (written key value ttl now))) [
      | inl late ↦
          rw (found, get_found, late, ← over, late)
            (refl, ground (arith, get-remove s1.data_map key key, str_eq_iff key key))
      | inr live ↦ rw (found, get_found, live, ← over, live) (refl, rw found refl)
    ]
