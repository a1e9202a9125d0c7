-- ===== src/Cache.antt =====
-- The key-value cache (internal/cache/store.go). Every method holds the store's mutex; `now` is the
-- clock that it reads, in nanoseconds. Times and lifetimes are taken to stay below 2^63 nanoseconds.
pub mod Account
pub mod Expiry
pub mod Examples
use boltq.Prelude.{
  ℕ, zero, suc, ◌+◌, ◌-◌, ◌*◌, ◌/◌, Bool, true, false, not, ◌&&◌, List, [], ◌∷◌, Option, none, some,
  ltb, leb, ◌==◌, if◌then◌else◌, GoString, string_eq, length,
}
use boltq.Prelude.Int.{ℤ, pos, negsuc, ◌+ℤ◌, ◌-ℤ◌}
use boltq.Prelude.Dict.{Dict, get, has, put, remove, size, maybe}

-- `expires_at`: 0 is no expiry; `ttl`: in milliseconds
pub record Entry : Type 0 where
  pub key : GoString
  pub value : List ℕ
  pub created_at : ℕ
  pub expires_at : ℕ
  pub ttl : ℤ

unfoldable pub is_expired : ℕ → Entry → Bool
is_expired now e = not (e.expires_at == 0) && ltb e.expires_at now

pub remaining_ttl : ℕ → Entry → ℤ
remaining_ttl now e =
    if e.expires_at == 0
    then negsuc 0
    else if leb e.expires_at now
    then pos 0
    else pos ((e.expires_at - now) / 1000000)

-- maxKeys = 0 is unlimited.
pub record Store : Type 0 where
  pub data_map : Dict GoString Entry
  pub max_keys : ℕ
  pub mem_used : ℤ
  pub hits : ℕ
  pub misses : ℕ
  pub sets : ℕ
  pub deletes : ℕ
  pub expired : ℕ

unfoldable pub new_store : ℕ → Store
new_store max_keys = record {
  data_map = [];
  max_keys = max_keys;
  mem_used = pos 0;
  hits = 0;
  misses = 0;
  sets = 0;
  deletes = 0;
  expired = 0;
}

unfoldable pub remove_entry : Store → GoString → Entry → Store
remove_entry s key e = record s {
  data_map = remove s.data_map key;
  mem_used = s.mem_used -ℤ pos (length key + length e.value);
}

-- The entry that the map's iteration gives first: any one, in Go.
unfoldable pub evict_one : Store → Dict GoString Entry → Store
evict_one s [] = s
evict_one s ((key, e) ∷ rest) = remove_entry s key e

-- The product and the sum are taken not to leave the 63 bits of an int64.
abbrev pub deadline : ℕ → ℤ → ℕ
deadline now (pos zero) = 0
deadline now (pos (suc n)) = now + suc n * 1000000
deadline now (negsuc n) = 0

-- memUsed -= len(old.Key) + len(old.Value)
abbrev pub without_old : Option Entry → ℤ → ℤ
without_old none used = used
without_old (some old) used = used -ℤ pos (length old.key + length old.value)

unfoldable pub stored : Store → GoString → List ℕ → ℤ → ℕ → Store
stored s key value ttl_ms now = record s {
  data_map = put s.data_map key (record {
    key = key;
    value = value;
    created_at = now;
    expires_at = deadline now ttl_ms;
    ttl = ttl_ms;
  });
  mem_used = without_old (get s.data_map key) s.mem_used +ℤ pos (length key + length value);
  sets = suc s.sets;
}

unfoldable pub set_value : Store → GoString → List ℕ → ℤ → ℕ → Store
unfolding stored
set_value s key value ttl_ms now =
    let s1 = stored s key value ttl_ms now in
    if ltb 0 s1.max_keys && ltb s1.max_keys (size s1.data_map) then evict_one s1 s1.data_map else s1

unfoldable pub get_found : Option Entry → Store → GoString → ℕ → Option Entry × Store
get_found none s key now = (none, record s { misses = suc s.misses })
get_found (some e) s key now =
    if is_expired now e
    then (none, record (remove_entry s key e) { expired = suc s.expired; misses = suc s.misses })
    else (some e, record s { hits = suc s.hits })

unfoldable pub get_value : Store → GoString → ℕ → Option Entry × Store
unfolding get_found
get_value s key now = get_found (get s.data_map key) s key now

unfoldable pub del_found : Option Entry → Store → GoString → Bool × Store
del_found none s key = (false, s)
del_found (some e) s key = (true, record (remove_entry s key e) { deletes = suc s.deletes })

unfoldable pub del : Store → GoString → Bool × Store
unfolding del_found
del s key = del_found (get s.data_map key) s key

unfoldable pub exists_found : Option Entry → Store → GoString → ℕ → Bool × Store
exists_found none s key now = (false, s)
exists_found (some e) s key now =
    if is_expired now e
    then (false, record (remove_entry s key e) { expired = suc s.expired })
    else (true, s)

unfoldable pub exists : Store → GoString → ℕ → Bool × Store
unfolding exists_found
exists s key now = exists_found (get s.data_map key) s key now

abbrev pub with_ttl : ℕ → ℤ → Entry → Entry
with_ttl now (pos zero) e = record e { expires_at = 0; ttl = pos 0 }
with_ttl now (negsuc n) e = record e { expires_at = 0; ttl = pos 0 }
with_ttl now (pos (suc n)) e = record e { expires_at = now + suc n * 1000000; ttl = pos (suc n) }

unfoldable pub expire_found : Option Entry → Store → GoString → ℤ → ℕ → Bool × Store
expire_found none s key ttl_ms now = (false, s)
expire_found (some e) s key ttl_ms now =
    if is_expired now e
    then (false, s)
    else (true, record s { data_map = put s.data_map key (with_ttl now ttl_ms e) })

unfoldable pub expire : Store → GoString → ℤ → ℕ → Bool × Store
unfolding expire_found
expire s key ttl_ms now = expire_found (get s.data_map key) s key ttl_ms now

unfoldable pub flush_all : Store → ℕ × Store
flush_all s = (size s.data_map, record s { data_map = []; mem_used = pos 0 })

unfoldable pub clean_found : Option Entry → GoString → ℕ → ℕ × Store → ℕ × Store
clean_found none key now (n, s) = (n, s)
clean_found (some e) key now (n, s) =
    if is_expired now e
    then (suc n, record (remove_entry s key e) { expired = suc s.expired })
    else (n, s)

unfoldable pub clean_each : List (GoString × Entry) → ℕ → ℕ × Store → ℕ × Store
unfolding clean_found
clean_each [] now (n, s) = (n, s)
clean_each ((key, e) ∷ es) now (n, s) =
    clean_each es now (clean_found (get s.data_map key) key now (n, s))

unfoldable pub clean_expired : Store → ℕ → ℕ × Store
unfolding clean_each
clean_expired s now = clean_each s.data_map now (0, s)

unfoldable pub restore_each : List Entry → ℕ → Store → Store
restore_each [] now s = s
restore_each (e ∷ es) now s = restore_each es now (
    if is_expired now e then s else record s {
      data_map = put s.data_map e.key e;
      mem_used = s.mem_used +ℤ pos (length e.key + length e.value);
    })

unfoldable pub restore : Store → List Entry → ℕ → Store
unfolding restore_each
restore s entries now = restore_each entries now (record s { data_map = []; mem_used = pos 0 })
