-- ===== src/Dedup.antt =====
-- The claim table for idempotent sends (internal/dedup/dedup.go). Every method holds the mutex of
-- one shard, or of one shard after the other; `now` is the clock that it reads, in nanoseconds.
pub mod Shards
pub mod Keys
pub mod Claims
pub mod Window
pub mod Once
pub mod Examples
use Prim.Native.Nat.{bit_xor}
use boltq.Prelude.{
  ℕ, zero, suc, ◌+◌, ◌-◌, ◌*◌, ◌/◌, ◌%◌, Bool, true, false, not, ◌&&◌, ◌||◌, List, [], ◌∷◌, ◌++◌,
  Option, none, some, ltb, leb, if◌then◌else◌, GoString, string_eq, length, get_or, set, replicate,
}
use boltq.Prelude.Words.{u32}
use boltq.Prelude.Int.{ℤ, pos}
use boltq.Prelude.Dict.{Dict, get, put, remove, keep, size}

pub record Result : Type 0 where
  pub message_id : GoString
  pub topic : GoString
  pub partition : ℤ
  pub seq : ℕ
  pub timestamp : ℤ

abbrev pub zero_result : Result
zero_result = record { message_id = []; topic = []; partition = pos 0; seq = 0; timestamp = pos 0 }

pub record Entry : Type 0 where
  pub result : Result
  pub expires : ℕ
  pub complete : Bool

-- A duration that is not positive is written 0.
pub record Config : Type 0 where
  pub ttl : ℕ
  pub sweep_interval : ℕ
  pub max_entries : ℕ

abbrev pub minute : ℕ
minute = 60000000000

abbrev pub or_default : ℕ → ℕ → ℕ
or_default zero d = d
or_default (suc n) d = suc n

pub apply_defaults : Config → Config
apply_defaults c = record c {
  ttl = or_default c.ttl (10 * minute);
  sweep_interval = or_default c.sweep_interval minute;
}

abbrev pub shard_count : ℕ
shard_count = 64

abbrev pub Shard : Type 0
Shard = Dict GoString Entry

pub record Table : Type 0 where
  pub cfg : Config
  pub shards : List Shard

pub new : Config → Table
unfolding apply_defaults
new cfg = record { cfg = apply_defaults cfg; shards = replicate shard_count [] }

pub record Key : Type 0 where
  pub sender : GoString
  pub client_msg_id : GoString

unfoldable pub key_string : Key → GoString
key_string k = k.sender ++ 0 ∷ k.client_msg_id

-- FNV-1a over the bytes of a string, in 32 bits
fnv : ℕ → GoString → ℕ
fnv h [] = h
fnv h (b ∷ s) = fnv (bit_xor h b * 16777619 % u32) s

pub hash_key : GoString → ℕ
unfolding fnv
hash_key s = fnv 2166136261 s % shard_count

pub shard_of : Table → GoString → Shard
shard_of t ks = get_or t.shards (hash_key ks) []

pub with_shard : Table → GoString → Shard → Table
with_shard t ks sh = record t { shards = set t.shards (hash_key ks) sh }

-- The answer (result, ok, claimed): `fresh` is (_, false, true), `duplicate r` is (r, true, false),
-- and `in_flight` is (_, false, false).
pub data Answer : Type 0 where
  fresh : Answer
  duplicate : Result → Answer
  in_flight : Answer

abbrev pub not_expired : ℕ → GoString → Entry → Bool
not_expired now ks e = not (ltb e.expires now)

make_room : Config → ℕ → Shard → Shard
make_room cfg now sh =
    if ltb 0 cfg.max_entries && leb (cfg.max_entries / shard_count) (size sh)
    then keep (not_expired now) sh
    else sh

abbrev pub claimed_entry : Config → ℕ → Entry
claimed_entry cfg now = record { result = zero_result; expires = now + cfg.ttl; complete = false }

pub take_claim : Table → GoString → ℕ → Answer × Table
unfolding make_room
take_claim t ks now = (
  fresh,
  with_shard t ks (put (make_room t.cfg now (shard_of t ks)) ks (claimed_entry t.cfg now)),
)

pub known_claim : Entry → Answer
known_claim e = if e.complete then duplicate e.result else in_flight

-- The body of `Claim`, on what the shard holds under the key.
pub claim_found : Option Entry → Table → GoString → ℕ → Answer × Table
unfolding take_claim known_claim
claim_found none t ks now = take_claim t ks now
claim_found (some e) t ks now =
    if ltb now e.expires then (known_claim e, t) else take_claim t ks now

pub claim : Table → Key → ℕ → Answer × Table
unfolding claim_found
claim t k now = claim_found (get (shard_of t (key_string k)) (key_string k)) t (key_string k) now

-- The entry is written anew, whether or not it was still there.
pub complete : Table → Key → Result → ℕ → Table
complete t k r now =
    let ks = key_string k in
    with_shard t ks
      (put (shard_of t ks) ks (record { result = r; expires = now + t.cfg.ttl; complete = true }))

pub abandon_found : Option Entry → Table → GoString → Table
abandon_found none t ks = t
abandon_found (some e) t ks =
    if not e.complete then with_shard t ks (remove (shard_of t ks) ks) else t

pub abandon : Table → Key → Table
unfolding abandon_found
abandon t k = abandon_found (get (shard_of t (key_string k)) (key_string k)) t (key_string k)

pub lookup_found : Option Entry → ℕ → Option Result
lookup_found none now = none
lookup_found (some e) now = if not e.complete || ltb e.expires now then none else some e.result

pub lookup : Table → Key → ℕ → Option Result
unfolding lookup_found
lookup t k now = lookup_found (get (shard_of t (key_string k)) (key_string k)) now

total_size : List Shard → ℕ
total_size [] = 0
total_size (sh ∷ shs) = size sh + total_size shs

pub len : Table → ℕ
unfolding total_size
len t = total_size t.shards

sweep_shards : ℕ → List Shard → ℕ × List Shard
sweep_shards now [] = (0, [])
sweep_shards now (sh ∷ shs) =
    let kept = keep (not_expired now) sh in
    let (removed, rest) = sweep_shards now shs in (size sh - size kept + removed, kept ∷ rest)

pub sweep : Table → ℕ → ℕ × Table
unfolding sweep_shards
sweep t now =
    let (removed, shards) = sweep_shards now t.shards in (removed, record t { shards = shards })
