-- ===== src/Dedup/Examples.antt =====
-- The claim table's theorems at concrete submissions.
use boltq.Prelude.{
  string_eq, ℕ, ◌≡◌, ◌≢◌, refl, List, [], ◌∷◌, ◌++◌, ◌+◌, GoString, lit, inl, inr, Bool, true,
  false, some, arith, length, replicate, str_eq,
}
use boltq.Prelude.Dict.{kept}
use boltq.Dedup.{
  Config, Key, Result, fresh, duplicate, claim, claim_found, complete, lookup, new, apply_defaults,
  zero_result, key_string, hash_key, shard_of, take_claim,
}
use boltq.Dedup.Shards.{IsTable}
use boltq.Dedup.Window.{Op, claims, completes, sweeps, run}
use boltq.Dedup.Once.{claim_once, complete_answers}

abbrev cfg : Config
cfg = record { ttl = 100; sweep_interval = 10; max_entries = 0 }

abbrev alice : Key
alice = record { sender = lit "alice"; client_msg_id = lit "1" }

abbrev bob : Key
bob = record { sender = lit "bob"; client_msg_id = lit "1" }

abbrev sent : Result
sent = record zero_result { message_id = lit "m7"; seq = 7 }

empty-IsTable : IsTable (new cfg)
unfolding new
empty-IsTable = refl

abbrev between : List (ℕ × Op)
between = (6, claims bob) ∷ (7, sweeps) ∷ (8, completes bob sent) ∷ (9, claims alice) ∷ []

bob-is_not_alice : str_eq (key_string bob) (key_string alice) ≡ false
unfolding key_string str_eq
bob-is_not_alice = refl

won : (claim (new cfg) alice 5).0 ≡ fresh
unfolding claim claim_found take_claim boltq.Prelude.Dict.get shard_of new hash_key key_string
won = refl

claim_once_example : (claim (run (claim (new cfg) alice 5).1 between) alice 50).0 ≢ fresh
unfolding new apply_defaults
claim_once_example =
    claim_once (new cfg) alice 5 between 50 empty-IsTable won
      (
        omega arith,
        omega arith,
        tt,
        (
          omega arith,
          omega arith,
          tt,
          (omega arith, omega arith, inl bob-is_not_alice, (omega arith, omega arith, tt, tt)),
        ),
      )
      (omega arith)

complete_answers_example :
    ((claim (run (complete (new cfg) alice sent 5) between) alice 50).0 ≡ duplicate sent)
    × (lookup (run (complete (new cfg) alice sent 5) between) alice 50 ≡ some sent)
unfolding new apply_defaults
complete_answers_example =
    complete_answers (new cfg) alice sent 5 between 50 empty-IsTable
      (
        omega arith,
        omega arith,
        tt,
        (
          omega arith,
          omega arith,
          tt,
          (omega arith, omega arith, inl bob-is_not_alice, (omega arith, omega arith, tt, tt)),
        ),
      )
      (omega arith)
