-- ===== src/Cache/Examples.antt =====
-- The cache's theorems at concrete calls.
use boltq.Prelude.{ℕ, ◌≡◌, refl, List, [], ◌∷◌, none, lit, arith, string_eq}
use boltq.Prelude.Int.{pos}
use boltq.Prelude.Dict.{get}
use boltq.Cache.{new_store, set_value, get_value}
use boltq.Cache.Account.{Accounted, Op, sets, gets, expires, cleans, run, memory_account}
use boltq.Cache.Expiry.{get_after_set, value_of}

abbrev calls : List (ℕ × Op)
calls =
    (1, sets (lit "a") (7 ∷ 8 ∷ []) (pos 5))
    ∷ (2, sets (lit "b") [] (pos 0))
    ∷ (3, gets (lit "a"))
    ∷ (4, expires (lit "b") (pos 1))
    ∷ (9000000, cleans)
    ∷ []

memory_account_example : Accounted (run (new_store 1) calls)
memory_account_example = memory_account 1 calls

-- A lifetime of five milliseconds is over after nine.
get_after_set_example :
    (value_of (get_value (set_value (new_store 0) (lit "a") (7 ∷ []) (pos 5) 1) (lit "a") 9000000).0
      ≡ none)
    × (value_of (
          get
            (get_value
              (set_value (new_store 0) (lit "a") (7 ∷ []) (pos 5) 1)
              (lit "a")
              9000000).1.data_map
            (lit "a"))
        ≡ none)
get_after_set_example =
    get_after_set (new_store 0) (lit "a") (7 ∷ []) (pos 5) 1 9000000 (omega arith)
      (unfold new_store in refl)
