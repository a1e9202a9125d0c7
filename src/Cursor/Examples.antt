-- ===== src/Cursor/Examples.antt =====
-- The cursor store's theorems on two readers.
use boltq.Prelude.{ℕ, ◌≡◌, refl, true, List, [], ◌∷◌, some, lit, arith, if◌then◌else◌}
use boltq.Prelude.Int.{pos}
use boltq.Prelude.Decimal.{decimal, decimal_ℤ}
use boltq.Cursor.{CursorKey, cursor_key, open_cursor_store, commit, position}
use boltq.Cursor.Replay.{commit_all, reopen-commit_all}
use boltq.Cursor.Commits.{raised, Plain, same_cursor, commit_monotone}

abbrev phone : CursorKey
phone = record { topic = lit "chat"; partition = pos 3; group = lit "alice"; member = lit "phone" }

abbrev laptop : CursorKey
laptop = record phone { member = lit "laptop" }

abbrev commits : List (CursorKey × ℕ)
commits = (phone, 5) ∷ (laptop, 2) ∷ (phone, 3) ∷ (phone, 9) ∷ []

reopen-commit_all_example :
    (open_cursor_store (commit_all (open_cursor_store []) commits).log).positions
    ≡ (commit_all (open_cursor_store []) commits).positions
unfolding cursor_key decimal_ℤ decimal
reopen-commit_all_example = reopen-commit_all commits (
  (omega arith, omega arith),
  ((omega arith, omega arith), ((omega arith, omega arith), ((omega arith, omega arith), tt))),
)

phone-Plain : Plain phone
phone-Plain = (
  (
    λ e. omega (arith, e),
    (λ e. omega (arith, e), (λ e. omega (arith, e), (λ e. omega (arith, e), tt))),
  ),
  (
    λ e. omega (arith, e),
    (
      λ e. omega (arith, e),
      (λ e. omega (arith, e), (λ e. omega (arith, e), (λ e. omega (arith, e), tt))),
    ),
  ),
)

commit_monotone_example : position (commit true (open_cursor_store []) phone 3).1 laptop ≡ (
    if same_cursor phone laptop
    then some (raised (position (open_cursor_store []) phone) 3)
    else position (open_cursor_store []) laptop)
commit_monotone_example =
    commit_monotone true (open_cursor_store []) phone 3 laptop (unfold open_cursor_store in refl)
      phone-Plain phone-Plain
