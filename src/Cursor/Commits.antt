-- ===== src/Cursor/Commits.antt =====
-- Commits only move a reader forward (internal/stream/cursor.go).
use boltq.Prelude.{
  ℕ, ◌≡◌, ◌≢◌, ◌↔◌, ◌++◌, ◌∷◌, ◌==◌, ◌&&◌, refl, ap, inl, inr, Bool-cases, All, All-mono, true,
  Bool, false, Option, none, some, leb, if◌then◌else◌, GoString, string_eq, str_eq, str_eq_iff,
  arith,
}
use boltq.Prelude.Dict.{get, get-put}
use boltq.Prelude.Int.{ℤ, pos, negsuc, pos_part, neg_part}
use boltq.Prelude.Decimal.{decimal_ℤ, decimal_ℤ-digits, decimal_ℤ-injective, split-at_zero}
use boltq.Cursor.{CursorKey, cursor_key, CursorStore, commit, commit_found, commit_new, position}

abbrev pub raised : Option ℕ → ℕ → ℕ
raised none seq = seq
raised (some cur) seq = if leb seq cur then cur else seq

commit_found-position :
    (o : Option ℕ) (disk : Bool) (c : CursorStore) (key : GoString) (seq : ℕ) (k : GoString)
    → get c.positions key ≡ o
    → get (commit_found o disk c key seq).1.positions k
      ≡ (if str_eq key k then some (raised o seq) else get c.positions k)
unfolding commit_found commit_new
commit_found-position none disk c key seq k found = ground (arith, get-put c.positions key seq k)
commit_found-position (some cur) disk c key seq k found =
    ground (arith, get-put c.positions key seq k, str_eq_iff key k, found)

-- A topic and a group without a 0 byte
abbrev pub Plain : CursorKey → Type 0
Plain k = All (λ c. c ≢ 0) k.topic × All (λ c. c ≢ 0) k.group

abbrev pub same_int : ℤ → ℤ → Bool
same_int (pos m) (pos n) = m == n
same_int (negsuc m) (negsuc n) = m == n
same_int _ _ = false

abbrev pub same_cursor : CursorKey → CursorKey → Bool
same_cursor j k =
    str_eq j.topic k.topic
    && same_int j.partition k.partition
    && str_eq j.group k.group
    && str_eq j.member k.member

same_int_iff : (m n : ℤ) → (same_int m n ≡ true) ↔ (m ≡ n)
same_int_iff (pos m) (pos n) =
    ((λ h. ap pos (ground (arith, h))), λ e. ground (arith, ap pos_part e))
same_int_iff (negsuc m) (negsuc n) =
    ((λ h. ap negsuc (ground (arith, h))), λ e. ground (arith, ap neg_part e))
same_int_iff (pos m) (negsuc n) = ((λ h. ground (arith, h)), λ e. ground (arith, e))
same_int_iff (negsuc m) (pos n) = ((λ h. ground (arith, h)), λ e. ground (arith, e))

no_zero : (n : ℤ) → All (λ c. c ≢ 0) (decimal_ℤ n)
no_zero n = All-mono (decimal_ℤ n) (λ c h e. omega (arith, h, e)) (decimal_ℤ-digits n)

abbrev after_partition : CursorKey → GoString
after_partition k = k.group ++ (0 ∷ k.member)

abbrev after_topic : CursorKey → GoString
after_topic k = decimal_ℤ k.partition ++ (0 ∷ after_partition k)

-- The text of a plain key determines it.
cursor_key-injective :
    (j k : CursorKey)
    → Plain j
    → Plain k
    → cursor_key j ≡ cursor_key k
    → (j.topic ≡ k.topic)
      × (j.partition ≡ k.partition)
      × (j.group ≡ k.group)
      × (j.member ≡ k.member)
unfolding cursor_key
cursor_key-injective j k hj hk e =
    let one = split-at_zero j.topic k.topic (after_topic j) (after_topic k) hj.0 hk.0 e in
    let two =
      split-at_zero (decimal_ℤ j.partition) (decimal_ℤ k.partition) (after_partition j)
        (after_partition k) (no_zero j.partition) (no_zero k.partition) one.1 in
    let three = split-at_zero j.group k.group j.member k.member hj.1 hk.1 two.1 in
    (one.0, decimal_ℤ-injective j.partition k.partition two.0, three.0, three.1)

cursor_key_same :
    (j k : CursorKey)
    → j.topic ≡ k.topic
    → j.partition ≡ k.partition
    → j.group ≡ k.group
    → j.member ≡ k.member
    → cursor_key j ≡ cursor_key k
unfolding cursor_key
cursor_key_same j k topic partition group member = cc

same_cursor-eq :
    (j k : CursorKey) → Plain j → Plain k → str_eq (cursor_key j) (cursor_key k) ≡ same_cursor j k
same_cursor-eq j k hj hk = elim (Bool-cases (str_eq (cursor_key j) (cursor_key k))) [
  | inl equal ↦
      let parts =
        cursor_key-injective j k hj hk ((str_eq_iff (cursor_key j) (cursor_key k)).0 equal) in
      let topic = (str_eq_iff j.topic k.topic).1 parts.0 in
      let partition = (same_int_iff j.partition k.partition).1 parts.1 in
      let group = (str_eq_iff j.group k.group).1 parts.2 in
      let member = (str_eq_iff j.member k.member).1 parts.3 in
      rw (equal, topic, partition, group, member) refl
  | inr differs ↦ elim (Bool-cases (same_cursor j k)) [
    | inr other ↦ rw (differs, other) refl
    | inl same ↦
        let equal =
          cursor_key_same j k ((str_eq_iff j.topic k.topic).0 (ground (arith, same)))
            ((same_int_iff j.partition k.partition).0 (ground (arith, same)))
            ((str_eq_iff j.group k.group).0 (ground (arith, same)))
            ((str_eq_iff j.member k.member).0 (ground (arith, same))) in
        absurd (ground (arith, differs, (str_eq_iff (cursor_key j) (cursor_key k)).1 equal))
  ]
]

-- A commit to an open store never moves a position back: its key's position becomes the higher of
-- the two, also where the write fails, and no other key's changes, where the topics and groups hold
-- no 0 byte.
pub commit_monotone :
    (disk : Bool) (c : CursorStore) (key : CursorKey) (seq : ℕ) (k : CursorKey)
    → c.closed ≡ false
    → Plain key
    → Plain k
    → position (commit disk c key seq).1 k
      ≡ (if same_cursor key k then some (raised (position c key) seq) else position c k)
unfolding commit position
commit_monotone disk c key seq k opened plain plain_k = rw (← same_cursor-eq key k plain plain_k) (
    ground (
      arith,
      opened,
      commit_found-position (get c.positions (cursor_key key)) disk c (cursor_key key) seq
          (cursor_key k) refl,
    ))
