-- ===== src/Replication/Quorum.antt =====
-- What the high watermark and the wait for replicas have to do with each other
-- (internal/replication/leader.go).
use boltq.Prelude.{
  ℕ, zero, suc, ◌+◌, ◌-◌, ◌≤◌, ◌<◌, ◌≡◌, ◌↔◌, refl, ap, ◌∙◌, false, List, [], ◌∷◌, none, ltb, leb,
  if◌then◌else◌, GoString, str_eq, string_eq, length, get_or, arith, inl, inr, Option-cases,
  Bool-cases,
}
use boltq.Prelude.Dict.{Dict, get, get-update_all, get-remove, get-empty}
use boltq.Replication.{
  Leader, PartitionAcks, held, acks_for, count_ge, values, insert, sort, quorum_position, wait_turn,
  replication, disconnect, drop_node,
}

AtMost : ℕ → List ℕ → Type 0
AtMost x [] = Unit
AtMost x (y ∷ ys) = (y ≤ x) × AtMost x ys

Falls : List ℕ → Type 0
unfolding AtMost
Falls [] = Unit
Falls (x ∷ xs) = AtMost x xs × Falls xs

count_ge-insert : (s x : ℕ) (xs : List ℕ) → count_ge s (insert x xs) ≡ count_ge s (x ∷ xs)
unfolding insert
count_ge-insert s x [] = refl
count_ge-insert s x (y ∷ ys) = ground (arith, count_ge-insert s x ys)

count_ge-sort : (s : ℕ) (xs : List ℕ) → count_ge s (sort xs) ≡ count_ge s xs
unfolding sort
count_ge-sort s [] = refl
count_ge-sort s (x ∷ xs) =
    count_ge-insert s x (sort xs) ∙ ap (λ n. (if leb s x then 1 else 0) + n) (count_ge-sort s xs)

AtMost-more : (x y : ℕ) (ys : List ℕ) → y ≤ x → AtMost y ys → AtMost x ys
unfolding AtMost
AtMost-more x y [] le h = tt
AtMost-more x y (z ∷ zs) le h = (omega (arith, h.0), AtMost-more x y zs le h.1)

insert-AtMost : (b x : ℕ) (xs : List ℕ) → x ≤ b → AtMost b xs → AtMost b (insert x xs)
unfolding AtMost insert
insert-AtMost b x [] le h = (le, tt)
insert-AtMost b x (y ∷ ys) le h = elim (Bool-cases (leb y x)) [
  | inl first ↦ rw first (le, h)
  | inr later ↦ rw later (h.0, insert-AtMost b x ys le h.1)
]

insert-Falls : (x : ℕ) (xs : List ℕ) → Falls xs → Falls (insert x xs)
unfolding AtMost Falls insert
insert-Falls x [] h = (tt, tt)
insert-Falls x (y ∷ ys) h = elim (Bool-cases (leb y x)) [
  | inl first ↦
      let le : y ≤ x = ground (arith, first) in rw first ((le, AtMost-more x y ys le h.0), h)
  | inr later ↦
      let le : x ≤ y = ground (arith, later) in
      rw later (insert-AtMost y x ys le h.0, insert-Falls x ys h.1)
]

sort-Falls : (xs : List ℕ) → Falls (sort xs)
unfolding sort Falls
sort-Falls [] = tt
sort-Falls (x ∷ xs) = insert-Falls x (sort xs) (sort-Falls xs)

none_reach : (s x : ℕ) (xs : List ℕ) → x < s → AtMost x xs → count_ge s xs ≡ 0
unfolding AtMost
none_reach s x [] lt h = refl
none_reach s x (y ∷ ys) lt h = ground (arith, h.0, lt, none_reach s x ys lt h.1)

count_ge-bound : (s : ℕ) (xs : List ℕ) → count_ge s xs ≤ length xs
count_ge-bound s [] = omega arith
count_ge-bound s (x ∷ xs) = ground (arith, count_ge-bound s xs)

-- In a falling list, the entry at `i` reaches `s` when more than `i` entries do.
reaches :
    (s i : ℕ) (xs : List ℕ) → 1 ≤ s → Falls xs → leb s (get_or xs i 0) ≡ leb (suc i) (count_ge s xs)
unfolding Falls
reaches s i [] one h = ground (arith, one)
reaches s zero (x ∷ xs) one h = elim (Bool-cases (leb s x)) [
  | inl yes_x ↦ rw yes_x (ground arith)
  | inr no_x ↦
      let lt : x < s = ground (arith, no_x) in rw no_x (ground (arith, none_reach s x xs lt h.0))
]
reaches s (suc i) (x ∷ xs) one h =
    let rest = reaches s i xs one h.1 in
    elim (Bool-cases (leb s x)) [
      | inl yes_x ↦ rw yes_x (ground (arith, rest))
      | inr no_x ↦
          let lt : x < s = ground (arith, no_x) in
          rw no_x (ground (arith, rest, none_reach s x xs lt h.0))
    ]

length-insert : (x : ℕ) (xs : List ℕ) → length (insert x xs) ≡ suc (length xs)
unfolding insert
length-insert x [] = refl
length-insert x (y ∷ ys) = ground (arith, length-insert x ys)

-- How many replicas hold a sequence, with the leader
abbrev pub holders : ℕ → ℕ → Dict GoString ℕ → ℕ
holders leader_seq seq acked = count_ge seq (leader_seq ∷ values acked)

-- With two replicas or more asked for, a sequence is at or below the position of the quorum just when
-- so many replicas hold it.
quorum_position_iff :
    (leader_seq : ℕ) (acked : Dict GoString ℕ) (k seq : ℕ)
    → 2 ≤ k
    → 1 ≤ seq
    → leb seq (quorum_position leader_seq acked k) ≡ leb k (holders leader_seq seq acked)
unfolding quorum_position
quorum_position_iff leader_seq acked k seq two one =
    let positions = sort (leader_seq ∷ values acked) in
    let many : leb k 1 ≡ false = ground (arith, two) in
    let counted = count_ge-sort seq (leader_seq ∷ values acked) in
    elim (Bool-cases (ltb (length positions) k)) [
      | inl few ↦ rw (many, few) (ground (arith, few, one, counted, count_ge-bound seq positions))
      | inr enough ↦
          let at = reaches seq (k - 1) positions one (sort-Falls (leader_seq ∷ values acked)) in
          let same : suc (k - 1) ≡ k = omega arith in
          rw (many, enough)
            (at ∙ ap (λ n. leb n (count_ge seq positions)) same ∙ ap (leb k) counted)
    ]

-- With one replica asked for, the position is the leader's.
quorum_position_alone :
    (leader_seq : ℕ) (acked : Dict GoString ℕ) (k : ℕ)
    → k ≤ 1
    → quorum_position leader_seq acked k ≡ leader_seq
unfolding quorum_position
quorum_position_alone leader_seq acked k one = ground (arith, one)

-- `WaitFor` lets a record that the leader has written go just when the high watermark that
-- `Replication` reports has reached it: the two agree on what is safe.
pub wait_turn_iff :
    (l : Leader) (key : GoString) (leader_seq seq : ℕ)
    → 1 ≤ seq
    → seq ≤ leader_seq
    → (wait_turn l key seq ≡ held) ↔ (seq ≤ (replication l key leader_seq).high_watermark)
unfolding wait_turn replication
wait_turn_iff l key leader_seq seq one written =
    let k = l.cfg.min_in_sync in
    let acked = (acks_for l key).acked in
    elim (Bool-cases (leb k 1)) [
      | inl alone ↦
          let le : k ≤ 1 = ground (arith, alone) in
          (λ _. rw (quorum_position_alone leader_seq acked k le) written, λ _. ground (arith, le))
      | inr more ↦
          let two : 2 ≤ k = ground (arith, more) in
          let iff = quorum_position_iff leader_seq acked k seq two one in
          (λ h. ground (arith, h, iff, written, two), λ h. ground (arith, h, iff, written, two))
    ]

-- A follower whose connection has ended counts for no partition, and the others count as before.
pub disconnect_exact :
    (l : Leader) (node key other : GoString)
    → get (acks_for (disconnect l node) key).acked other
      ≡ (if str_eq node other then none else get (acks_for l key).acked other)
unfolding disconnect drop_node
disconnect_exact l node key other =
    let kept = get-update_all (λ key (p : PartitionAcks). drop_node node p) l.cursors key in
    elim (Option-cases (get l.cursors key)) [
      | inl absent ↦ rw (kept, absent) (ground (arith, get-empty {V = ℕ} other))
      | inr (p, found) ↦ rw (kept, found) (get-remove p.acked node other)
    ]
