-- ===== src/Prelude/Search.antt =====
-- Go's sort.Search, and what it finds in a list on which the test is monotone.
use Prim.Native.Nat.{ℕ, zero, suc, ◌+◌, ◌-◌, ◌/◌, ◌≤◌, ◌<◌}
use mathlib.Core.Path.{◌≡◌}
use mathlib.Core.Logic.{inl, inr}
use mathlib.Core.Bool.{Bool, true, false}
use mathlib.Core.List.{List, [], ◌∷◌}
use native.Mathlib.Omega.{arith}
use boltq.Prelude.Tests.{if◌then◌else◌, Bool-cases, ltb}
use boltq.Prelude.Lists.{length, get_or, All}

-- i, j := lo, hi; for i < j { h := (i+j)/2; if !f(h) { i = h + 1 } else { j = h } }; return i
search_between : ℕ → (ℕ → Bool) → ℕ → ℕ → ℕ
search_between zero f i j = i
search_between (suc fuel) f i j =
    let h = (i + j) / 2 in
    let right = search_between fuel f (h + 1) j in
    let left = search_between fuel f i h in if ltb i j then if f h then left else right else i

-- The interval shrinks in every round, so `n` rounds are enough.
unfoldable pub search : ℕ → (ℕ → Bool) → ℕ
unfolding search_between
search n f = search_between (suc n) f 0 n

-- The least index below `n` at which `f` holds, or `n`.
pub record IsFirst (n : ℕ) (f : ℕ → Bool) (r : ℕ) : Type 0 where
  pub within : r ≤ n
  pub before : (m : ℕ) → m < r → f m ≡ false
  pub after : (m : ℕ) → r ≤ m → m < n → f m ≡ true

lower_half :
    (n : ℕ) (f : ℕ → Bool)
    → ((a b : ℕ) → a ≤ b → b < n → f a ≡ true → f b ≡ true)
    → (m h : ℕ) → m ≤ h
    → h < n
    → f h ≡ false
    → f m ≡ false
lower_half n f mono m h le inside miss = elim (Bool-cases (f m)) [
  | inl hit ↦ absurd (ground (arith, mono m h le inside hit, miss))
  | inr e ↦ e
]

search_between-IsFirst :
    (n : ℕ) (f : ℕ → Bool)
    → ((a b : ℕ) → a ≤ b → b < n → f a ≡ true → f b ≡ true)
    → (fuel i j : ℕ) → j - i < fuel
    → i ≤ j
    → j ≤ n
    → ((m : ℕ) → m < i → f m ≡ false)
    → ((m : ℕ) → j ≤ m → m < n → f m ≡ true)
    → IsFirst n f (search_between fuel f i j)
unfolding search_between
search_between-IsFirst n f mono zero i j enough order top low high = absurd (omega arith)
search_between-IsFirst n f mono (suc fuel) i j enough order top low high =
    elim (Bool-cases (ltb i j)) [
      | inr over ↦
          let meet : j ≤ i = ground (arith, over) in
          rw over (record {
            within = omega arith;
            before = low;
            after = λ m from below. high m (omega (arith, meet)) below;
          })
      | inl inside ↦
          let below : i < j = ground (arith, inside) in
          elim (Bool-cases (f ((i + j) / 2))) [
            | inl hit ↦
                rw (inside, hit)
                  (search_between-IsFirst n f mono fuel i ((i + j) / 2) (omega (arith, below))
                    (omega (arith, below)) (omega (arith, below)) low
                    λ m from inner. mono ((i + j) / 2) m from inner hit)
            | inr miss ↦
                rw (inside, miss)
                  (search_between-IsFirst n f mono fuel ((i + j) / 2 + 1) j (omega (arith, below))
                    (omega (arith, below)) top
                    (λ m inner.
                      lower_half n f mono m ((i + j) / 2) (omega (arith, inner))
                        (omega (arith, below)) miss)
                    high)
          ]
    ]

-- Whatever the test, the index before the one found fails it.
record Settled (f : ℕ → Bool) (i j r : ℕ) : Type 0 where
  low : i ≤ r
  high : r ≤ j
  miss : i < r → f (r - 1) ≡ false

search_between-Settled :
    (f : ℕ → Bool) (fuel i j : ℕ) → i ≤ j → Settled f i j (search_between fuel f i j)
unfolding search_between
search_between-Settled f zero i j le = record {
  low = omega arith;
  high = le;
  miss = λ lt. absurd (omega (arith, lt));
}
search_between-Settled f (suc fuel) i j le = elim (Bool-cases (ltb i j)) [
  | inr over ↦
      rw over (record { low = omega arith; high = le; miss = λ lt. absurd (omega (arith, lt)) })
  | inl inside ↦
      let below : i < j = ground (arith, inside) in
      elim (Bool-cases (f ((i + j) / 2))) [
        | inl hit ↦
            let s = search_between-Settled f fuel i ((i + j) / 2) (omega (arith, below)) in
            rw (inside, hit)
              (record { low = s.low; high = omega (arith, s.high, below); miss = s.miss })
        | inr miss ↦
            let m = (i + j) / 2 in
            let r = search_between fuel f (m + 1) j in
            let s = search_between-Settled f fuel (m + 1) j (omega (arith, below)) in
            rw (inside, miss)
              (record {
                low = omega (arith, s.low, below);
                high = s.high;
                miss = λ _. elim (Bool-cases (ltb (m + 1) r)) [
                  | inl far ↦ s.miss (ground (arith, far))
                  | inr near ↦ let q : r - 1 ≡ m = ground (arith, near, s.low) in rw q miss
                ];
              })
      ]
]

pub search_miss :
    (n : ℕ) (f : ℕ → Bool) → 0 < search n f → (search n f ≤ n) × (f (search n f - 1) ≡ false)
unfolding search
search_miss n f some_left =
    let s = search_between-Settled f (suc n) 0 n (omega arith) in (s.high, s.miss some_left)

pub search-IsFirst :
    (n : ℕ) (f : ℕ → Bool)
    → ((a b : ℕ) → a ≤ b → b < n → f a ≡ true → f b ≡ true)
    → IsFirst n f (search n f)
unfolding search
search-IsFirst n f mono =
    search_between-IsFirst n f mono (suc n) 0 n (omega arith) (omega arith) (omega arith)
      (λ m h. absurd (omega (arith, h))) λ m from below. absurd (omega (arith, from, below))

-- The same index, by a scan.
abbrev pub first_index {ℓ} : {A : Type ℓ} → (A → Bool) → List A → ℕ
first_index p [] = 0
first_index p (x ∷ xs) = if p x then 0 else suc (first_index p xs)

-- Once the test passes it passes for all that follow.
abbrev pub Monotone {ℓ} : {A : Type ℓ} → (A → Bool) → List A → Type ℓ
Monotone p [] = Unit
Monotone p (x ∷ xs) = (p x ≡ true → All (λ y. p y ≡ true) xs) × Monotone p xs

module _ {ℓ} {A : Type ℓ} (p : A → Bool) (d : A) where
  abbrev test_at : List A → ℕ → Bool
  test_at xs i = p (get_or xs i d)

  All-get_or :
      (xs : List A) (i : ℕ) → All (λ y. p y ≡ true) xs → i < length xs → test_at xs i ≡ true
  All-get_or [] i all h = absurd (omega arith)
  All-get_or (x ∷ xs) zero all h = all.0
  All-get_or (x ∷ xs) (suc i) all h = All-get_or xs i all.1 (omega arith)

  Monotone-at :
      (xs : List A)
      → Monotone p xs
      → (a b : ℕ) → a ≤ b
      → b < length xs
      → test_at xs a ≡ true
      → test_at xs b ≡ true
  Monotone-at [] mono a b le h hit = absurd (omega arith)
  Monotone-at (x ∷ xs) mono zero zero le h hit = hit
  Monotone-at (x ∷ xs) mono zero (suc b) le h hit = All-get_or xs b (mono.0 hit) (omega arith)
  Monotone-at (x ∷ xs) mono (suc a) zero le h hit = absurd (omega arith)
  Monotone-at (x ∷ xs) mono (suc a) (suc b) le h hit =
      Monotone-at xs mono.1 a b (omega arith) (omega arith) hit

  -- What is first is what a scan finds.
  first_index_unique :
      (xs : List A) (r : ℕ) → IsFirst (length xs) (test_at xs) r → r ≡ first_index p xs
  first_index_unique [] r first = omega (arith, first.within)
  first_index_unique (x ∷ xs) zero first = ground (arith, first.after 0 (omega arith) (omega arith))
  first_index_unique (x ∷ xs) (suc r) first = ground (
    arith,
    first.before 0 (omega arith),
    first_index_unique xs r (record {
      within = omega (arith, first.within);
      before = λ m h. first.before (suc m) (omega (arith, h));
      after = λ m from below. first.after (suc m) (omega (arith, from)) (omega (arith, below));
    }),
  )

  -- On a list with a monotone test, the binary search of sort.Search finds the scan's index.
  pub search-eq-first_index :
      (xs : List A) → Monotone p xs → search (length xs) (λ i. p (get_or xs i d)) ≡ first_index p xs
  search-eq-first_index xs mono =
      first_index_unique xs (search (length xs) (test_at xs))
        (search-IsFirst (length xs) (test_at xs) (Monotone-at xs mono))
