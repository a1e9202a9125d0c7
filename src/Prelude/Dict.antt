-- ===== src/Prelude/Dict.antt =====
-- Go maps as lists of bindings, in which the first binding of a key is the one that counts. The
-- order in which Go iterates over a map is unspecified: every operation here is determined, up to
-- `get`, by the bindings alone.
use Prim.Native.Nat.{ℕ, suc, ◌≤◌, ◌+◌}
use mathlib.Core.Path.{◌≡◌, refl, sym}
use mathlib.Core.Logic.{inl, inr}
use mathlib.Core.Bool.{Bool, true, false}
use mathlib.Core.Option.{Option, none, some}
use mathlib.Core.List.{List, [], ◌∷◌}
use native.Mathlib.Omega.{arith}
use boltq.Prelude.Tests.{if◌then◌else◌, Bool-cases}
use boltq.Prelude.Equality.{Eq}

abbrev pub Dict {ℓ κ} : Type ℓ → Type κ → Type (ℓ ⊔ κ)
Dict K V = List (K × V)

abbrev pub is_some {ℓ} : {A : Type ℓ} → Option A → Bool
is_some none = false
is_some (some a) = true

abbrev pub maybe {ℓ κ} : {A : Type ℓ} {B : Type κ} → B → (A → B) → Option A → B
maybe b f none = b
maybe b f (some a) = f a

module _ {ℓ κ} {K : Type ℓ} {V : Type κ} ⦃e : Eq K⦄ where
  -- v, ok := m[k]
  unfoldable pub get : Dict K V → K → Option V
  get [] k = none
  get ((j, v) ∷ d) k = if e.beq j k then some v else get d k

  -- _, ok := m[k]
  abbrev pub has : Dict K V → K → Bool
  has d k = is_some (get d k)

  -- m[k] = v
  unfoldable pub put : Dict K V → K → V → Dict K V
  put [] k v = (k, v) ∷ []
  put ((j, w) ∷ d) k v = if e.beq j k then (j, v) ∷ d else (j, w) ∷ put d k v

  -- delete(m, k)
  unfoldable pub remove : Dict K V → K → Dict K V
  remove [] k = []
  remove ((j, v) ∷ d) k = let rest = remove d k in if e.beq j k then rest else (j, v) ∷ rest

  -- for k, v := range m { if !p(k, v) { delete(m, k) } }
  unfoldable pub keep : (K → V → Bool) → Dict K V → Dict K V
  unfolding remove
  keep p [] = []
  keep p ((j, v) ∷ d) = let rest = keep p d in if p j v then (j, v) ∷ rest else remove rest j

  -- for k, v := range m { m[k] = f(k, v) }
  unfoldable pub update_all : (K → V → V) → Dict K V → Dict K V
  update_all f [] = []
  update_all f ((j, v) ∷ d) = (j, f j v) ∷ update_all f d

  -- len(m)
  unfoldable pub size : Dict K V → ℕ
  unfolding get
  size [] = 0
  size ((j, v) ∷ d) = let n = size d in if has d j then n else suc n

  pub get-put :
      (d : Dict K V) (k : K) (v : V) (j : K)
      → get (put d k v) j ≡ (if e.beq k j then some v else get d j)
  unfolding get put
  get-put [] k v j = refl
  get-put ((i, w) ∷ d) k v j =
      ground (arith, e.beq_iff i k, e.beq_iff k j, e.beq_iff i j, get-put d k v j)

  pub get-put_self : (d : Dict K V) (k : K) (v : V) → get (put d k v) k ≡ some v
  get-put_self d k v = ground (arith, get-put d k v k, e.beq_iff k k)

  pub get-remove :
      (d : Dict K V) (k j : K) → get (remove d k) j ≡ (if e.beq k j then none else get d j)
  unfolding get remove
  get-remove [] k j = ground arith
  get-remove ((i, v) ∷ d) k j =
      ground (arith, e.beq_iff i k, e.beq_iff k j, e.beq_iff i j, get-remove d k j)

  abbrev pub kept : (K → V → Bool) → K → Option V → Option V
  kept p k none = none
  kept p k (some v) = if p k v then some v else none

  pub get-keep : (p : K → V → Bool) (d : Dict K V) (k : K) → get (keep p d) k ≡ kept p k (get d k)
  unfolding get keep
  get-keep p [] k = refl
  get-keep p ((j, v) ∷ d) k =
      ground (arith, e.beq_iff j k, get-remove (keep p d) j k, get-keep p d k)

  abbrev pub mapped : (K → V → V) → K → Option V → Option V
  mapped f k none = none
  mapped f k (some v) = some (f k v)

  pub get-update_all :
      (f : K → V → V) (d : Dict K V) (k : K) → get (update_all f d) k ≡ mapped f k (get d k)
  unfolding get update_all
  get-update_all f [] k = refl
  get-update_all f ((j, v) ∷ d) k = ground (arith, e.beq_iff j k, get-update_all f d k)

  pub size-put :
      (d : Dict K V) (k : K) (v : V) → size (put d k v) ≡ (if has d k then size d else suc (size d))
  unfolding size put
  size-put [] k v = refl
  size-put ((j, w) ∷ d) k v =
      ground (arith, e.beq_iff j k, e.beq_iff k j, get-put d k v j, size-put d k v)

  pub size-remove :
      (d : Dict K V) (k : K)
      → size d ≡ (if has d k then suc (size (remove d k)) else size (remove d k))
  unfolding size remove
  size-remove [] k = refl
  size-remove ((j, w) ∷ d) k =
      ground (arith, e.beq_iff j k, e.beq_iff k j, get-remove d k j, size-remove d k)

  -- A map that has every key of another is at least as long.
  pub size_mono : (a b : Dict K V) → ((k : K) → has a k ≡ true → has b k ≡ true) → size a ≤ size b
  unfolding size
  size_mono [] b h = omega arith
  size_mono ((j, v) ∷ d) b h = elim (Bool-cases (has d j)) [
    | inl old ↦ rw old (size_mono d b λ k held. h k (unfold get in ground (arith, held)))
    | inr new ↦ rw new (
        ground (
          arith,
          size-remove b j,
          h j (unfold get in ground (arith, e.beq_iff j j)),
          size_mono d (remove b j) λ k held.
              ground
                (arith, get-remove b j k, e.beq_iff j k, h k (unfold get in ground (arith, held))),
        ))
  ]

  pub size-keep-le : (p : K → V → Bool) (d : Dict K V) → size (keep p d) ≤ size d
  size-keep-le p d = size_mono (keep p d) d (λ k held. ground (arith, held, get-keep p d k))

  abbrev pub cost : (K → V → ℕ) → K → Option V → ℕ
  cost f k none = 0
  cost f k (some v) = f k v

  -- The sum of a measure over the bindings
  abbrev pub total : (K → V → ℕ) → Dict K V → ℕ
  total f [] = 0
  total f ((j, v) ∷ d) = f j v + total f d

  -- No key is bound twice.
  abbrev pub Unique : Dict K V → Type κ
  Unique [] = Unit
  Unique ((j, v) ∷ d) = (get d j ≡ none) × Unique d

  pub total-put :
      (f : K → V → ℕ) (d : Dict K V) (k : K) (v : V)
      → total f (put d k v) + cost f k (get d k) ≡ total f d + f k v
  unfolding put get
  total-put f [] k v = omega arith
  total-put f ((j, w) ∷ d) k v = elim (Bool-cases (e.beq j k)) [
    | inl same ↦ let q : j ≡ k = (e.beq_iff j k).0 same in rw (same, q) (omega arith)
    | inr ne ↦ rw ne (omega (arith, total-put f d k v))
  ]

  pub total-remove :
      (f : K → V → ℕ) (d : Dict K V) (k : K)
      → Unique d
      → total f d ≡ total f (remove d k) + cost f k (get d k)
  unfolding remove get
  total-remove f [] k u = omega arith
  total-remove f ((j, v) ∷ d) k u = elim (Bool-cases (e.beq j k)) [
    | inl same ↦
        let q : j ≡ k = (e.beq_iff j k).0 same in
        let absent : get d k ≡ none = rw (sym q) u.0 in
        let rest = total-remove f d k u.1 in rw (same, q) (omega (arith, rw absent at rest))
    | inr ne ↦ rw ne (omega (arith, total-remove f d k u.1))
  ]

  pub put-Unique : (d : Dict K V) (k : K) (v : V) → Unique d → Unique (put d k v)
  unfolding put
  put-Unique [] k v u = (unfold get in refl, tt)
  put-Unique ((j, w) ∷ d) k v u = elim (Bool-cases (e.beq j k)) [
    | inl same ↦ rw same u
    | inr ne ↦ rw ne (
      ground (arith, get-put d k v j, u.0, ne, e.beq_iff k j, e.beq_iff j k),
      put-Unique d k v u.1,
    )
  ]

  pub remove-Unique : (d : Dict K V) (k : K) → Unique d → Unique (remove d k)
  unfolding remove
  remove-Unique [] k u = tt
  remove-Unique ((j, w) ∷ d) k u = elim (Bool-cases (e.beq j k)) [
    | inl same ↦ rw same (remove-Unique d k u.1)
    | inr ne ↦ rw ne (ground (arith, get-remove d k j, u.0), remove-Unique d k u.1)
  ]

  pub get-empty : (k : K) → get [] k ≡ none
  unfolding get
  get-empty k = refl

pub ruleset dict_laws = (get-put, get-remove, get-keep, get-update_all)
