-- ===== src/Prelude/Bytes.antt =====
-- Little-endian integers in byte slices (encoding/binary).
use Prim.Native.Nat.{ℕ, zero, suc, ◌+◌, ◌*◌, ◌/◌, ◌%◌, ◌^◌, ◌<◌}
use native.Mathlib.Nat.{pow-suc}
use mathlib.Core.Path.{◌≡◌, refl, ap}
use mathlib.Core.List.{List, [], ◌∷◌, ◌++◌}
use mathlib.Core.Option.{Option, none, some}
use native.Mathlib.Omega.{arith}
use boltq.Prelude.Lists.{length}
use boltq.Prelude.Dict.{maybe}

-- The low `k` bytes of a number, lowest first: PutUint16, PutUint32, PutUint64 at k = 2, 4, 8.
unfoldable pub put_le : ℕ → ℕ → List ℕ
put_le zero x = []
put_le (suc k) x = x % 256 ∷ put_le k (x / 256)

-- Uint16, Uint32, Uint64 of the bytes
unfoldable pub of_le : List ℕ → ℕ
of_le [] = 0
of_le (b ∷ bs) = b + 256 * of_le bs

pub length-put_le : (k x : ℕ) → length (put_le k x) ≡ k
unfolding put_le
length-put_le zero x = refl
length-put_le (suc k) x = ap suc (length-put_le k (x / 256))

-- A number that fits is read back as it was written.
pub of_le-put_le : (k x : ℕ) → x < 256 ^ k → of_le (put_le k x) ≡ x
unfolding of_le put_le
of_le-put_le zero x h = omega arith
of_le-put_le (suc k) x h = omega (arith, of_le-put_le k (x / 256) (omega (arith, pow-suc 256 k)))

-- io.ReadFull of so many bytes: these and the others
unfoldable pub read_full : ℕ → List ℕ → Option (List ℕ × List ℕ)
read_full zero bs = some ([], bs)
read_full (suc n) [] = none
read_full (suc n) (b ∷ bs) = maybe none (λ (xs, rest). some (b ∷ xs, rest)) (read_full n bs)

pub append_assoc {ℓ} : {A : Type ℓ} (a b c : List A) → (a ++ b) ++ c ≡ a ++ (b ++ c)
append_assoc [] b c = refl
append_assoc (x ∷ a) b c = ap (λ t. x ∷ t) (append_assoc a b c)

pub read_full-append :
    (n : ℕ) (xs ys : List ℕ) → length xs ≡ n → read_full n (xs ++ ys) ≡ some (xs, ys)
unfolding read_full
read_full-append zero [] ys h = refl
read_full-append zero (x ∷ xs) ys h = absurd (omega (arith, h))
read_full-append (suc n) [] ys h = absurd (omega (arith, h))
read_full-append (suc n) (x ∷ xs) ys h = rw (read_full-append n xs ys (omega (arith, h)))
