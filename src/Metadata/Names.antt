-- ===== src/Metadata/Names.antt =====
-- The keys of the partition map: PartitionKey of internal/cluster/metadata.go.
use boltq.Prelude.{ℕ, suc, ◌≡◌, ◌≢◌, refl, [], ◌∷◌, ◌++◌, arith, All, All-mono, GoString}
use boltq.Prelude.Decimal.{decimal, decimal-digits}
use boltq.Metadata.{partition_key}

no_slash : (n : ℕ) → All (λ c. c ≢ b'/') (decimal (suc n) n)
no_slash n = All-mono (decimal (suc n) n) (λ c h e. omega (arith, h, e)) (decimal-digits (suc n) n)

in_middle : (b d e : GoString) → All (λ c. c ≢ b'/') e → e ≢ b ++ b'/' ∷ d
in_middle [] d [] h q = ground (arith, q)
in_middle (c ∷ b) d [] h q = ground (arith, q)
in_middle [] d (x ∷ e) h q = h.0 cc
in_middle (c ∷ b) d (x ∷ e) h q = in_middle b d e h.1 cc

-- A string is determined up to its last slash.
last_slash :
    (a b d e : GoString)
    → All (λ c. c ≢ b'/') d
    → All (λ c. c ≢ b'/') e
    → a ++ b'/' ∷ d ≡ b ++ b'/' ∷ e
    → a ≡ b
last_slash [] [] d e hd he q = refl
last_slash [] (c ∷ b) d e hd he q = absurd (in_middle b e d hd cc)
last_slash (c ∷ a) [] d e hd he q = absurd (in_middle a d e he cc)
last_slash (c ∷ a) (x ∷ b) d e hd he q = let rest : a ≡ b = last_slash a b d e hd he cc in cc

-- Partitions of two topics never share a key, also where a topic's name holds a slash.
pub partition_key-topic : (s t : GoString) (p q : ℕ) → partition_key s p ≡ partition_key t q → s ≡ t
unfolding partition_key
partition_key-topic s t p q e =
    last_slash s t (decimal (suc p) p) (decimal (suc q) q) (no_slash p) (no_slash q) e
