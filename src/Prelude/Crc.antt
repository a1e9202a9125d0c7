-- ===== src/Prelude/Crc.antt =====
-- hash/crc32 with the IEEE polynomial, bit by bit.
use Prim.Native.Nat.{ℕ, zero, suc, ◌/◌, ◌%◌, ◌^◌, ◌<◌, bit_xor}
use native.Mathlib.Nat.{mod-lt}
use mathlib.Core.List.{List, [], ◌∷◌}
use native.Mathlib.Omega.{arith}
use boltq.Prelude.Tests.{◌==◌, if◌then◌else◌}
use boltq.Prelude.Words.{u32}

crc_bits : ℕ → ℕ → ℕ
crc_bits zero c = c
crc_bits (suc n) c = crc_bits n (if c % 2 == 1 then bit_xor (c / 2) 3988292384 else c / 2)

crc_bytes : ℕ → List ℕ → ℕ
unfolding crc_bits
crc_bytes c [] = c
crc_bytes c (b ∷ bs) = crc_bytes (crc_bits 8 (bit_xor c b)) bs

pub crc32 : List ℕ → ℕ
unfolding crc_bytes
crc32 bs = bit_xor (crc_bytes 4294967295 bs) 4294967295 % u32

pub crc32-bound : (bs : List ℕ) → crc32 bs < 256 ^ 4
unfolding crc32
crc32-bound bs = mod-lt _ (omega arith)
