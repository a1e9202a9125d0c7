-- ===== src/Stream.antt =====
-- The record of the stream log (internal/stream/record.go), as its readers see it.
pub mod Codec
pub mod Headers
pub mod RoundTrip
pub mod Segment
pub mod Partition
pub mod Examples
use boltq.Prelude.{ℕ, GoString}
use boltq.Prelude.Int.{ℤ}
use boltq.Prelude.Dict.{Dict}

pub record Record : Type 0 where
  pub seq : ℕ
  pub timestamp : ℤ
  pub key : GoString
  pub headers : Dict GoString GoString
  pub payload : GoString
  pub flags : ℕ
  pub epoch : ℕ
