-- ===== src/Prelude.antt =====
-- The names that the other modules share: the libraries', passed on, and those of the children.
mod Tests
mod Lists
mod Taking
mod Equality
pub mod Dict
pub mod Words
pub mod Int
pub mod Search
pub mod Bytes
pub mod Crc
pub mod Decimal
pub use Tests.*
pub use Lists.*
pub use Taking.*
pub use Equality.{Eq, beq_refl, beq_ne, str_eq_iff, nat_eq, string_eq, GoString, lit}
unfoldable pub use Equality.{elem, str_eq}
pub use Equality.{elem-cons, ◌===◌}
pub use Prim.Native.Nat.{ℕ, zero, suc, ◌+◌, ◌-◌, ◌*◌, ◌/◌, ◌%◌, ◌^◌, ◌≤◌, ◌<◌}
pub use mathlib.Core.Path.{◌≡◌, refl, sym, ap, ◌∙◌, fun_ext}
pub use mathlib.Core.Logic.{◌≢◌, ◌↔◌, ◌⊎◌, inl, inr}
pub use mathlib.Core.Bool.{Bool, true, false, not, ◌&&◌, ◌||◌}
pub use mathlib.Core.Option.{Option, none, some}
pub use mathlib.Core.List.{List, [], ◌∷◌, ◌++◌, map}
pub use native.Mathlib.Omega.{arith}
