-- ===== src/Base.antt =====
-- Names that every module of the library shares: the libraries' own, passed on, the Boolean tests,
-- the lists measured by native numbers and the little-endian bytes of machine words.
mod Tests
mod Lists
mod Bytes
pub mod Table
pub use Tests.*
pub use Lists.*
pub use Bytes.*
unfoldable pub use Bytes.{same_bytes}
pub use Prim.Native.Nat.{ℕ, zero, suc, ◌+◌, ◌-◌, ◌*◌, ◌/◌, ◌%◌, ◌^◌, ◌≤◌, ◌<◌}
pub use mathlib.Core.Path.{◌≡◌, refl, sym, ap, subst, ◌∙◌}
pub use mathlib.Core.Logic.{◌≢◌, ◌↔◌, ◌⊎◌, inl, inr}
pub use mathlib.Core.Bool.{Bool, true, false, not, ◌&&◌, ◌||◌}
pub use mathlib.Core.Option.{Option, none, some}
pub use mathlib.Core.List.{List, [], ◌∷◌, ◌++◌, map}
pub use native.Mathlib.Omega.{arith}
