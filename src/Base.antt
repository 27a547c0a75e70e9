-- ===== src/Base.antt =====
-- The names that the other modules share: numbers, tests, lists and bytes, results and effects.
pub mod Tests
pub mod Lists
pub mod ByteStrings
pub mod Errors
pub mod Effect
pub mod Text
pub mod Kept
pub use Tests.*
pub use Lists.*
unfoldable pub use ByteStrings.*
pub use Errors.*
pub use Effect.*
pub use Text.*
pub use Kept.*
pub use Prim.Native.String.{String}
pub use Prim.Native.Nat.{ℕ, zero, suc, ◌+◌, ◌-◌, ◌*◌, ◌/◌, ◌%◌, ◌^◌, ◌≤◌, ◌<◌, min}
pub use mathlib.Core.Path.{◌≡◌, refl, sym, ap, ap₂, fun_ext, subst, ◌∙◌}
pub use mathlib.Core.Logic.{◌≢◌, ◌↔◌, ◌⊎◌, inl, inr}
pub use mathlib.Core.Bool.{Bool, true, false, ◌&&◌, ◌||◌, not}
pub use mathlib.Core.Option.{Option, none, some}
pub use mathlib.Core.List.{List, [], ◌∷◌, ◌++◌, append-nil, append_assoc}
pub use native.Mathlib.Omega.{arith}
