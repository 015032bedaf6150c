-- ===== src/Common.antt =====
-- Shared helpers: library names passed on, Boolean tests and lists over the native numbers,
-- association lists for the program's `HashMap`s, and signed 32-bit words.
mod Tests
mod Lists
pub mod Assoc
pub mod Members
pub mod Word
pub mod Order
pub mod Compare
pub mod Sort
pub mod Keys
pub mod Bits
pub mod First
pub mod Text
pub use text.Mathlib.TextEquality.{eq_iff}
pub use Tests.*
pub use Lists.*
pub use Prim.Native.Nat.{ℕ, zero, suc, ◌+◌, ◌-◌, ◌*◌, ◌/◌, ◌%◌, ◌^◌, ◌≤◌, ◌<◌, min, max}
pub use Prim.Native.String.{String}
pub use mathlib.Core.Path.{◌≡◌, refl, sym, ap, ap₂, ◌∙◌}
pub use mathlib.Core.Logic.{◌≢◌, ◌↔◌, ◌⊎◌, inl, inr}
pub use mathlib.Core.Bool.{Bool, true, false, not, ◌&&◌, ◌||◌}
pub use mathlib.Core.Option.{Option, none, some}
pub use mathlib.Core.List.{List, [], ◌∷◌, ◌++◌, map, foldl}
pub use native.Mathlib.Omega.{arith}
unfoldable pub use native.Mathlib.Decide.{dec_lt, ℕ_discrete}
