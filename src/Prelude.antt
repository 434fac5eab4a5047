-- ===== src/Prelude.antt =====
-- The names that the modules share: the libraries', passed on, and those of the children.
mod Tests
mod Lists
mod Words
mod Fallible
mod Every
pub use Tests.*
pub use Lists.*
pub use Fallible.*
pub use Every.*
unfoldable pub use Words.{saturating_add, saturating_mul}
pub use Words.{
  div_mono, mul_mono, suc-mul_mono, u64_max, u8, u16, u32, u64, saturating_add-eq,
  le-saturating_add,
}
pub use Prim.Native.Nat.{ℕ, zero, suc, ◌+◌, ◌-◌, ◌*◌, ◌/◌, ◌%◌, ◌^◌, ◌≤◌, ◌<◌, min, max}
pub use mathlib.Core.Path.{◌≡◌, refl, sym, ap, subst, ◌∙◌}
pub use mathlib.Core.Logic.{◌≢◌, ◌↔◌, ◌⊎◌, inl, inr}
pub use mathlib.Core.Bool.{Bool, true, false, not, ◌&&◌, ◌||◌}
pub use mathlib.Core.Option.{Option, none, some}
pub use mathlib.Core.List.{List, [], ◌∷◌, ◌++◌, map}
pub use Prim.Native.String.{String}
unfoldable pub use native.Mathlib.Decide.{dec_lt, dec_le, ℕ_discrete}
pub use native.Mathlib.Omega.{arith}
