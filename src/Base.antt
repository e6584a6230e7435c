-- ===== src/Base.antt =====
-- The names that all components share: the libraries', passed on, and those of the children.
pub mod Tests
pub mod Equality
pub mod Int
pub mod Lists
pub mod Text
pub mod Dict
pub mod Result
pub mod Residues
pub mod Sorting
pub use Prim.Native.Nat.{ℕ, zero, suc, ◌+◌, ◌-◌, ◌*◌, ◌/◌, ◌%◌, ◌^◌, ◌≤◌, ◌<◌}
pub use Prim.Native.String.{String}
pub use mathlib.Core.Bool.{Bool, true, false, not, ◌&&◌, ◌||◌}
pub use mathlib.Core.List.{List, [], ◌∷◌, ◌++◌, map}
pub use mathlib.Core.Logic.{◌≢◌, ◌↔◌, ◌⊎◌, inl, inr}
pub use mathlib.Core.Option.{Option, none, some}
pub use mathlib.Core.Path.{◌≡◌, refl, sym, ap, ◌∙◌, subst}
pub use native.Mathlib.Omega.{arith}
pub use text.Mathlib.TextEquality.{eq_iff}
pub use Tests.{
  ltb, leb, nat_beq, if◌then◌else◌, leb→le, le→leb, leb-gt, nat_beq_iff, Bool-cases, Option-cases,
  &&-eq-true,
}
pub use Equality.{Eq, ◌==◌, nat_eq, string_eq, option_eq, list_eq, beq_refl}
unfoldable pub use Equality.{contains}
pub use Lists.{
  length, get_elem?, take, drop, All, length-append, take-append, drop-append, find-holds,
}
unfoldable pub use Lists.{all, find}
