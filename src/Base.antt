-- ===== src/Base.antt =====
-- The names that the other modules share: the libraries', passed on, and those of the children.
mod Tests
mod Lists
mod Bytes
pub mod Keys
pub mod Sort
pub mod Assoc
pub mod Int
pub mod Result
pub use Tests.*
pub use Lists.*
pub use Bytes.{Text, codes, text_eq_iff, text_eq_refl, text_lt_irrefl, text_lt_trans, text_lt_total}
unfoldable pub use Bytes.{
  text_eq, text_lt, to_lower, to_upper, trim_space, split_on, has_prefix, is_space, digits_of,
  digits_onto, trim_left,
}
pub use Prim.Native.Nat.{ℕ, zero, suc, ◌+◌, ◌-◌, ◌*◌, ◌/◌, ◌%◌, ◌^◌, ◌≤◌, ◌<◌}
pub use mathlib.Core.Path.{◌≡◌, refl, sym, ap, subst, ◌∙◌}
pub use mathlib.Core.Logic.{◌≢◌, ◌↔◌, ◌⊎◌, inl, inr}
pub use mathlib.Core.Bool.{Bool, true, false, not, ◌&&◌, ◌||◌}
pub use mathlib.Core.Option.{Option, none, some}
pub use mathlib.Core.List.{List, [], ◌∷◌, ◌++◌, map, reverse, append_assoc, append-nil}
pub use native.Mathlib.Omega.{arith}
