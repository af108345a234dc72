-- ===== src/Common.antt =====
-- The names that the other modules share: the libraries', passed on, and those of the children.
mod Tests
mod Lists
mod Text
mod Number
mod Errors
mod Dict
mod Strings
pub mod Effect
pub use Strings.Splitting.{split-append, split-single, replace_all-byte}
pub use Tests.*
pub use Lists.*
pub use Number.{ℤ, pos, negsuc, atoi-print}
unfoldable pub use Number.{atoi, parse_digits, print_ℕ, print_ℤ, is_digit}
unfoldable pub use Text.{Str, codes, str_eq, has_prefix, trim_prefix, contains_str}
pub use Text.Prefixes.{has_prefix-eq, has_prefix-append, trim_prefix-cases}
pub use Text.{str_eq_iff, str_eq_refl}
pub use Errors.*
unfoldable pub use Strings.{split, join, replace_all, trim_left, trim_right, is_space, trim_space}
unfoldable pub use Dict.{lookup, insert, delete}
pub use Dict.{lookup-insert, lookup-insert_self, lookup-delete}
pub use Prim.Native.Nat.{ℕ, zero, suc, ◌+◌, ◌-◌, ◌*◌, ◌/◌, ◌%◌, ◌^◌, ◌≤◌, ◌<◌}
pub use mathlib.Core.Path.{◌≡◌, refl, sym, ap, ◌∙◌, subst}
pub use mathlib.Core.Logic.{◌≢◌, ◌↔◌, ◌⊎◌, inl, inr}
pub use mathlib.Core.Bool.{Bool, true, false, ◌&&◌, ◌||◌, not}
pub use mathlib.Core.Option.{Option, none, some}
pub use mathlib.Core.List.{List, [], ◌∷◌, ◌++◌, map}
pub use native.Mathlib.Omega.{arith}
