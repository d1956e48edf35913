-- ===== src/Base.antt =====
-- The names that the other modules share: the libraries' and those of the children below.
mod Tests
mod Lists
mod Strings
mod Results
mod Integers
mod Decimals
mod Hex
pub use Tests.*
pub use Lists.*
pub use Strings.*
unfoldable pub use Strings.{is_space, trim, strip_slashes}
pub use Results.*
pub use Integers.*
pub use Decimals.*
pub use Hex.*
unfoldable pub use Hex.{hex_from, hex, pad_zeros}
unfoldable pub use Decimals.{decimal_from, decimal}
pub use Prim.Native.Nat.{ℕ, zero, suc, ◌+◌, ◌-◌, ◌*◌, ◌/◌, ◌%◌, ◌^◌, ◌≤◌, ◌<◌, min}
pub use Prim.Native.String.{String}
pub use mathlib.Core.Path.{◌≡◌, refl, sym, ap, ◌∙◌, subst, fun_ext}
pub use mathlib.Core.Logic.{◌≢◌, ◌↔◌, ◌⊎◌, inl, inr}
pub use mathlib.Core.Bool.{Bool, true, false, not, ◌&&◌, ◌||◌}
pub use mathlib.Core.Option.{Option, none, some}
pub use mathlib.Core.List.{List, [], ◌∷◌, ◌++◌, map, append_assoc, append-nil}
pub use native.Mathlib.Omega.{arith}
pub use text.Mathlib.Text.{◌==◌}
pub use text.Mathlib.TextEquality.{eq_iff}
pub use text.Mathlib.TextPositions.{eq_refl}
