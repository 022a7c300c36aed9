-- ===== src/Base.antt =====
-- The names that the other modules share: the libraries', passed on, and those of the children.
pub mod Tests
pub mod Lists
pub mod Results
pub mod Int
pub mod Text
pub use Prim.Native.Nat.{ℕ, zero, suc, ◌+◌, ◌-◌, ◌*◌, ◌/◌, ◌%◌, ◌^◌, ◌≤◌, ◌<◌, min, max}
pub use Prim.Native.String.{String}
pub use mathlib.Core.Path.{◌≡◌, refl, sym, ap, ◌∙◌}
pub use mathlib.Core.Logic.{◌≢◌, ◌↔◌, ◌⊎◌, inl, inr}
pub use mathlib.Core.Bool.{Bool, true, false, ◌&&◌, ◌||◌}
pub use mathlib.Core.Option.{Option, none, some}
pub use mathlib.Core.List.{List, [], ◌∷◌, ◌++◌, map}
pub use native.Mathlib.Omega.{arith}
pub use Tests.*
pub use Lists.*
pub use Results.*
pub use Int.*
unfoldable pub use Text.{
  is_whitespace, is_blank, trim, trim_start, trim_end, take_chars, count_chars,
  eq_ignore_ascii_case, strip_prefix, parse_i64, parse_usize, split_once, split, strip_last, join,
  show_unsigned, show_i64, format,
}
pub use Text.{count_chars-take_chars}
unfoldable pub use Int.{◌+ℤ◌, ◌-ℤ◌}
