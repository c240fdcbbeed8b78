-- ===== src/Prelude.antt =====
-- The names that the other modules share: the libraries', passed on, and those of the children.
mod Tests
mod Lists
mod Equality
mod Order
mod Sort
mod Text
mod Pieces
mod Results
mod Int
mod Maps
pub use Tests.*
pub use Lists.*
pub use Equality.*
unfoldable pub use Equality.{◌==◌}
pub use Order.*
unfoldable pub use Order.{compare_bytes}
pub use Sort.*
unfoldable pub use Sort.{insert_by, sort_by}
pub use Text.*
unfoldable pub use Text.{
  is_upper, is_lower, is_digit, lower, lower_ascii, is_ascii, is_space, is_space_pair,
  is_space_triple, trim_left, is_empty, trim_right, trim_space, trim_suffix, cut_prefix, has_prefix,
  trim_prefix, contains_sub, has_byte, contains_any, split_on, cut, last_byte, cut_last,
  digits_from, parse_uint,
}
pub use Results.{
  Result, ok, err, ◌>>=◌, ◌>>◌, check, bind-eq-ok, check-eq-ok, Result-cases, Yields, Yields-bind,
  Yields-check, Yields-if, Yields-elim, Yields-ok, Yields-option, Yields-result, Yields-imp,
  Yields-any,
}
pub use Int.{ℤ, pos, negsuc, compare_int-IsCompare, eq_of_compare_int}
unfoldable pub use Int.{compare_int, atoi}
pub use Pieces.*
pub use Maps.*
unfoldable pub use Maps.{lookup, insert, keep_keys, has_key}
pub use Prim.Native.Nat.{ℕ, zero, suc, ◌+◌, ◌-◌, ◌*◌, ◌/◌, ◌%◌, ◌≤◌, ◌<◌, Ordering, compare}
pub use mathlib.Core.Path.{◌≡◌, refl, sym, ap, ◌∙◌, subst, subst₂, fun_ext}
pub use mathlib.Core.Logic.{◌≢◌, ◌↔◌, ◌⊎◌, inl, inr}
pub use mathlib.Core.Bool.{Bool, true, false, not, ◌&&◌, ◌||◌}
pub use mathlib.Core.Option.{Option, none, some}
pub use mathlib.Core.List.{List, [], ◌∷◌, ◌++◌, map, append-nil, append_assoc}
pub use native.Mathlib.Omega.{arith}
