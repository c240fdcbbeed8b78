-- ===== src/Prelude/Int.antt =====
-- Go's signed `int`, for values whose sign the code tests.
use Prim.Native.Nat.{ℕ, zero, suc, ◌+◌, ◌^◌, Ordering, compare}
use mathlib.Core.Option
use mathlib.Core.Option.{Option, none, some}
use mathlib.Core.List.{List, [], ◌∷◌}
use mathlib.Core.Path.{◌≡◌}
use native.Mathlib.Omega.{arith}
use seta.Prelude.Tests.{◌=?◌, if◌then◌else◌}
use seta.Prelude.Text.{parse_uint}
use seta.Prelude.Order.{IsCompare}

-- `negsuc n` is -(n + 1).
pub data ℤ : Type 0 where
  pos : ℕ → ℤ
  negsuc : ℕ → ℤ

unfoldable pub compare_int : ℤ → ℤ → Ordering
compare_int (pos a) (pos b) = compare a b
compare_int (pos a) (negsuc b) = Ordering.gt
compare_int (negsuc a) (pos b) = Ordering.lt
compare_int (negsuc a) (negsuc b) = compare b a

pub compare_int-IsCompare : IsCompare compare_int
unfolding compare_int
compare_int-IsCompare = record {
  swap = λ a b. ground arith;
  eq_left = λ a b c h. ground arith;
  lt_trans = λ a b c h k. ground arith;
}

pub eq_of_compare_int : (a b : ℤ) → compare_int a b ≡ Ordering.eq → a ≡ b
unfolding compare_int
eq_of_compare_int a b h = ground arith

abbrev negate : ℕ → ℤ
negate zero = pos 0
negate (suc n) = negsuc n

-- `strconv.Atoi`: an optional sign and digits, in the range of a 64-bit integer.
unfoldable pub atoi : List ℕ → Option ℤ
unfolding parse_uint
atoi [] = none
atoi (c ∷ s) =
    if c =? b'-'
    then elim (parse_uint (2 ^ 63 + 1) s) [ none ↦ none | some n ↦ some (negate n) ]
    else Option.map pos (parse_uint (2 ^ 63) (if c =? b'+' then s else c ∷ s))
