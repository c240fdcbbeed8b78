-- ===== src/Prelude/Text.antt =====
-- Go strings as lists of bytes, and the functions of package `strings` that the program calls.
use Prim.Native.Nat.{ℕ, ◌+◌, ◌-◌, ◌*◌}
use Prim.Native.Char.{code}
use Prim.Native.String.{String}
use mathlib.Core.Bool.{Bool, true, false, not, ◌&&◌, ◌||◌}
use mathlib.Core.Option.{Option, none, some}
use mathlib.Core.List.{List, [], ◌∷◌, map}
use seta.Prelude.Tests.{leb, ◌=?◌, if◌then◌else◌}
use seta.Prelude.Equality.{◌==◌}

abbrev pub Bytes : Type 0
Bytes = List ℕ

-- The bytes of a literal; every literal in this development is ASCII.
abbrev pub codes : String → Bytes
codes String.[] = []
codes (String.◌∷◌ c s) = code c ∷ codes s

abbrev pub within : ℕ → ℕ → ℕ → Bool
within lo hi c = leb lo c && leb c hi

unfoldable pub is_upper : ℕ → Bool
is_upper = within b'A' b'Z'

unfoldable pub is_lower : ℕ → Bool
is_lower = within b'a' b'z'

unfoldable pub is_digit : ℕ → Bool
is_digit = within b'0' b'9'

unfoldable pub lower : ℕ → ℕ
unfolding is_upper
lower c = if is_upper c then c + 32 else c

-- `strings.ToLower` on text that is all ASCII.
unfoldable pub lower_ascii : Bytes → Bytes
unfolding lower
lower_ascii = map lower

unfoldable pub is_ascii : Bytes → Bool
is_ascii [] = true
is_ascii (c ∷ s) = not (leb 0x80 c) && is_ascii s

-- `unicode.IsSpace` on one byte, and on the two and three bytes of a longer character.
unfoldable pub is_space : ℕ → Bool
is_space c = within 9 13 c || c =? b' '

unfoldable pub is_space_pair : ℕ → ℕ → Bool
is_space_pair a b = a =? 0xc2 && (b =? 0x85 || b =? 0xa0)

unfoldable pub is_space_triple : ℕ → ℕ → ℕ → Bool
is_space_triple a b c =
    (a =? 0xe1 && b =? 0x9a && c =? 0x80)
    || (a =? 0xe2 && b =? 0x80 && (within 0x80 0x8a c || c =? 0xa8 || c =? 0xa9 || c =? 0xaf))
    || (a =? 0xe2 && b =? 0x81 && c =? 0x9f)
    || (a =? 0xe3 && b =? 0x80 && c =? 0x80)

unfoldable pub trim_left : Bytes → Bytes
unfolding is_space is_space_pair is_space_triple
trim_left [] = []
trim_left (a ∷ []) = if is_space a then [] else a ∷ []
trim_left (a ∷ b ∷ []) =
    let one = trim_left (b ∷ []) in
    if is_space a then one else if is_space_pair a b then [] else a ∷ b ∷ []
trim_left (a ∷ b ∷ c ∷ s) =
    let one = trim_left (b ∷ c ∷ s) in
    let two = trim_left (c ∷ s) in
    let three = trim_left s in
    if is_space a
    then one
    else if is_space_pair a b
    then two
    else if is_space_triple a b c
    then three
    else a ∷ b ∷ c ∷ s

unfoldable pub is_empty : Bytes → Bool
is_empty [] = true
is_empty (_ ∷ _) = false

unfoldable pub trim_right : Bytes → Bytes
unfolding trim_left is_empty
trim_right [] = []
trim_right (c ∷ s) = if is_empty (trim_left (c ∷ s)) then [] else c ∷ trim_right s

-- `strings.TrimSpace`
unfoldable pub trim_space : Bytes → Bytes
unfolding trim_left trim_right
trim_space s = trim_right (trim_left s)

-- `strings.TrimSuffix`
unfoldable pub trim_suffix : Bytes → Bytes → Bytes
unfolding ◌==◌
trim_suffix suffix [] = []
trim_suffix suffix (c ∷ s) = if suffix == (c ∷ s) then [] else c ∷ trim_suffix suffix s

-- `strings.CutPrefix`: the rest behind the prefix, if it is there.
unfoldable pub cut_prefix : Bytes → Bytes → Option Bytes
cut_prefix [] s = some s
cut_prefix (p ∷ ps) [] = none
cut_prefix (p ∷ ps) (c ∷ s) = if p =? c then cut_prefix ps s else none

unfoldable pub has_prefix : Bytes → Bytes → Bool
has_prefix [] s = true
has_prefix (p ∷ ps) [] = false
has_prefix (p ∷ ps) (c ∷ s) = p =? c && has_prefix ps s

-- `strings.TrimPrefix`
unfoldable pub trim_prefix : Bytes → Bytes → Bytes
unfolding cut_prefix
trim_prefix p s = elim (cut_prefix p s) [ none ↦ s | some rest ↦ rest ]

-- `strings.Contains`
unfoldable pub contains_sub : Bytes → Bytes → Bool
unfolding has_prefix
contains_sub sub [] = has_prefix sub []
contains_sub sub (c ∷ s) = has_prefix sub (c ∷ s) || contains_sub sub s

unfoldable pub has_byte : ℕ → Bytes → Bool
has_byte b [] = false
has_byte b (c ∷ s) = c =? b || has_byte b s

-- `strings.ContainsAny` on ASCII characters
unfoldable pub contains_any : Bytes → Bytes → Bool
unfolding has_byte
contains_any chars [] = false
contains_any chars (c ∷ s) = has_byte c chars || contains_any chars s

-- Puts a byte in front of the first piece.
abbrev pub push_first : ℕ → List Bytes → List Bytes
push_first c [] = (c ∷ []) ∷ []
push_first c (l ∷ ls) = (c ∷ l) ∷ ls

-- `strings.Split` at a separator of one byte
unfoldable pub split_on : ℕ → Bytes → List Bytes
split_on sep [] = [] ∷ []
split_on sep (c ∷ s) =
    let rest = split_on sep s in if c =? sep then [] ∷ rest else push_first c rest

-- `strings.Cut` at a separator of one byte: before, after, found
unfoldable pub cut : ℕ → Bytes → Bytes × Bytes × Bool
cut sep [] = ([], [], false)
cut sep (c ∷ s) =
    let (before, after, found) = cut sep s in
    if c =? sep then ([], s, true) else (c ∷ before, after, found)

unfoldable pub last_byte : ℕ → Bytes → ℕ
last_byte d [] = d
last_byte d (c ∷ s) = last_byte c s

-- The parts before and behind the last occurrence of a byte.
unfoldable pub cut_last : ℕ → Bytes → Option (Bytes × Bytes)
cut_last sep [] = none
cut_last sep (c ∷ s) = elim (cut_last sep s) [
  | some (before, after) ↦ some (c ∷ before, after)
  | none ↦ if c =? sep then some ([], s) else none
]

-- The digits of a decimal numeral, on top of those read so far.
unfoldable pub digits_from : ℕ → Bytes → Option ℕ
unfolding is_digit
digits_from n [] = some n
digits_from n (c ∷ s) =
    let rest = digits_from (n * 10 + (c - b'0')) s in if is_digit c then rest else none

-- A non-empty numeral with no sign, below a bound: `strconv.ParseUint` in base 10.
unfoldable pub parse_uint : ℕ → Bytes → Option ℕ
unfolding digits_from
parse_uint bound [] = none
parse_uint bound (c ∷ s) = elim (digits_from 0 (c ∷ s)) [
  | none ↦ none
  | some n ↦ if leb bound n then none else some n
]
