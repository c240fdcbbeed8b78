-- ===== src/Core/Severity.antt =====
-- internal/core/severity.go. A severity is Go's `int`, so any integer can stand in the field.
use seta.Prelude.{
  ℕ, zero, suc, ◌+◌, ◌/◌, ◌%◌, ◌≡◌, refl, Bool, true, false, List, [], ◌∷◌, ◌++◌, Option, none,
  some, arith, if◌then◌else◌, leb, ◌==◌, Bytes, codes, Result, ok, err, ℤ, pos, negsuc, ==_iff, All,
  Bool-cases, inl, inr, subst,
}

abbrev pub Severity : Type 0
Severity = ℤ

abbrev pub unset : Severity
unset = pos 0

abbrev pub info : Severity
info = pos 1

abbrev pub low : Severity
low = pos 2

abbrev pub medium : Severity
medium = pos 3

abbrev pub high : Severity
high = pos 4

abbrev pub critical : Severity
critical = pos 5

abbrev pub severity_names : List Bytes
severity_names =
    codes "unset"
    ∷ codes "info"
    ∷ codes "low"
    ∷ codes "medium"
    ∷ codes "high"
    ∷ codes "critical"
    ∷ []

abbrev pub severities : List Severity
severities = info ∷ low ∷ medium ∷ high ∷ critical ∷ []

-- `severityNames[s]` for an index from 0.
unfoldable pub name_at : List Bytes → ℕ → Option Bytes
name_at [] n = none
name_at (x ∷ xs) zero = some x
name_at (x ∷ xs) (suc n) = name_at xs n

-- The digits of a number, least significant last; `n + 1` rounds are enough.
unfoldable pub decimal_from : ℕ → ℕ → Bytes → Bytes
decimal_from zero n rest = rest
decimal_from (suc fuel) n rest =
    let more = decimal_from fuel (n / 10) ((b'0' + n % 10) ∷ rest) in
    if leb n 9 then (b'0' + n) ∷ rest else more

unfoldable pub decimal : ℕ → Bytes
unfolding decimal_from
decimal n = decimal_from (n + 1) n []

unfoldable pub decimal_int : ℤ → Bytes
unfolding decimal
decimal_int (pos n) = decimal n
decimal_int (negsuc n) = b'-' ∷ decimal (suc n)

-- `fmt.Sprintf("severity(%d)", int(s))`
unfoldable pub out_of_range : Severity → Bytes
unfolding decimal_int
out_of_range s = codes "severity(" ++ (decimal_int s ++ codes ")")

-- `Severity.String`
unfoldable pub severity_string : Severity → Bytes
unfolding name_at out_of_range
severity_string (negsuc n) = out_of_range (negsuc n)
severity_string (pos n) = elim (name_at severity_names n) [
  | none ↦ out_of_range (pos n)
  | some s ↦ s
]

-- `Severity.Valid`
unfoldable pub is_valid : Severity → Bool
is_valid (negsuc n) = false
is_valid (pos zero) = false
is_valid (pos (suc n)) = leb n 4

pub data SeverityError : Type 0 where
  unknown_severity : Bytes → SeverityError
  invalid_severity : Severity → SeverityError

-- The loop of `ParseSeverity` over `Severities()`.
unfoldable pub parse_among : List Severity → Bytes → Result SeverityError Severity
unfolding severity_string ◌==◌
parse_among [] name = err (unknown_severity name)
parse_among (s ∷ ss) name =
    let rest = parse_among ss name in if severity_string s == name then ok s else rest

-- `ParseSeverity`
unfoldable pub parse_severity : Bytes → Result SeverityError Severity
unfolding parse_among
parse_severity name = parse_among severities name

-- `Severity.MarshalText`
unfoldable pub marshal_text : Severity → Result SeverityError Bytes
unfolding is_valid severity_string
marshal_text s = if is_valid s then ok (severity_string s) else err (invalid_severity s)

-- Parsing the name of a severity gives it back exactly when it is one of the five valid ones; the
-- names of `unset` and of every number out of range are refused.
pub parse_severity-severity_string :
    (s : Severity)
    → parse_severity (severity_string s)
      ≡ (if is_valid s then ok s else err (unknown_severity (severity_string s)))
unfolding parse_severity is_valid ◌==◌
parse_severity-severity_string (negsuc n) = refl
parse_severity-severity_string (pos zero) = refl
parse_severity-severity_string (pos (suc zero)) = refl
parse_severity-severity_string (pos (suc (suc zero))) = refl
parse_severity-severity_string (pos (suc (suc (suc zero)))) = refl
parse_severity-severity_string (pos (suc (suc (suc (suc zero))))) = refl
parse_severity-severity_string (pos (suc (suc (suc (suc (suc zero)))))) = refl
parse_severity-severity_string (pos (suc (suc (suc (suc (suc (suc n))))))) = ground arith

parse_among_lem :
    (ss : List Severity) (name : Bytes) {s : Severity}
    → All (λ t. is_valid t ≡ true) ss
    → parse_among ss name ≡ ok s
    → (is_valid s ≡ true) × (severity_string s ≡ name)
unfolding parse_among
parse_among_lem [] name v h = cc
parse_among_lem (t ∷ ts) name {s} v h = elim (Bool-cases (severity_string t == name)) [
  | inl same ↦
      let e : t ≡ s = cc (rw same at h) in
      (subst (λ r. is_valid r ≡ true) e v.0, cc (e, (==_iff (severity_string t) name).0 same))
  | inr other ↦ parse_among_lem ts name v.1 (rw other at h)
]

-- A name that parses is the name of a valid severity, the one that is returned.
pub severity_string-parse_severity :
    (name : Bytes) {s : Severity}
    → parse_severity name ≡ ok s
    → (is_valid s ≡ true) × (severity_string s ≡ name)
unfolding parse_severity is_valid
severity_string-parse_severity name h =
    parse_among_lem severities name (refl, (refl, (refl, (refl, (refl, tt))))) h
