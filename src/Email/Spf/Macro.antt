-- ===== src/Email/Spf/Macro.antt =====
-- Macro strings and domain specifications of checks/email/internal/spf/parse.go.
use seta.Prelude.{
  ℕ, zero, suc, ◌+◌, Bool, true, false, not, ◌&&◌, ◌||◌, [], ◌∷◌, none, some, if◌then◌else◌, leb,
  ◌=?◌, length, Bytes, codes, is_digit, lower, has_byte, trim_suffix, cut, cut_last, contains_sub,
  last_byte, Result, ok, err, ◌>>◌, check,
}
use seta.Email.Tags.{is_alpha}

pub data MacroError : Type 0 where
  bad_character : ℕ → MacroError
  dangling_percent unterminated : MacroError
  bad_macro : ℕ → MacroError
  bad_letter bad_transformer : Bytes → MacroError

unfoldable pub macro_letters : Bool → Bytes
macro_letters exp = if exp then codes "slodiphvcrt" else codes "slodiphv"

-- The digits of a transformer are passed over.
unfoldable pub skip_digits : Bytes → Bytes
skip_digits [] = []
skip_digits (c ∷ s) = if is_digit c then skip_digits s else c ∷ s

unfoldable pub skip_reverse : Bytes → Bytes
skip_reverse [] = []
skip_reverse (c ∷ s) = if lower c =? b'r' then s else c ∷ s

unfoldable pub are_delimiters : Bytes → Bool
are_delimiters [] = true
are_delimiters (c ∷ s) = has_byte c (codes ".-+,/_=") && are_delimiters s

-- The tests of a macro's body.
unfoldable pub check_body : Bool → Bytes → Result MacroError (Unit {0})
check_body exp [] = err (bad_letter [])
check_body exp (c ∷ s) = do
  check (has_byte (lower c) (macro_letters exp)) (bad_letter (c ∷ s))
  check (are_delimiters (skip_reverse (skip_digits s))) (bad_transformer (c ∷ s))

-- The loop of `parseMacroString`; `skip` bytes of what is left have been read.
unfoldable pub macro_loop : Bool → ℕ → Bool → Bytes → Result MacroError Bool
macro_loop exp skip ends [] = ok ends
macro_loop exp (suc n) ends (c ∷ s) = macro_loop exp n ends s
macro_loop exp zero ends (c ∷ s) =
    if not (c =? b'%')
    then check (leb 0x21 c && leb c 0x7e) (bad_character c) >> macro_loop exp 0 false s
    else (elim s [
      | [] ↦ err dangling_percent
      | d ∷ t ↦
          let escape = macro_loop exp 1 false s in
          let expansion = do
            let (body, after, found) = cut b'}' t
            check found unterminated
            check_body exp body
            macro_loop exp (length body + 2) true s
          in if d =? b'%' || d =? b'_' || d =? b'-'
            then escape
            else if d =? b'{'
            then expansion
            else err (bad_macro d)
    ])

-- `parseMacroString`: whether the text ends with an expansion
unfoldable pub parse_macro_string : Bytes → Bool → Result MacroError Bool
parse_macro_string s exp = macro_loop exp 0 false s

pub data DomainSpecError : Type 0 where
  macro_error : MacroError → DomainSpecError
  not_qualified bad_top_label : Bytes → DomainSpecError

unfoldable pub are_label_bytes : Bytes → Bool
are_label_bytes [] = true
are_label_bytes (c ∷ s) = (is_alpha c || is_digit c || c =? b'-') && are_label_bytes s

unfoldable pub has_alpha : Bytes → Bool
has_alpha [] = false
has_alpha (c ∷ s) = is_alpha c || has_alpha s

-- `validTopLabel`
unfoldable pub is_top_label : Bytes → Bool
is_top_label [] = false
is_top_label (c ∷ s) =
    not (c =? b'-')
    && not (last_byte c s =? b'-')
    && are_label_bytes (c ∷ s)
    && (has_alpha (c ∷ s) || contains_sub (codes "-") (c ∷ s))

-- `validateDomainSpec`
unfoldable pub validate_domain_spec : Bytes → Bool → Result DomainSpecError (Unit {0})
validate_domain_spec ds exp = elim (parse_macro_string ds exp) [
  | err e ↦ err (macro_error e)
  | ok ends_with_macro ↦
      if ends_with_macro then ok tt else (elim (cut_last b'.' (trim_suffix (codes ".") ds)) [
        | none ↦ err (not_qualified ds)
        | some (before, label) ↦ check (is_top_label label) (bad_top_label ds)
      ])
]

-- `HasMacro`
unfoldable pub has_macro : Bytes → Bool
has_macro ds = contains_sub (codes "%{") ds
