-- ===== src/Core/Check.antt =====
-- internal/core/check.go: check metadata and its validation. `Env` is what a check's `Run` is
-- given; a check is its metadata and what `Run` answers for a target.
use seta.Prelude.{
  ℕ, Bool, true, false, not, ◌&&◌, ◌||◌, List, [], ◌∷◌, Option, if◌then◌else◌, ◌=?◌, ◌==◌, Bytes,
  Result, ok, err, ◌>>◌, check, ℤ, pos, negsuc, is_lower, is_digit, is_empty, split_on, cut,
}
use seta.Core.Severity.{Severity, is_valid}

-- `Mode` is an `int` too; `Passive` is 0 and `Active` is 1.
abbrev pub Mode : Type 0
Mode = ℤ

abbrev pub passive : Mode
passive = pos 0

abbrev pub active : Mode
active = pos 1

unfoldable pub is_mode : Mode → Bool
is_mode (negsuc _) = false
is_mode (pos n) = n =? 0 || n =? 1

pub record Meta : Type 0 where
  pub id : Bytes
  pub aliases : List Bytes
  pub group : Bytes
  pub title : Bytes
  pub description : Bytes
  pub remediation : Bytes
  pub mode : Mode
  pub severity : Severity
  -- `none` is Go's nil slice.
  pub references : Option (List Bytes)
  -- in nanoseconds
  pub timeout : ℤ

pub data MetaError : Type 0 where
  invalid_id : Bytes → MetaError
  wrong_module self_alias missing_title invalid_severity invalid_mode : MetaError

-- `[a-z][a-z0-9_]*`
unfoldable pub is_word_byte : ℕ → Bool
is_word_byte c = is_lower c || is_digit c || c =? b'_'

unfoldable pub all_word_bytes : Bytes → Bool
all_word_bytes [] = true
all_word_bytes (c ∷ s) = is_word_byte c && all_word_bytes s

unfoldable pub is_word : Bytes → Bool
is_word [] = false
is_word (c ∷ s) = is_lower c && all_word_bytes s

-- `checkIDPattern`: three words with a dot between them.
unfoldable pub three_words : List Bytes → Bool
three_words (a ∷ b ∷ c ∷ []) = is_word a && is_word b && is_word c
three_words _ = false

-- `ValidateCheckID`
unfoldable pub validate_check_id : Bytes → Result MetaError (Unit {0})
validate_check_id id = check (three_words (split_on b'.' id)) (invalid_id id)

-- The loop of `Validate` over the aliases.
unfoldable pub validate_aliases : Bytes → List Bytes → Result MetaError (Unit {0})
validate_aliases id [] = ok tt
validate_aliases id (a ∷ rest_ids) =
    let rest = validate_aliases id rest_ids in
    validate_check_id a >> (if a == id then err self_alias else rest)

-- `Meta.Validate`
unfoldable pub validate : Meta → Result MetaError (Unit {0})
validate m = do
  validate_check_id m.id
  check (m.group == (cut b'.' m.id).0) wrong_module
  validate_aliases m.id m.aliases
  check (not (is_empty m.title)) missing_title
  check (is_valid m.severity) invalid_severity
  check (is_mode m.mode) invalid_mode
