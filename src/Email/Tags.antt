-- ===== src/Email/Tags.antt =====
-- checks/email/internal/tags/tags.go: tag=value lists. A valid name is ASCII, so that ToLower is that
-- of ASCII.
pub mod Read
pub mod Print
use seta.Prelude.{
  ℕ, Bool, true, false, not, ◌&&◌, ◌||◌, List, [], ◌∷◌, Option, none, some, if◌then◌else◌, ◌=?◌,
  ◌==◌, Bytes, is_upper, is_lower, is_digit, lower_ascii, trim_space, is_empty, split_on, cut, any,
  all, Result, ok, err, ◌>>=◌, ◌>>◌, check,
}

pub record Tag : Type 0 where
  pub name : Bytes
  pub value : Bytes

pub data TagError : Type 0 where
  empty_tag : TagError
  no_equals invalid_name duplicate : Bytes → TagError

unfoldable pub is_alpha : ℕ → Bool
is_alpha c = is_lower c || is_upper c

unfoldable pub is_name_byte : ℕ → Bool
is_name_byte c = is_alpha c || is_digit c || c =? b'_'

-- `validName`
unfoldable pub is_valid_name : Bytes → Bool
is_valid_name [] = false
is_valid_name (c ∷ s) = is_alpha c && all is_name_byte s

-- The body of the loop of `Parse` on a part that is not empty.
unfoldable pub parse_tag : Bool → List Bytes → Bytes → Result TagError Tag
parse_tag fold seen part = do
  let (before, value, found) = cut b'=' part
  check found (no_equals part)
  let spelled = trim_space before
  check (is_valid_name spelled) (invalid_name spelled)
  let name = if fold then lower_ascii spelled else spelled
  check (not (any (λ (s : Bytes). s == name) seen)) (duplicate name)
  ok (record { name = name; value = trim_space value })

-- The loop of `Parse`; the part that may be empty is the last one.
unfoldable pub parse_parts : Bool → List Bytes → List Bytes → Result TagError (List Tag)
parse_parts fold seen [] = ok []
parse_parts fold seen (raw ∷ rest) =
    let part = trim_space raw in
    let more = do
      tag ← parse_tag fold seen part
      tags ← parse_parts fold (tag.name ∷ seen) rest
      ok (tag ∷ tags)
    in if is_empty part then (elim rest [ [] ↦ ok [] | _ ∷ _ ↦ err empty_tag ]) else more

-- `Parse`
unfoldable pub parse_tags : Bool → Bytes → Result TagError (List Tag)
parse_tags fold s = parse_parts fold [] (split_on b';' s)

-- `List.Get`
unfoldable pub get_tag : Bytes → List Tag → Option Bytes
get_tag name [] = none
get_tag name (t ∷ ts) = if t.name == name then some t.value else get_tag name ts
