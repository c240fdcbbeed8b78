-- ===== src/Core/Target.antt =====
-- internal/core/target.go. The Unicode case table of `strings.ToLower` and the IDNA conversion of
-- golang.org/x/net/idna, which serve only names with a byte that is not ASCII, are parameters.
pub mod Canonical
use seta.Prelude.{
  ℕ, ◌+◌, ◌≤◌, ◌≡◌, Bool, true, false, not, ◌&&◌, ◌||◌, List, [], ◌∷◌, ◌++◌, Option, none, some,
  if◌then◌else◌, leb, ltb, ◌=?◌, ◌==◌, length, Bytes, codes, Result, ok, err, ◌>>=◌, ◌>>◌, check,
  within, trim_space, is_empty, contains_sub, contains_any, trim_suffix, lower_ascii, is_ascii,
  split_on, last_byte, cut_last, cut, has_byte, atoi, ℤ, pos, negsuc,
}
use seta.Core.Severity.{decimal}

pub record Host : Type 0 where
  pub name : Bytes
  pub port : ℕ
  pub explicit : Bool

pub record EmailOptions : Type 0 where
  pub dkim_selectors : List Bytes
  pub selectors_guessed : Bool
  pub expected_mx : List Bytes
  pub dnsbls : List Bytes
  pub spamhaus_dqs_key : Bytes

pub record Target : Type 0 where
  pub kind : Bytes
  pub name : Bytes
  pub email : EmailOptions
  pub plugins : List (Bytes × Bytes)
  -- `none` is Go's nil slice.
  pub hosts : Option (List Host)
  pub urls : List Bytes

abbrev pub no_email_options : EmailOptions
no_email_options = record {
  dkim_selectors = [];
  selectors_guessed = false;
  expected_mx = [];
  dnsbls = [];
  spamhaus_dqs_key = [];
}

-- `Target{Kind: KindDomain, Name: name}`
abbrev pub domain_target : Bytes → Target
domain_target name = record {
  kind = codes "domain";
  name = name;
  email = no_email_options;
  plugins = [];
  hosts = none;
  urls = [];
}

pub data LabelError : Type 0 where
  empty_label long_label edge_hyphen invalid_character : LabelError

pub data DomainError : Type 0 where
  empty_name not_a_domain not_ascii long_name not_qualified : DomainError
  bad_label : Bytes → LabelError → DomainError
  bad_port : DomainError

unfoldable pub is_label_byte : ℕ → Bool
is_label_byte c = within b'a' b'z' c || within b'0' b'9' c || c =? b'-' || c =? b'_'

-- The loop of `validLabel` over the characters.
unfoldable pub all_label_bytes : Bytes → Bool
all_label_bytes [] = true
all_label_bytes (c ∷ s) = is_label_byte c && all_label_bytes s

-- `validLabel`
unfoldable pub valid_label : Bytes → Result LabelError (Unit {0})
valid_label [] = err empty_label
valid_label (c ∷ s) =
    if ltb 63 (length (c ∷ s))
    then err long_label
    else if c =? b'-' || last_byte c s =? b'-'
    then err edge_hyphen
    else if all_label_bytes (c ∷ s)
    then ok tt
    else err invalid_character

-- The loop of `ParseDomain` over the labels.
unfoldable pub check_labels : List Bytes → Result DomainError (Unit {0})
check_labels [] = ok tt
check_labels (l ∷ ls) =
    let rest = check_labels ls in elim (valid_label l) [ ok _ ↦ rest | err e ↦ err (bad_label l e) ]

-- The checks of `ParseDomain` from the length on.
unfoldable pub check_name : Bytes → Result DomainError (Unit {0})
check_name name =
    let labels = split_on b'.' name in
    if ltb 253 (length name)
    then err long_name
    else if ltb (length labels) 2
    then err not_qualified
    else check_labels labels

pub record Unicode : Type 0 where
  -- `strings.ToLower` on text that is not all ASCII
  pub to_lower : Bytes → Bytes
  -- `idnaProfile.ToASCII`, `none` for its errors
  pub to_ascii : Bytes → Option Bytes

-- `strings.ToLower`
unfoldable pub to_lower : Unicode → Bytes → Bytes
to_lower u s = if is_ascii s then lower_ascii s else u.to_lower s

-- The conversion of `ParseDomain` for a name that is not ASCII.
unfoldable pub ascii_name : Unicode → Bytes → Result DomainError Bytes
ascii_name u name =
    if is_ascii name
    then ok name
    else elim (u.to_ascii name) [ none ↦ err not_ascii | some n ↦ ok n ]

-- `ParseDomain`
unfoldable pub parse_domain : Unicode → Bytes → Result DomainError Target
parse_domain u s =
    let raw = trim_space s in
    if is_empty raw
    then err empty_name
    else if contains_sub (codes "://") raw || contains_any (codes "/:@ ") raw
    then err not_a_domain
    else do
      name ← ascii_name u (to_lower u (trim_suffix (codes ".") raw))
      check_name name
      ok (domain_target name)

-- `net.SplitHostPort`, with its errors as `none`
unfoldable pub split_host_port : Bytes → Option (Bytes × Bytes)
split_host_port [] = none
split_host_port (c ∷ t) =
    let (inner, after, found) = cut b']' t in
    if c =? b'['
    then (if not found || has_byte b'[' t || has_byte b']' after
        then none
        else elim (cut_last b':' after) [ some ([], port) ↦ some (inner, port) | _ ↦ none ])
    else elim (cut_last b':' (c ∷ t)) [
      | none ↦ none
      | some (host, port) ↦
          if has_byte b':' host || has_byte b'[' (c ∷ t) || has_byte b']' (c ∷ t)
          then none
          else some (host, port)
    ]

-- The port of `ParseHost`: an integer from 1 to 65535.
unfoldable pub parse_port : Bytes → Option ℕ
parse_port p = elim (atoi p) [
  | none ↦ none
  | some (negsuc _) ↦ none
  | some (pos n) ↦ if ltb n 1 || ltb 65535 n then none else some n
]

abbrev host_of : Unicode → Bytes → ℕ → Result DomainError Host
host_of u name port = do
  d ← parse_domain u name
  ok (record { name = d.name; port = port; explicit = true })

-- `ParseHost`
unfoldable pub parse_host : Unicode → Bytes → Result DomainError Host
parse_host u s = elim (split_host_port s) [
  | none ↦ host_of u s 443
  | some (h, p) ↦ elim (parse_port p) [ none ↦ err bad_port | some n ↦ host_of u h n ]
]

-- `Target.WebHosts`
unfoldable pub web_hosts : Target → List Host
web_hosts t = elim t.hosts [
  | some hs ↦ hs
  | none ↦
      record { name = t.name; port = 443; explicit = false }
      ∷ record { name = codes "www." ++ t.name; port = 443; explicit = false }
      ∷ []
]
