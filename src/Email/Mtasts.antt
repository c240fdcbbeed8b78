-- ===== src/Email/Mtasts.antt =====
-- checks/email/internal/mtasts/mtasts.go: MTA-STS records and policies.
pub mod Matching
pub mod Policies
use seta.Prelude.{
  ℕ, suc, ◌+◌, Bool, true, false, not, ◌&&◌, ◌||◌, List, [], ◌∷◌, ◌++◌, Option, none, some,
  if◌then◌else◌, leb, ltb, ◌=?◌, ◌==◌, length, Bytes, codes, is_upper, is_lower, is_digit, has_byte,
  last_byte, trim_space, trim_suffix, trim_prefix, cut_prefix, is_empty, split_on, cut, any, all,
  atoi, ℤ, pos, negsuc, Result, ok, err, ◌>>=◌, ◌>>◌, check,
}
use seta.Core.Target.{Unicode, to_lower}
use seta.Email.Tags.{Tag, TagError, parse_tags, get_tag, is_alpha}

-- `IsTXT`
unfoldable pub is_txt : Bytes → Bool
is_txt txt =
    let (name, value, found) = cut b'=' (cut b';' txt).0 in
    found && trim_space name == codes "v" && trim_space value == codes "STSv1"

unfoldable pub is_alnum : ℕ → Bool
is_alnum c = is_alpha c || is_digit c

pub data TxtError : Type 0 where
  bad_tags : TagError → TxtError
  no_version missing_id bad_id : TxtError

-- `len(list) == 0 || list[0]…`, negated
unfoldable pub starts_with_version : List Tag → Bool
starts_with_version [] = false
starts_with_version (t ∷ ts) = t.name == codes "v" && t.value == codes "STSv1"

-- `ParseTXT`; a rune that is not ASCII has bytes that `alnum` refuses as well.
unfoldable pub parse_txt : Bytes → Result TxtError Bytes
parse_txt txt = elim (parse_tags false txt) [
  | err e ↦ err (bad_tags e)
  | ok list ↦ do
    check (starts_with_version list) no_version
    elim (get_tag (codes "id") list) [
      | none ↦ err missing_id
      | some id ↦ do
        check (leb 1 (length id) && leb (length id) 32 && all is_alnum id) bad_id
        ok id
    ]
]

pub record Policy : Type 0 where
  pub mode : Bytes
  pub max_age : ℕ
  pub mx : List Bytes

pub data PolicyError : Type 0 where
  not_field duplicate missing bad_version bad_mode bad_max_age bad_mx : Bytes → PolicyError
  missing_mx : PolicyError

-- The test of a label in `validPattern`.
unfoldable pub is_label : Bytes → Bool
is_label [] = false
is_label (c ∷ s) =
    not (c =? b'-')
    && not (last_byte c s =? b'-')
    && all (λ b. is_alnum b || b =? b'-' || b =? b'_') (c ∷ s)

-- `validPattern`
unfoldable pub is_pattern : Bytes → Bool
is_pattern p =
    let stem = trim_prefix (codes "*.") (trim_suffix (codes ".") p) in
    has_byte b'.' stem && all is_label (split_on b'.' stem)

-- `strings.TrimRight(line, "\r")`
unfoldable pub trim_returns : Bytes → Bytes
trim_returns [] = []
trim_returns (c ∷ s) =
    let rest = trim_returns s in if is_empty rest && c =? 13 then [] else c ∷ rest

abbrev pub max_max_age : ℕ
max_max_age = 31557600

unfoldable pub is_mode : Bytes → Bool
is_mode v = v == codes "enforce" || v == codes "testing" || v == codes "none"

unfoldable pub parse_max_age : Bytes → Option ℕ
parse_max_age v = elim (atoi v) [
  | some (pos n) ↦ if leb n max_max_age && leb (length v) 10 then some n else none
  | _ ↦ none
]

abbrev pub is_empty_list : List Bytes → Bool
is_empty_list [] = true
is_empty_list (_ ∷ _) = false

module _ (u : Unicode) where
  -- The `switch` of `ParsePolicy`.
  unfoldable pub set_field : Bytes → Bytes → Policy → Result PolicyError Policy
  set_field key value p =
      if key == codes "version"
      then check (value == codes "STSv1") (bad_version value) >> ok p
      else if key == codes "mode"
      then check (is_mode value) (bad_mode value) >> ok (record p { mode = value })
      else if key == codes "max_age"
      then (elim (parse_max_age value) [
        | none ↦ err (bad_max_age value)
        | some n ↦ ok (record p { max_age = n })
      ])
      else if key == codes "mx"
      then check (is_pattern value) (bad_mx value)
        >> ok (record p { mx = p.mx ++ (to_lower u (trim_suffix (codes ".") value) ∷ []) })
      else ok p

  -- The loop of `ParsePolicy`: the keys that were seen, and the policy.
  unfoldable pub parse_lines :
      List Bytes → List Bytes → Policy → Result PolicyError (List Bytes × Policy)
  parse_lines [] seen p = ok (seen, p)
  parse_lines (raw ∷ lines) seen p = elim (is_empty (trim_space (trim_returns raw))) [
    | true ↦ parse_lines lines seen p
    | false ↦ do
      let (before, after, found) = cut b':' (trim_returns raw)
      check found (not_field (trim_returns raw))
      let key = trim_space before
      check (key == codes "mx" || not (any (λ (s : Bytes). s == key) seen)) (duplicate key)
      p' ← set_field key (trim_space after) p
      parse_lines lines (key ∷ seen) p'
  ]

  -- The loop over the fields that are required.
  unfoldable pub check_required : List Bytes → List Bytes → Result PolicyError (Unit {0})
  check_required [] seen = ok tt
  check_required (f ∷ fs) seen =
      check (any (λ (s : Bytes). s == f) seen) (missing f) >> check_required fs seen

  -- `ParsePolicy`
  unfoldable pub parse_policy : Bytes → Result PolicyError Policy
  parse_policy body = do
    out ← parse_lines (split_on 10 body) [] (record { mode = []; max_age = 0; mx = [] })
    check_required (codes "version" ∷ codes "mode" ∷ codes "max_age" ∷ []) out.0
    check (out.1.mode == codes "none" || not (is_empty_list out.1.mx)) missing_mx
    ok out.1

  -- `strings.ToLower(strings.TrimSuffix(host, "."))`
  unfoldable pub host_name : Bytes → Bytes
  host_name host = to_lower u (trim_suffix (codes ".") host)

  -- `Match`
  unfoldable pub matches_mx : Bytes → Bytes → Bool
  matches_mx pattern host = elim (cut_prefix (codes "*.") pattern) [
    | some suffix ↦
        let (label, rest, found) = cut b'.' (host_name host) in
        found && not (is_empty label) && rest == suffix
    | none ↦ host_name host == pattern
  ]
