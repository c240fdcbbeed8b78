-- ===== src/Registry.antt =====
-- internal/registry/registry.go: the set of checks. The lock is left out: each method holds it for
-- the whole of its work, so that methods run one after the other.
pub mod Glob
pub mod Consistency
pub mod Selection
use seta.Prelude.{
  ℕ, ◌≡◌, Bool, true, false, not, ◌&&◌, ◌||◌, List, [], ◌∷◌, ◌++◌, Option, none, some,
  if◌then◌else◌, ◌=?◌, ◌==◌, Bytes, codes, Result, ok, err, ◌>>=◌, ◌>>◌, check, within, is_empty,
  contains_any, cut_prefix, has_prefix, trim_prefix, Map, lookup, insert, keep_keys, values,
  has_key, any, sort_by, compare_bytes, Ordering,
}
use seta.Core.Check.{Meta, MetaError, validate}
use seta.Core.Finding.{Finding}
use seta.Core.Target.{Target}
use seta.Registry.Glob.{match}

-- A check: its metadata, and what its `Run` answers for a target.
pub record Check : Type 0 where
  pub info : Meta
  pub run : Target → Result Bytes (List Finding)

pub record Registry : Type 0 where
  pub checks : Map Check
  -- former ID ↦ current ID
  pub aliases : Map Bytes

abbrev pub empty_registry : Registry
empty_registry = record { checks = []; aliases = [] }

pub data RegistryError : Type 0 where
  invalid_meta : MetaError → RegistryError
  id_taken alias_taken bad_pattern no_match : Bytes → RegistryError

-- `taken`
unfoldable pub taken : Registry → Bytes → Bool
taken r id = has_key id r.checks || has_key id r.aliases

-- The loop of `Register` that tests the aliases.
unfoldable pub free_aliases : Registry → List Bytes → Result RegistryError (Unit {0})
free_aliases r [] = ok tt
free_aliases r (a ∷ rest) =
    let more = free_aliases r rest in if taken r a then err (alias_taken a) else more

-- The loop of `Register` that adds them.
unfoldable pub add_aliases : Bytes → List Bytes → Map Bytes → Map Bytes
add_aliases id [] m = m
add_aliases id (a ∷ rest) m = add_aliases id rest (insert a id m)

-- `Register`
unfoldable pub register : Registry → Check → Result RegistryError Registry
register r c =
    let m = c.info in
    elim (validate m) [
      | err e ↦ err (invalid_meta e)
      | ok _ ↦ if taken r m.id then err (id_taken m.id) else do
        free_aliases r m.aliases
        ok (record {
          checks = insert m.id c r.checks;
          aliases = add_aliases m.id m.aliases r.aliases;
        })
    ]

-- `Lookup`
unfoldable pub find : Registry → Bytes → Option Check
find r id = elim (lookup id r.aliases) [
  | some current ↦ lookup current r.checks
  | none ↦ lookup id r.checks
]

-- `sortByID`
abbrev pub by_id : Check → Check → Ordering
by_id a b = compare_bytes a.info.id b.info.id

unfoldable pub sort_by_id : List Check → List Check
sort_by_id = sort_by by_id

-- `All`
unfoldable pub all_checks : Registry → List Check
all_checks r = sort_by_id (values r.checks)

-- The loop of `validatePattern` over the characters.
unfoldable pub all_pattern_bytes : Bytes → Bool
all_pattern_bytes [] = true
all_pattern_bytes (c ∷ s) =
    (within b'a' b'z' c || within b'0' b'9' c || c =? b'_' || c =? b'.' || c =? b'*' || c =? b'?')
    && all_pattern_bytes s

-- `validatePattern`
unfoldable pub validate_pattern : Bytes → Result RegistryError (Unit {0})
validate_pattern p = check (not (is_empty p) && all_pattern_bytes p) (bad_pattern p)

-- The first loop of `Select`: the patterns to include and to exclude.
unfoldable pub split_patterns : List Bytes → Result RegistryError (List Bytes × List Bytes)
split_patterns [] = ok ([], [])
split_patterns (raw ∷ rest) =
    let p = trim_prefix (codes "!") raw in
    let more = split_patterns rest in
    do
      validate_pattern p
      (include, exclude) ← more
      ok (if has_prefix (codes "!") raw then (include, p ∷ exclude) else (p ∷ include, exclude))

-- `matches`; `Match` always answers
unfoldable pub matches : Registry → Bytes → Bytes → Bool
matches r glob id =
    if not (contains_any (codes "*?") glob)
    then elim (lookup glob r.aliases) [ some current ↦ current == id | none ↦ glob == id ]
    else elim (match glob id) [ some b ↦ b | none ↦ false ]

-- The checks that one pattern adds to those selected.
unfoldable pub include_matches : Registry → Bytes → Map Check → Map Check → Map Check
include_matches r p [] selected = selected
include_matches r p ((id, c) ∷ checks) selected =
    let rest = include_matches r p checks selected in
    if matches r p id then insert id c rest else rest

-- `n != 0`
unfoldable pub matches_some : Registry → Bytes → Map Check → Bool
matches_some r p [] = false
matches_some r p ((id, c) ∷ checks) = matches r p id || matches_some r p checks

unfoldable pub include_all : Registry → List Bytes → Map Check → Result RegistryError (Map Check)
include_all r [] selected = ok selected
include_all r (p ∷ ps) selected =
    let more = include_all r ps (include_matches r p r.checks selected) in
    if matches_some r p r.checks then more else err (no_match p)

unfoldable pub exclude_all : Registry → List Bytes → Map Check → Map Check
exclude_all r [] selected = selected
exclude_all r (p ∷ ps) selected = exclude_all r ps (keep_keys (λ id. not (matches r p id)) selected)

-- What `Select` starts from.
unfoldable pub start : Registry → List Bytes → Map Check
start r [] = r.checks
start r (_ ∷ _) = []

-- `Select`
unfoldable pub select : Registry → List Bytes → Result RegistryError (List Check)
select r patterns = do
  (include, exclude) ← split_patterns patterns
  selected ← include_all r include (start r include)
  ok (sort_by_id (values (exclude_all r exclude selected)))
