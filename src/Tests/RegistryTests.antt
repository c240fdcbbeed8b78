-- ===== src/Tests/RegistryTests.antt =====
-- Tests and instances for internal/registry.
use seta.Prelude.{
  ◌≡◌, ◌↔◌, refl, true, false, ◌||◌, List, [], ◌∷◌, some, Bytes, codes, ok, arith, ◌==◌,
  if◌then◌else◌, All, lookup, insert, has_key, is_empty, split_on, cut, is_lower, is_digit,
  trim_prefix, has_prefix, contains_any, sort_by, keep_keys,
}
use seta.Core.Severity.{is_valid}
use seta.Core.Check.{
  validate, validate_check_id, validate_aliases, three_words, is_word, all_word_bytes, is_word_byte,
  is_mode,
}
use seta.Registry.{
  Registry, empty_registry, register, taken, free_aliases, add_aliases, find, split_patterns,
  validate_pattern, all_pattern_bytes, select, matches, matches_some, include_all, include_matches,
  exclude_all, start, sort_by_id,
}
use seta.Registry.Glob.{match, match_loop, accepts, only_stars}
use seta.Registry.Glob.Decides.{glob_means, match-glob_means}
use seta.Registry.Consistency.{IsConsistent, register-IsConsistent, find-register, lists}
use seta.Registry.Selection.{Selects, select-Selects, select_ok_iff}
use seta.Tests.Samples.{spf_check}

backtracks : match (codes "*b?d") (codes "abcabed") ≡ some true
unfolding match match_loop accepts only_stars
backtracks = refl

-- An ID that holds a star is not matched by "*": the byte is taken for itself first.
star_in_id : match (codes "*") (codes "**") ≡ some false
unfolding match match_loop accepts only_stars
star_in_id = refl

match-glob_means_example :
    match (codes "email.*") (codes "email.spf")
    ≡ some (glob_means (codes "email.*") (codes "email.spf"))
match-glob_means_example = match-glob_means (codes "email.*") (codes "email.spf") (omega arith)

abbrev one_check : Registry
one_check = record {
  checks = (codes "email.spf.missing", spf_check) ∷ [];
  aliases = (codes "email.spf.none", codes "email.spf.missing") ∷ [];
}

registered : register empty_registry spf_check ≡ ok one_check
unfolding register validate validate_check_id validate_aliases three_words is_word all_word_bytes
    is_word_byte is_mode is_valid taken free_aliases add_aliases insert has_key lookup split_on cut
    is_empty is_lower is_digit ◌==◌
registered = refl

empty-IsConsistent : IsConsistent empty_registry
unfolding lookup
empty-IsConsistent = record {
  own_id = λ id c h. absurd (cc h);
  valid = λ id c h. absurd (cc h);
  current = λ a id h. absurd (cc h);
  apart = λ a id h. refl;
  unique = tt;
}

register-IsConsistent_example : IsConsistent one_check
register-IsConsistent_example =
    register-IsConsistent empty_registry spf_check empty-IsConsistent registered

find-register_example : find one_check (codes "x") ≡ (
    if codes "email.spf.missing" == codes "x" || lists (codes "email.spf.none" ∷ []) (codes "x")
    then some spf_check
    else find empty_registry (codes "x"))
find-register_example =
    find-register empty_registry spf_check (codes "x") empty-IsConsistent registered

abbrev patterns : List Bytes
patterns = codes "email.*" ∷ codes "!email.dns*" ∷ []

selected : select one_check patterns ≡ ok (spf_check ∷ [])
unfolding select split_patterns validate_pattern all_pattern_bytes matches matches_some include_all
    include_matches exclude_all start sort_by_id trim_prefix has_prefix contains_any is_empty
    keep_keys insert lookup sort_by match match_loop accepts only_stars
selected = refl

select-Selects_example :
    (include : List Bytes) × (exclude : List Bytes) × (split_patterns patterns
      ≡ ok (include, exclude))
    × Selects one_check include exclude (spf_check ∷ [])
select-Selects_example =
    select-Selects one_check patterns register-IsConsistent_example.unique selected

split : split_patterns patterns ≡ ok (codes "email.*" ∷ [], codes "email.dns*" ∷ [])
unfolding split_patterns validate_pattern all_pattern_bytes trim_prefix has_prefix is_empty
split = refl

select_ok_iff_example :
    ((cs : List _) × (select one_check patterns ≡ ok cs))
    ↔ All (λ p. matches_some one_check p one_check.checks ≡ true) (codes "email.*" ∷ [])
select_ok_iff_example =
    select_ok_iff one_check patterns (codes "email.*" ∷ []) (codes "email.dns*" ∷ []) split
