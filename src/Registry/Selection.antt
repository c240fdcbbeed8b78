-- ===== src/Registry/Selection.antt =====
-- Which checks `Select` returns.
use seta.Prelude.{
  ◌≡◌, ◌↔◌, All, refl, Bool, true, not, ◌&&◌, List, [], ◌∷◌, Option, none, some, inl, inr, arith,
  if◌then◌else◌, ==_iff, Bytes, ok, bind-eq-ok, Map, lookup, lookup-insert, IsUnique,
  insert-IsUnique, keep_keys-IsUnique, subst, keep_keys, lookup-keep_keys, values, any, Bool-cases,
  IsSortedBy, sort_by-IsSortedBy, on-IsCompare, compare_bytes-IsCompare, sort_by-perm,
}
use mathlib.Core.List.{Perm}
use seta.Registry.{
  Check, Registry, matches, matches_some, include_matches, include_all, exclude_all, start, select,
  split_patterns, sort_by_id, by_id,
}

module _ (r : Registry) where
  lookup-include_matches :
      (p j : Bytes) (checks selected : Map Check)
      → lookup j (include_matches r p checks selected) ≡ (
          if matches r p j
          then (elim (lookup j checks) [ some c ↦ some c | none ↦ lookup j selected ])
          else lookup j selected)
  unfolding include_matches lookup
  lookup-include_matches p j [] selected = ground arith
  lookup-include_matches p j ((id, c) ∷ checks) selected = ground (
    arith,
    ==_iff id j,
    lookup-include_matches p j checks selected,
    lookup-insert id j c (include_matches r p checks selected),
  )

  -- A check is included by one of the patterns, or was there before.
  abbrev included : List Bytes → Bytes → Map Check → Option Check
  included ps j selected =
      if any (λ p. matches r p j) ps
      then (elim (lookup j r.checks) [ some c ↦ some c | none ↦ lookup j selected ])
      else lookup j selected

  lookup-include_all :
      (ps : List Bytes) (selected : Map Check) {out : Map Check} (j : Bytes)
      → include_all r ps selected ≡ ok out
      → lookup j out ≡ included ps j selected
  unfolding include_all
  lookup-include_all [] selected j h = ground arith
  lookup-include_all (p ∷ ps) selected {out} j h = ground (
    arith,
    lookup-include_all ps (include_matches r p r.checks selected) {out = out} j,
    lookup-include_matches p j r.checks selected,
  )

  lookup-exclude_all :
      (ps : List Bytes) (selected : Map Check) (j : Bytes)
      → lookup j (exclude_all r ps selected)
        ≡ (if any (λ p. matches r p j) ps then none else lookup j selected)
  unfolding exclude_all
  lookup-exclude_all [] selected j = refl
  lookup-exclude_all (p ∷ ps) selected j = ground (
    arith,
    lookup-exclude_all ps (keep_keys (λ id. not (matches r p id)) selected) j,
    lookup-keep_keys (λ id. not (matches r p id)) j selected,
  )

  -- What inclusions start from: everything where there is none.
  abbrev pub wanted_by : List Bytes → Bytes → Bool
  wanted_by [] j = true
  wanted_by (p ∷ ps) j = any (λ q. matches r q j) (p ∷ ps)

  abbrev pub wanted : List Bytes → List Bytes → Bytes → Bool
  wanted include exclude j = wanted_by include j && not (any (λ p. matches r p j) exclude)

  pub record Selects (include exclude : List Bytes) (cs : List Check) : Type 0 where
    pub chosen : Map Check
    pub result : Perm cs (values chosen)
    pub unique : IsUnique chosen
    pub sorted : IsSortedBy by_id cs
    pub exactly :
        (j : Bytes)
        → lookup j chosen ≡ (if wanted include exclude j then lookup j r.checks else none)

  lookup-included :
      (include : List Bytes) {out : Map Check} (j : Bytes)
      → include_all r include (start r include) ≡ ok out
      → lookup j out ≡ (if wanted_by include j then lookup j r.checks else none)
  unfolding start lookup
  lookup-included [] {out} j h = lookup-include_all [] r.checks {out = out} j h
  lookup-included (p ∷ ps) {out} j h =
      ground (arith, lookup-include_all (p ∷ ps) [] {out = out} j h)

  include_matches-IsUnique :
      (p : Bytes) (checks selected : Map Check)
      → IsUnique selected
      → IsUnique (include_matches r p checks selected)
  unfolding include_matches
  include_matches-IsUnique p [] selected u = u
  include_matches-IsUnique p ((id, c) ∷ checks) selected u =
      let rest = include_matches-IsUnique p checks selected u in
      elim (Bool-cases (matches r p id)) [
        | inl hit ↦ rw hit (insert-IsUnique id c _ rest)
        | inr miss ↦ rw miss rest
      ]

  include_all-IsUnique :
      (ps : List Bytes) (selected : Map Check) {out : Map Check}
      → IsUnique selected
      → include_all r ps selected ≡ ok out
      → IsUnique out
  unfolding include_all
  include_all-IsUnique [] selected u h = let e : selected ≡ _ = cc in subst IsUnique e u
  include_all-IsUnique (p ∷ ps) selected u h =
      include_all-IsUnique ps (include_matches r p r.checks selected)
        (include_matches-IsUnique p r.checks selected u) (ground arith)

  exclude_all-IsUnique :
      (ps : List Bytes) (selected : Map Check)
      → IsUnique selected
      → IsUnique (exclude_all r ps selected)
  unfolding exclude_all
  exclude_all-IsUnique [] selected u = u
  exclude_all-IsUnique (p ∷ ps) selected u =
      exclude_all-IsUnique ps _ (keep_keys-IsUnique (λ id. not (matches r p id)) selected u)

  start-IsUnique : (include : List Bytes) → IsUnique r.checks → IsUnique (start r include)
  unfolding start
  start-IsUnique [] u = u
  start-IsUnique (p ∷ ps) u = tt

  -- A selection that succeeds returns the checks of the set that some inclusion matches, or all
  -- where there is none, less those that some exclusion matches, sorted by ID.
  pub select-Selects :
      (patterns : List Bytes) {cs : List Check}
      → IsUnique r.checks
      → select r patterns ≡ ok cs
      → (include : List Bytes) × (exclude : List Bytes) × (split_patterns patterns
          ≡ ok (include, exclude))
        × Selects include exclude cs
  unfolding select sort_by_id
  select-Selects patterns {cs} u h =
      let (parts, split, h₁) = bind-eq-ok (split_patterns patterns) _ h in
      let (out, picked, h₂) = bind-eq-ok (include_all r parts.0 (start r parts.0)) _ h₁ in
      let chosen = exclude_all r parts.1 out in
      let e : sort_by_id (values chosen) ≡ cs = cc in
      (
        parts.0,
        parts.1,
        split,
        record {
          chosen = chosen;
          result = rw (← e) (sort_by-perm by_id (values chosen));
          unique =
              exclude_all-IsUnique parts.1 out
                (include_all-IsUnique parts.0 (start r parts.0) (start-IsUnique parts.0 u) picked);
          sorted = rw (← e) (
              sort_by-IsSortedBy (on-IsCompare (λ (c : Check). c.info.id) compare_bytes-IsCompare)
                (values chosen));
          exactly = λ j. ground (
            arith,
            lookup-exclude_all parts.1 out j,
            lookup-included parts.0 {out = out} j picked,
          );
        },
      )

  include_all_total :
      (ps : List Bytes) (selected : Map Check)
      → All (λ p. matches_some r p r.checks ≡ true) ps
      → (out : Map Check) × (include_all r ps selected ≡ ok out)
  unfolding include_all
  include_all_total [] selected h = (selected, refl)
  include_all_total (p ∷ ps) selected h =
      let (out, e) = include_all_total ps (include_matches r p r.checks selected) h.1 in
      (out, ground arith)

  include_all_typo :
      (ps : List Bytes) (selected : Map Check)
      → (out : Map Check) × (include_all r ps selected ≡ ok out)
      → All (λ p. matches_some r p r.checks ≡ true) ps
  unfolding include_all
  include_all_typo [] selected h = tt
  include_all_typo (p ∷ ps) selected (out, h) = (
    ground arith,
    include_all_typo ps (include_matches r p r.checks selected) (out, ground arith),
  )

  -- Where the patterns are well-formed, the selection succeeds exactly if every inclusion matches
  -- a check of the set: a typo never disables checks silently.
  pub select_ok_iff :
      (patterns include exclude : List Bytes)
      → split_patterns patterns ≡ ok (include, exclude)
      → ((cs : List Check) × (select r patterns ≡ ok cs))
        ↔ All (λ p. matches_some r p r.checks ≡ true) include
  unfolding select
  select_ok_iff patterns include exclude split = (
    λ (cs, h).
        let (out, picked, _) =
          bind-eq-ok (include_all r include (start r include)) _ (rw split at h) in
        include_all_typo include (start r include) (out, picked),
    λ h.
        let (out, picked) = include_all_total include (start r include) h in
        (sort_by_id (values (exclude_all r exclude out)), rw (split, picked) refl),
  )
