-- ===== src/Prelude/Maps.antt =====
-- Go maps with string keys, as association lists. Where the code ranges over a map the order is
-- that of the list.
use mathlib.Core.Path.{◌≡◌, refl, subst}
use mathlib.Core.Bool.{Bool, true, false}
use mathlib.Core.Option.{Option, none, some}
use mathlib.Core.List.{List, [], ◌∷◌}
use native.Mathlib.Omega.{arith}
use seta.Prelude.Tests.{if◌then◌else◌, Bool-cases}
use mathlib.Core.Logic.{inl, inr}
use seta.Prelude.Lists.{All}
use seta.Prelude.Text.{Bytes}
use seta.Prelude.Equality.{◌==◌, ==_iff}

abbrev pub Map {ℓ} : Type ℓ → Type ℓ
Map V = List (Bytes × V)

module _ {ℓ} {V : Type ℓ} where
  unfoldable pub lookup : Bytes → Map V → Option V
  lookup key [] = none
  lookup key ((first, value) ∷ rest) = if first == key then some value else lookup key rest

  -- `m[k] = v`
  unfoldable pub insert : Bytes → V → Map V → Map V
  insert key new [] = (key, new) ∷ []
  insert key new ((first, value) ∷ rest) =
      if first == key then (key, new) ∷ rest else (first, value) ∷ insert key new rest

  -- The entries whose keys pass a test; `delete` of several keys.
  unfoldable pub keep_keys : (Bytes → Bool) → Map V → Map V
  keep_keys p [] = []
  keep_keys p ((j, v) ∷ m) = let rest = keep_keys p m in if p j then (j, v) ∷ rest else rest

  abbrev pub values : Map V → List V
  values [] = []
  values ((k, v) ∷ m) = v ∷ values m

  -- A key is found after a write as it was before, but for the key that is written.
  pub lookup-insert :
      (written key : Bytes) (new : V) (entries : Map V)
      → lookup key (insert written new entries)
        ≡ (if written == key then some new else lookup key entries)
  unfolding insert lookup
  lookup-insert written key new ((first, value) ∷ rest) = ground (
    arith,
    lookup-insert written key new rest,
    ==_iff first written,
    ==_iff first key,
    ==_iff written key,
  )
  lookup-insert written key new [] = refl

  pub lookup-keep_keys :
      (p : Bytes → Bool) (j : Bytes) (m : Map V)
      → lookup j (keep_keys p m) ≡ (if p j then lookup j m else none)
  unfolding lookup keep_keys
  lookup-keep_keys p j [] = ground arith
  lookup-keep_keys p j ((i, w) ∷ m) = ground (arith, ==_iff i j, lookup-keep_keys p j m)

-- Each key stands once.
module _ {ℓ} {V : Type ℓ} where
  abbrev pub IsUnique : Map V → Type ℓ
  IsUnique [] = Unit
  IsUnique ((k, v) ∷ m) = (lookup k m ≡ none) × IsUnique m

  pub insert-IsUnique : (k : Bytes) (v : V) (m : Map V) → IsUnique m → IsUnique (insert k v m)
  unfolding insert lookup
  insert-IsUnique k v [] u = (refl, tt)
  insert-IsUnique k v ((j, w) ∷ m) u = elim (Bool-cases (j == k)) [
    | inl same ↦ rw same (ground (arith, ==_iff j k), u.1)
    | inr other ↦
        rw other
          (ground (arith, lookup-insert k j v m, ==_iff j k, ==_iff k j), insert-IsUnique k v m u.1)
  ]

  pub keep_keys-IsUnique : (p : Bytes → Bool) (m : Map V) → IsUnique m → IsUnique (keep_keys p m)
  unfolding keep_keys
  keep_keys-IsUnique p [] u = tt
  keep_keys-IsUnique p ((j, v) ∷ m) u = elim (Bool-cases (p j)) [
    | inl kept ↦ rw kept (ground (arith, lookup-keep_keys p j m), keep_keys-IsUnique p m u.1)
    | inr dropped ↦ rw dropped (keep_keys-IsUnique p m u.1)
  ]

-- A predicate of the entries.
module _ {ℓ κ} {V : Type ℓ} (P : Bytes × V → Type κ) where
  pub All-insert : (k : Bytes) (v : V) (m : Map V) → P (k, v) → All P m → All P (insert k v m)
  unfolding insert
  All-insert k v [] p h = (p, tt)
  All-insert k v ((j, w) ∷ m) p h = elim (Bool-cases (j == k)) [
    | inl same ↦ rw same (p, h.1)
    | inr other ↦ rw other (h.0, All-insert k v m p h.1)
  ]

  pub All-lookup : (k : Bytes) (v : V) (m : Map V) → All P m → lookup k m ≡ some v → P (k, v)
  unfolding lookup
  All-lookup k v [] h e = absurd (cc e)
  All-lookup k v ((j, w) ∷ m) h e = elim (Bool-cases (j == k)) [
    | inl same ↦
        let value : w ≡ v = ground (arith, e) in
        subst (λ (x : Bytes). P (x, v)) ((==_iff j k).0 same)
          (subst (λ (x : V). P (j, x)) value h.0)
    | inr other ↦ All-lookup k v m h.1 (ground (arith, e))
  ]

  pub All-of_lookup :
      (m : Map V) → IsUnique m → ((k : Bytes) (v : V) → lookup k m ≡ some v → P (k, v)) → All P m
  unfolding lookup
  All-of_lookup [] u f = tt
  All-of_lookup ((j, w) ∷ m) u f = (
    f j w (ground (arith, ==_iff j j)),
    All-of_lookup m u.1 (λ k v e. f k v (elim (Bool-cases (j == k)) [
      | inl same ↦ ground (arith, u.0, e, (==_iff j k).0 same)
      | inr other ↦ ground (arith, e)
    ])),
  )

unfoldable pub has_key {ℓ} : {V : Type ℓ} → Bytes → Map V → Bool
has_key k m = elim (lookup k m) [ none ↦ false | some _ ↦ true ]
