-- ===== src/Registry/Consistency.antt =====
-- What `Register` keeps true of the set of checks, and what `Lookup` finds after it.
use seta.Prelude.{
  ◌≡◌, ◌≢◌, refl, Bool, true, false, ◌||◌, List, [], ◌∷◌, none, some, inl, inr, arith,
  if◌then◌else◌, ◌==◌, ==_iff, ==_refl, Bytes, ok, Map, lookup, insert, lookup-insert, has_key,
  IsUnique, insert-IsUnique, any, Option-cases,
}
use seta.Core.Check.{Meta, validate, validate_aliases}
use seta.Registry.{Check, Registry, register, taken, free_aliases, add_aliases, find}

-- No ID is a check's and an alias, every alias leads to a check, and each check is valid and stands
-- under its own ID.
pub record IsConsistent (r : Registry) : Type 0 where
  pub own_id : (id : Bytes) (c : Check) → lookup id r.checks ≡ some c → c.info.id ≡ id
  pub valid : (id : Bytes) (c : Check) → lookup id r.checks ≡ some c → validate c.info ≡ ok tt
  pub current : (a id : Bytes) → lookup a r.aliases ≡ some id → has_key id r.checks ≡ true
  pub apart : (a id : Bytes) → lookup a r.aliases ≡ some id → lookup a r.checks ≡ none
  pub unique : IsUnique r.checks

abbrev pub lists : List Bytes → Bytes → Bool
lists xs j = any (λ a. a == j) xs

lookup-add_aliases :
    (j id : Bytes) (ids : List Bytes) (m : Map Bytes)
    → lookup j (add_aliases id ids m) ≡ (if lists ids j then some id else lookup j m)
unfolding add_aliases
lookup-add_aliases j id [] m = refl
lookup-add_aliases j id (a ∷ rest) m =
    ground (arith, lookup-add_aliases j id rest (insert a id m), lookup-insert a j id m)

free_aliases-taken :
    (r : Registry) (ids : List Bytes) (j : Bytes)
    → free_aliases r ids ≡ ok tt
    → lists ids j ≡ true
    → taken r j ≡ false
unfolding free_aliases
free_aliases-taken r [] j h k = cc
free_aliases-taken r (a ∷ rest) j h k = ground (arith, free_aliases-taken r rest j, ==_iff a j)

validate_aliases-ne :
    (id : Bytes) (ids : List Bytes) → validate_aliases id ids ≡ ok tt → lists ids id ≡ false
unfolding validate_aliases
validate_aliases-ne id [] h = refl
validate_aliases-ne id (a ∷ rest) h = ground (arith, validate_aliases-ne id rest)

validate-aliases : (m : Meta) → validate m ≡ ok tt → lists m.aliases m.id ≡ false
unfolding validate
validate-aliases m h = validate_aliases-ne m.id m.aliases (ground arith)

-- What a successful `Register` has found, and the set that it leaves.
record Registered (r : Registry) (c : Check) (r' : Registry) : Type 0 where
  valid : validate c.info ≡ ok tt
  id_free : taken r c.info.id ≡ false
  aliases_free : free_aliases r c.info.aliases ≡ ok tt
  result : r' ≡ record {
    checks = insert c.info.id c r.checks;
    aliases = add_aliases c.info.id c.info.aliases r.aliases;
  }

register-inv : (r : Registry) (c : Check) {r' : Registry} → register r c ≡ ok r' → Registered r c r'
unfolding register
register-inv r c h = record {
  valid = ground arith;
  id_free = ground arith;
  aliases_free = ground arith;
  result = ground arith;
}

-- An ID that is not taken names nothing.
taken-lookup :
    (r : Registry) (j : Bytes)
    → taken r j ≡ false
    → (lookup j r.checks ≡ none) × (lookup j r.aliases ≡ none)
unfolding taken has_key
taken-lookup r j h = (ground arith, ground arith)

has_key-lookup {ℓ} : {V : Type ℓ} (j : Bytes) (m : Map V) → has_key j m ≡ true → lookup j m ≢ none
unfolding has_key
has_key-lookup j m h e = ground arith

module _ (r : Registry) (c : Check) {r' : Registry} (g : IsConsistent r)
    (done : Registered r c r') where
  lookup-checks :
      (j : Bytes) → lookup j r'.checks ≡ (if c.info.id == j then some c else lookup j r.checks)
  lookup-checks j = rw done.result (lookup-insert c.info.id j c r.checks)

  lookup-aliases :
      (j : Bytes)
      → lookup j r'.aliases
        ≡ (if lists c.info.aliases j then some c.info.id else lookup j r.aliases)
  lookup-aliases j = rw done.result (lookup-add_aliases j c.info.id c.info.aliases r.aliases)

  listed-lookup : (j : Bytes) → lists c.info.aliases j ≡ true → lookup j r.checks ≡ none
  listed-lookup j h =
      (taken-lookup r j (free_aliases-taken r c.info.aliases j done.aliases_free h)).0

  Registered-IsConsistent : IsConsistent r'
  unfolding has_key
  Registered-IsConsistent = record {
    own_id = λ id d h. ground (arith, lookup-checks id, ==_iff c.info.id id, g.own_id id d);
    valid =
        λ id d h. ground (arith, lookup-checks id, ==_iff c.info.id id, g.valid id d, done.valid);
    current = λ a id h.
        ground (arith, lookup-aliases a, lookup-checks id, g.current a id, ==_refl c.info.id);
    apart = λ a id h. ground (
      arith,
      lookup-aliases a,
      lookup-checks a,
      listed-lookup a,
      g.apart a id,
      validate-aliases c.info done.valid,
      ==_iff c.info.id a,
      taken-lookup r c.info.id done.id_free,
    );
    unique = rw done.result (insert-IsUnique c.info.id c r.checks g.unique);
  }

  Registered-find :
      (j : Bytes)
      → find r' j ≡ (if c.info.id == j || lists c.info.aliases j then some c else find r j)
  unfolding find has_key
  Registered-find j = elim (Option-cases (lookup j r.aliases)) [
    | inl not_alias ↦ ground (
      arith,
      lookup-aliases j,
      lookup-checks j,
      lookup-checks c.info.id,
      ==_refl c.info.id,
      validate-aliases c.info done.valid,
      ==_iff c.info.id j,
    )
    | inr (id, is_alias) ↦
        let known = g.current j id is_alias in
        ground (
          arith,
          lookup-aliases j,
          lookup-checks c.info.id,
          lookup-checks id,
          ==_refl c.info.id,
          ==_iff c.info.id j,
          ==_iff c.info.id id,
          taken-lookup r c.info.id done.id_free,
        )
  ]

-- `Register` keeps the set consistent.
pub register-IsConsistent :
    (r : Registry) (c : Check) {r' : Registry}
    → IsConsistent r
    → register r c ≡ ok r'
    → IsConsistent r'
register-IsConsistent r c g h = Registered-IsConsistent r c g (register-inv r c h)

-- After a successful `Register`, the check's ID and each of its former IDs lead to the check, and
-- any other ID leads where it did.
pub find-register :
    (r : Registry) (c : Check) {r' : Registry} (j : Bytes)
    → IsConsistent r
    → register r c ≡ ok r'
    → find r' j ≡ (if c.info.id == j || lists c.info.aliases j then some c else find r j)
find-register r c j g h = Registered-find r c g (register-inv r c h) j
