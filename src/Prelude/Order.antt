-- ===== src/Prelude/Order.antt =====
-- Three-way comparisons in the manner of Go's `cmp` package, their laws, and `cmp.Or` of several.
use Prim.Native.Nat.{ℕ, Ordering, compare}
use mathlib.Core.Path.{◌≡◌, refl}
use mathlib.Core.List.{List, [], ◌∷◌}
use native.Mathlib.Omega.{arith}

abbrev pub flip : Ordering → Ordering
flip Ordering.lt = Ordering.gt
flip Ordering.eq = Ordering.eq
flip Ordering.gt = Ordering.lt

-- `cmp.Or` of two comparison results: the first that is not zero.
infixr 30 ◌<>◌
abbrev pub ◌<>◌ : Ordering → Ordering → Ordering
Ordering.lt <> q = Ordering.lt
Ordering.eq <> q = q
Ordering.gt <> q = Ordering.gt

-- A comparison that orders its type, up to what it cannot tell apart.
pub record IsCompare {ℓ} {A : Type ℓ} (cmp : A → A → Ordering) : Type ℓ where
  pub swap : (a b : A) → cmp b a ≡ flip (cmp a b)
  pub eq_left : (a b c : A) → cmp a b ≡ Ordering.eq → cmp a c ≡ cmp b c
  pub lt_trans : (a b c : A) → cmp a b ≡ Ordering.lt → cmp b c ≡ Ordering.lt → cmp a c ≡ Ordering.lt

pub compare-IsCompare : IsCompare compare
compare-IsCompare = record {
  swap = λ a b. ground arith;
  eq_left = λ a b c h. ground arith;
  lt_trans = λ a b c h k. ground arith;
}

-- `strings.Compare`: bytewise, a prefix first.
unfoldable pub compare_bytes : List ℕ → List ℕ → Ordering
compare_bytes [] [] = Ordering.eq
compare_bytes [] (y ∷ ys) = Ordering.lt
compare_bytes (x ∷ xs) [] = Ordering.gt
compare_bytes (x ∷ xs) (y ∷ ys) = compare x y <> compare_bytes xs ys

compare_bytes-swap : (a b : List ℕ) → compare_bytes b a ≡ flip (compare_bytes a b)
unfolding compare_bytes
compare_bytes-swap [] [] = refl
compare_bytes-swap [] (y ∷ b) = refl
compare_bytes-swap (x ∷ a) [] = refl
compare_bytes-swap (x ∷ a) (y ∷ b) = ground (arith, compare_bytes-swap a b)

-- Strings that compare as equal are equal.
pub eq_of_compare_bytes : (a b : List ℕ) → compare_bytes a b ≡ Ordering.eq → a ≡ b
unfolding compare_bytes
eq_of_compare_bytes [] [] h = refl
eq_of_compare_bytes [] (y ∷ b) h = ground arith
eq_of_compare_bytes (x ∷ a) [] h = ground arith
eq_of_compare_bytes (x ∷ a) (y ∷ b) h = ground (arith, eq_of_compare_bytes a b)

pub compare_bytes_refl : (a : List ℕ) → compare_bytes a a ≡ Ordering.eq
unfolding compare_bytes
compare_bytes_refl [] = refl
compare_bytes_refl (x ∷ a) = ground (arith, compare_bytes_refl a)

compare_bytes-lt_trans :
    (a b c : List ℕ)
    → compare_bytes a b ≡ Ordering.lt
    → compare_bytes b c ≡ Ordering.lt
    → compare_bytes a c ≡ Ordering.lt
unfolding compare_bytes
compare_bytes-lt_trans [] [] c h k = ground arith
compare_bytes-lt_trans (x ∷ a) [] c h k = ground arith
compare_bytes-lt_trans [] (y ∷ b) [] h k = ground arith
compare_bytes-lt_trans [] (y ∷ b) (z ∷ c) h k = refl
compare_bytes-lt_trans (x ∷ a) (y ∷ b) [] h k = ground arith
compare_bytes-lt_trans (x ∷ a) (y ∷ b) (z ∷ c) h k = ground (arith, compare_bytes-lt_trans a b c)

pub compare_bytes-IsCompare : IsCompare compare_bytes
compare_bytes-IsCompare = record {
  swap = compare_bytes-swap;
  eq_left = λ a b c h. cc (eq_of_compare_bytes a b h);
  lt_trans = compare_bytes-lt_trans;
}

-- A comparison by a key, by two keys in turn, and the other way round.
module _ {ℓ} {A : Type ℓ} where
  pub on-IsCompare {κ} :
      {K : Type κ} (key : A → K) {cmp : K → K → Ordering}
      → IsCompare cmp
      → IsCompare (λ (a b : A). cmp (key a) (key b))
  on-IsCompare key o = record {
    swap = λ a b. o.swap (key a) (key b);
    eq_left = λ a b c. o.eq_left (key a) (key b) (key c);
    lt_trans = λ a b c. o.lt_trans (key a) (key b) (key c);
  }

  pub flip-IsCompare : {cmp : A → A → Ordering} → IsCompare cmp → IsCompare (λ (a b : A). cmp b a)
  flip-IsCompare {cmp} o = record {
    swap = λ a b. o.swap b a;
    eq_left = λ a b c h. ground (arith, o.swap a b, o.swap a c, o.swap b c, o.eq_left a b c);
    lt_trans = λ a b c h k. o.lt_trans c b a k h;
  }

  pub <>-IsCompare :
      {f g : A → A → Ordering} → IsCompare f → IsCompare g → IsCompare (λ (a b : A). f a b <> g a b)
  <>-IsCompare {f} {g} o p = record {
    swap = λ a b. ground (arith, o.swap a b, p.swap a b);
    eq_left = λ a b c h. ground (arith, o.eq_left a b c, p.eq_left a b c);
    lt_trans = λ a b c h k. ground (
      arith,
      o.eq_left a b c,
      o.lt_trans a b c,
      p.lt_trans a b c,
      o.swap a b,
      o.swap b c,
      o.swap a c,
      o.eq_left c b a,
    );
  }
