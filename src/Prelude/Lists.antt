-- ===== src/Prelude/Lists.antt =====
-- Lists measured by native numbers, and predicates on their elements by recursion.
use Prim.Native.Nat.{ℕ, zero, suc, ◌+◌, ◌≤◌}
use mathlib.Core.Path.{◌≡◌}
use mathlib.Core.Bool.{Bool, true, false, ◌&&◌, ◌||◌}
use mathlib.Core.List.{List, [], ◌∷◌, ◌++◌, map}
use native.Mathlib.Omega.{arith}
use seta.Prelude.Tests.{if◌then◌else◌}

module _ {ℓ} {A : Type ℓ} where
  abbrev pub length : List A → ℕ
  length [] = 0
  length (x ∷ xs) = suc (length xs)

  -- `s[n:]`
  abbrev pub drop : ℕ → List A → List A
  drop zero xs = xs
  drop (suc n) [] = []
  drop (suc n) (x ∷ xs) = drop n xs

  pub length-append : (xs ys : List A) → length (xs ++ ys) ≡ length xs + length ys
  length-append [] ys = omega arith
  length-append (x ∷ xs) ys = omega (arith, length-append xs ys)

  pub length-drop-le : (n : ℕ) (xs : List A) → length (drop n xs) ≤ length xs
  length-drop-le zero xs = omega arith
  length-drop-le (suc n) [] = omega arith
  length-drop-le (suc n) (x ∷ xs) = omega (arith, length-drop-le n xs)

abbrev pub All {ℓ κ} : {A : Type ℓ} → (A → Type κ) → List A → Type κ
All P [] = Unit
All P (x ∷ xs) = P x × All P xs

module _ {ℓ κ} {A : Type ℓ} (P : A → Type κ) where
  pub All-append : (xs ys : List A) → All P xs → All P ys → All P (xs ++ ys)
  All-append [] ys hx hy = hy
  All-append (x ∷ xs) ys hx hy = (hx.0, All-append xs ys hx.1 hy)

  pub All-append_left : (xs ys : List A) → All P (xs ++ ys) → All P xs
  All-append_left [] ys h = tt
  All-append_left (x ∷ xs) ys h = (h.0, All-append_left xs ys h.1)

  pub All-append_right : (xs ys : List A) → All P (xs ++ ys) → All P ys
  All-append_right [] ys h = h
  All-append_right (x ∷ xs) ys h = All-append_right xs ys h.1

pub All-imp {ℓ κ μ} :
    {A : Type ℓ} (P : A → Type κ) (Q : A → Type μ)
    → ((a : A) → P a → Q a)
    → (xs : List A) → All P xs
    → All Q xs
All-imp P Q f [] h = tt
All-imp P Q f (x ∷ xs) h = (f x h.0, All-imp P Q f xs h.1)

-- `slices.ContainsFunc`, and a `for` that keeps what a test accepts.
module _ {ℓ} {A : Type ℓ} where
  abbrev pub any : (A → Bool) → List A → Bool
  any p [] = false
  any p (x ∷ xs) = p x || any p xs

  abbrev pub all : (A → Bool) → List A → Bool
  all p [] = true
  all p (x ∷ xs) = p x && all p xs

  abbrev pub keep : (A → Bool) → List A → List A
  keep p [] = []
  keep p (x ∷ xs) = if p x then x ∷ keep p xs else keep p xs

-- A relation between each element and every later one.
abbrev pub Pairs {ℓ κ} : {A : Type ℓ} → (A → A → Type κ) → List A → Type κ
Pairs R [] = Unit
Pairs R (x ∷ xs) = All (R x) xs × Pairs R xs

pub All-and {ℓ κ μ} :
    {A : Type ℓ} (P : A → Type κ) (Q : A → Type μ) (xs : List A)
    → All P xs
    → All Q xs
    → All (λ a. P a × Q a) xs
All-and P Q [] p q = tt
All-and P Q (x ∷ xs) p q = ((p.0, q.0), All-and P Q xs p.1 q.1)

pub Pairs-imp {ℓ κ μ ν} :
    {A : Type ℓ} (P : A → Type ν) (R : A → A → Type κ) (S : A → A → Type μ)
    → ((a b : A) → P a → P b → R a b → S a b)
    → (xs : List A) → All P xs
    → Pairs R xs
    → Pairs S xs
Pairs-imp P R S f [] p h = tt
Pairs-imp P R S f (x ∷ xs) p h = (
  All-imp (λ y. P y × R x y) (S x) (λ y k. f x y p.0 k.0 k.1) xs (All-and P (R x) xs p.1 h.0),
  Pairs-imp P R S f xs p.1 h.1,
)

pub Pairs-append {ℓ κ} :
    {A : Type ℓ} (R : A → A → Type κ) (xs ys : List A)
    → Pairs R xs
    → Pairs R ys
    → All (λ x. All (R x) ys) xs
    → Pairs R (xs ++ ys)
Pairs-append R [] ys p q c = q
Pairs-append R (x ∷ xs) ys p q c = (All-append (R x) xs ys p.0 c.0, Pairs-append R xs ys p.1 q c.1)

pub All-intro {ℓ κ} : {A : Type ℓ} (P : A → Type κ) → ((a : A) → P a) → (xs : List A) → All P xs
All-intro P f [] = tt
All-intro P f (x ∷ xs) = (f x, All-intro P f xs)

pub All-map {ℓ κ μ} :
    {A : Type ℓ} {B : Type κ} (f : A → B) (P : B → Type μ) (xs : List A)
    → All (λ a. P (f a)) xs
    → All P (map f xs)
All-map f P [] h = tt
All-map f P (x ∷ xs) h = (h.0, All-map f P xs h.1)

-- A relation between the images of each two elements.
pub Pairs-map {ℓ κ μ} :
    {A : Type ℓ} {B : Type κ} (f : A → B) (R : B → B → Type μ) (xs : List A)
    → Pairs (λ a b. R (f a) (f b)) xs
    → Pairs R (map f xs)
Pairs-map f R [] h = tt
Pairs-map f R (x ∷ xs) h = (All-map f (R (f x)) xs h.0, Pairs-map f R xs h.1)

pub All-of_map {ℓ κ μ} :
    {A : Type ℓ} {B : Type κ} (f : A → B) (P : B → Type μ) (xs : List A)
    → All P (map f xs)
    → All (λ a. P (f a)) xs
All-of_map f P [] h = tt
All-of_map f P (x ∷ xs) h = (h.0, All-of_map f P xs h.1)

pub Pairs-of_map {ℓ κ μ} :
    {A : Type ℓ} {B : Type κ} (f : A → B) (R : B → B → Type μ) (xs : List A)
    → Pairs R (map f xs)
    → Pairs (λ a b. R (f a) (f b)) xs
Pairs-of_map f R [] h = tt
Pairs-of_map f R (x ∷ xs) h = (All-of_map f (R (f x)) xs h.0, Pairs-of_map f R xs h.1)
