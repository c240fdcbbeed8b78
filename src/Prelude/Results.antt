-- ===== src/Prelude/Results.antt =====
-- A value or an error: Go's `(T, error)` where the code reads the value only if the error is nil.
use mathlib.Core.Path.{◌≡◌, refl, subst}
use seta.Prelude.Tests.{if◌then◌else◌}
use mathlib.Core.Logic.{◌⊎◌, inl, inr}
use mathlib.Core.Bool.{Bool, true, false}
use mathlib.Core.Option.{Option, none, some}

pub data Result {ℓ κ} (E : Type κ) (A : Type ℓ) : Type (ℓ ⊔ κ) where
  ok : A → Result E A
  err : E → Result E A

infixl 5 ◌>>◌ ◌>>=◌
abbrev pub ◌>>=◌ {κ ℓ μ} :
    {E : Type κ} {A : Type ℓ} {B : Type μ} → Result E A → (A → Result E B) → Result E B
err why >>= next = err why
ok value >>= next = next value

abbrev pub ◌>>◌ {κ ℓ} : {E : Type κ} {B : Type ℓ} → Result E (Unit {0}) → Result E B → Result E B
first >> next = first >>= λ _. next

-- `if !test { return err }`
abbrev pub check {κ} : {E : Type κ} → Bool → E → Result E (Unit {0})
check true e = ok tt
check false e = err e

-- What a chain that succeeds has found on its way.
pub bind-eq-ok {κ ℓ μ} :
    {E : Type κ} {A : Type ℓ} {B : Type μ} (first : Result E A) (next : A → Result E B) {out : B}
    → (first >>= next) ≡ ok out
    → (value : A) × (first ≡ ok value) × (next value ≡ ok out)
bind-eq-ok (err why) next h = absurd (cc h)
bind-eq-ok (ok value) next h = (value, refl, h)

pub check-eq-ok {κ} : {E : Type κ} (b : Bool) (e : E) → check b e ≡ ok tt → b ≡ true
check-eq-ok true e h = refl
check-eq-ok false e h = cc

pub Result-cases {ℓ κ} :
    {E : Type κ} {A : Type ℓ} (r : Result E A) → ((a : A) × (r ≡ ok a)) ⊎ ((e : E) × (r ≡ err e))
Result-cases (ok a) = inl (a, refl)
Result-cases (err e) = inr (e, refl)

-- What holds of a value if there is one.
abbrev pub Yields {κ ℓ μ} : {E : Type κ} {A : Type ℓ} → (A → Type μ) → Result E A → Type μ
Yields P (ok a) = P a
Yields P (err e) = Unit

pub Yields-bind {κ ℓ μ ν ρ} :
    {E : Type κ} {A : Type ℓ} {B : Type μ} (P : A → Type ν) (Q : B → Type ρ) (first : Result E A)
    (next : A → Result E B)
    → Yields P first
    → ((a : A) → P a → Yields Q (next a))
    → Yields Q (first >>= next)
Yields-bind P Q (ok a) next h k = k a h
Yields-bind P Q (err e) next h k = tt

pub Yields-check {κ μ} :
    {E : Type κ} (P : Unit {0} → Type μ) (b : Bool) (e : E)
    → (b ≡ true → P tt)
    → Yields P (check b e)
Yields-check P true e h = h refl
Yields-check P false e h = tt

-- Of a condition: what holds where it is met, and where it is not.
pub Yields-if {κ ℓ μ} :
    {E : Type κ} {A : Type ℓ} (P : A → Type μ) (b : Bool) (one other : Result E A)
    → (b ≡ true → Yields P one)
    → (b ≡ false → Yields P other)
    → Yields P (if b then one else other)
Yields-if P true one other h k = h refl
Yields-if P false one other h k = k refl

-- The same, where the branches are computed one at a time.
pub Yields-elim {κ ℓ μ} :
    {E : Type κ} {A : Type ℓ} (P : A → Type μ) (b : Bool) (one other : Result E A)
    → (b ≡ true → Yields P one)
    → (b ≡ false → Yields P other)
    → Yields P (elim b [ false ↦ other | true ↦ one ])
Yields-elim P true one other h k = h refl
Yields-elim P false one other h k = k refl

pub Yields-ok {κ ℓ μ} :
    {E : Type κ} {A : Type ℓ} (P : A → Type μ) (r : Result E A) (a : A)
    → Yields P r
    → r ≡ ok a
    → P a
Yields-ok P (ok b) a h e = let same : b ≡ a = cc e in subst P same h
Yields-ok P (err w) a h e = absurd (cc e)

pub Yields-option {κ ℓ μ ν} :
    {E : Type κ} {A : Type ℓ} {B : Type μ} (P : B → Type ν) (o : Option A) (absent : Result E B)
    (present : A → Result E B)
    → Yields P absent
    → ((a : A) → o ≡ some a → Yields P (present a))
    → Yields P (elim o [ none ↦ absent | some a ↦ present a ])
Yields-option P none absent present h k = h
Yields-option P (some a) absent present h k = k a refl

pub Yields-result {κ ℓ μ ν ρ} :
    {E : Type κ} {F : Type ρ} {A : Type ℓ} {B : Type μ} (P : B → Type ν) (o : Result F A)
    (present : A → Result E B) (failed : F → Result E B)
    → ((a : A) → o ≡ ok a → Yields P (present a))
    → ((e : F) → Yields P (failed e))
    → Yields P (elim o [ ok a ↦ present a | err e ↦ failed e ])
Yields-result P (ok a) present failed h k = h a refl
Yields-result P (err e) present failed h k = k e

pub Yields-imp {κ ℓ μ ν} :
    {E : Type κ} {A : Type ℓ} (P : A → Type μ) (Q : A → Type ν) (r : Result E A)
    → Yields P r
    → ((a : A) → P a → Q a)
    → Yields Q r
Yields-imp P Q (ok a) h k = k a h
Yields-imp P Q (err e) h k = tt

-- Of a value with nothing known.
pub Yields-any {κ ℓ} : {E : Type κ} {A : Type ℓ} (r : Result E A) → Yields (λ _. Unit {0}) r
Yields-any (ok a) = tt
Yields-any (err e) = tt
