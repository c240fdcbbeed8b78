-- ===== src/Prelude/Sort.antt =====
-- `slices.SortFunc`: an insertion sort stands for it. What is used of it is that the result is a
-- sorted rearrangement, which for a comparison that tells the elements apart is one list only.
use Prim.Native.Nat.{Ordering}
use mathlib.Core.Path.{◌≡◌, refl, ◌∙◌, subst, subst₂}
use mathlib.Core.Logic.{◌≢◌}
use mathlib.Core.List.{List, [], ◌∷◌, Perm, Permᴰ}
use mathlib.Core.List.Perm
use native.Mathlib.Omega.{arith}
use seta.Prelude.Lists.{All, All-imp, Pairs}
use seta.Prelude.Order.{IsCompare}

module _ {ℓ} {A : Type ℓ} (cmp : A → A → Ordering) where
  unfoldable pub insert_by : A → List A → List A
  insert_by x [] = x ∷ []
  insert_by x (y ∷ ys) = elim (cmp x y) [ Ordering.gt ↦ y ∷ insert_by x ys | _ ↦ x ∷ y ∷ ys ]

  unfoldable pub sort_by : List A → List A
  unfolding insert_by
  sort_by [] = []
  sort_by (x ∷ xs) = insert_by x (sort_by xs)

  -- No element compares as greater than a later one.
  abbrev pub IsSortedBy : List A → Type ℓ
  IsSortedBy [] = Unit
  IsSortedBy (x ∷ xs) = All (λ y. cmp x y ≢ Ordering.gt) xs × IsSortedBy xs

module _ {ℓ κ} {A : Type ℓ} (cmp : A → A → Ordering) (P : A → Type κ) where
  pub All-insert_by : (x : A) (ys : List A) → P x → All P ys → All P (insert_by cmp x ys)
  unfolding insert_by
  All-insert_by x [] p h = (p, tt)
  All-insert_by x (y ∷ ys) p h =
      elim (cmp x y)
        as (λ o. All P (elim o [ Ordering.gt ↦ y ∷ insert_by cmp x ys | _ ↦ x ∷ y ∷ ys ])) [
          | Ordering.gt ↦ (h.0, All-insert_by x ys p h.1)
          | Ordering.lt ↦ (p, h)
          | Ordering.eq ↦ (p, h)
        ]

  pub All-sort_by : (xs : List A) → All P xs → All P (sort_by cmp xs)
  unfolding sort_by
  All-sort_by [] h = h
  All-sort_by (x ∷ xs) h = All-insert_by x (sort_by cmp xs) h.0 (All-sort_by xs h.1)

module _ {ℓ} {A : Type ℓ} {cmp : A → A → Ordering} (o : IsCompare cmp) where
  le_trans_by : (a b c : A) → cmp a b ≢ Ordering.gt → cmp b c ≢ Ordering.gt → cmp a c ≢ Ordering.gt
  le_trans_by a b c h k = ground (
    arith,
    o.eq_left a b c,
    o.eq_left b c a,
    o.lt_trans a b c,
    o.eq_left c b a,
    o.swap a b,
    o.swap b c,
    o.swap a c,
  )

  insert_by-IsSortedBy :
      (x : A) (ys : List A) → IsSortedBy cmp ys → IsSortedBy cmp (insert_by cmp x ys)
  unfolding insert_by
  insert_by-IsSortedBy x [] s = (tt, tt)
  insert_by-IsSortedBy x (y ∷ ys) s = go (insert_by-IsSortedBy x ys s.1) (cmp x y) refl
    where
      first : cmp x y ≢ Ordering.gt → All (λ z. cmp x z ≢ Ordering.gt) (y ∷ ys)
      first h = (
        h,
        All-imp (λ z. cmp y z ≢ Ordering.gt) (λ z. cmp x z ≢ Ordering.gt)
            (λ z k. le_trans_by x y z h k) ys s.0,
      )

      go :
          IsSortedBy cmp (insert_by cmp x ys)
          → (r : Ordering) → cmp x y ≡ r
          → IsSortedBy cmp (elim r [ Ordering.gt ↦ y ∷ insert_by cmp x ys | _ ↦ x ∷ y ∷ ys ])
      go ih Ordering.gt e =
          (All-insert_by cmp (λ z. cmp y z ≢ Ordering.gt) x ys (ground (arith, o.swap x y)) s.0, ih)
      go ih Ordering.lt e = (first (ground arith), s)
      go ih Ordering.eq e = (first (ground arith), s)

  pub sort_by-IsSortedBy : (xs : List A) → IsSortedBy cmp (sort_by cmp xs)
  unfolding sort_by
  sort_by-IsSortedBy [] = tt
  sort_by-IsSortedBy (x ∷ xs) = insert_by-IsSortedBy x (sort_by cmp xs) (sort_by-IsSortedBy xs)

module _ {ℓ} {A : Type ℓ} (cmp : A → A → Ordering) where
  insert_by-perm : (x : A) (ys : List A) → Perm (insert_by cmp x ys) (x ∷ ys)
  unfolding insert_by
  insert_by-perm x [] = Perm.refl _
  insert_by-perm x (y ∷ ys) =
      elim (cmp x y)
        as (λ r.
          Perm (elim r [ Ordering.gt ↦ y ∷ insert_by cmp x ys | _ ↦ x ∷ y ∷ ys ]) (x ∷ y ∷ ys)) [
            | Ordering.gt ↦ Perm.trans (Perm.cons y (insert_by-perm x ys)) (Perm.swap x y ys)
            | Ordering.lt ↦ Perm.refl _
            | Ordering.eq ↦ Perm.refl _
          ]

  pub sort_by-perm : (xs : List A) → Perm (sort_by cmp xs) xs
  unfolding sort_by
  sort_by-perm [] = Perm.refl _
  sort_by-perm (x ∷ xs) =
      Perm.trans (insert_by-perm x (sort_by cmp xs)) (Perm.cons x (sort_by-perm xs))

-- A rearrangement carries over what holds of each element, and of each pair of elements.
module _ {ℓ κ} {A : Type ℓ} where
  pub All-permᴰ : (P : A → Type κ) {xs ys : List A} → Permᴰ xs ys → All P xs → All P ys
  All-permᴰ P Permᴰ.nil h = tt
  All-permᴰ P (Permᴰ.cons e p) h = (subst P e h.0, All-permᴰ P p h.1)
  All-permᴰ P (Permᴰ.swap e f) h = (subst P f h.1.0, (subst P e h.0, h.1.1))
  All-permᴰ P (Permᴰ.trans p q) h = All-permᴰ P q (All-permᴰ P p h)

  pub Pairs-permᴰ :
      (R : A → A → Type κ)
      → ((a b : A) → R a b → R b a)
      → {xs ys : List A} → Permᴰ xs ys
      → Pairs R xs
      → Pairs R ys
  Pairs-permᴰ R s Permᴰ.nil h = tt
  Pairs-permᴰ R s (Permᴰ.cons {b} {l₂} e p) h =
      (subst (λ x. All (R x) l₂) e (All-permᴰ (R _) p h.0), Pairs-permᴰ R s p h.1)
  Pairs-permᴰ R s (Permᴰ.swap {a} {b} {l} e f) h = (
    (subst₂ R f e (s a b h.0.0), subst (λ x. All (R x) l) f h.1.0),
    (subst (λ x. All (R x) l) e h.0.1, h.1.1),
  )
  Pairs-permᴰ R s (Permᴰ.trans p q) h = Pairs-permᴰ R s q (Pairs-permᴰ R s p h)

-- Where no two elements tie, the order of the input leaves no trace.
module _ {ℓ} {A : Type ℓ} {cmp : A → A → Ordering} (o : IsCompare cmp) where
  abbrev pub NoTie : A → A → Type 0
  NoTie a b = cmp a b ≢ Ordering.eq

  insert_by_comm :
      (x y : A) (l : List A)
      → NoTie x y
      → insert_by cmp x (insert_by cmp y l) ≡ insert_by cmp y (insert_by cmp x l)
  unfolding insert_by
  insert_by_comm x y [] n = ground (arith, o.swap x y)
  insert_by_comm x y (z ∷ l) n = ground (
    arith,
    o.swap x y,
    o.swap x z,
    o.swap y z,
    o.eq_left x z y,
    o.eq_left y z x,
    o.lt_trans x y z,
    o.lt_trans y x z,
    o.lt_trans x z y,
    o.lt_trans y z x,
    o.lt_trans z x y,
    o.lt_trans z y x,
    insert_by_comm x y l n,
  )

  pub sort_by-permᴰ :
      {xs ys : List A} → Permᴰ xs ys → Pairs NoTie xs → sort_by cmp xs ≡ sort_by cmp ys
  unfolding sort_by
  sort_by-permᴰ Permᴰ.nil n = refl
  sort_by-permᴰ (Permᴰ.cons e p) n = cc (e, sort_by-permᴰ p n.1)
  sort_by-permᴰ (Permᴰ.swap {a} {b} {a'} {b'} {l} e f) n =
      cc (e, f, insert_by_comm a b (sort_by cmp l) n.0.0)
  sort_by-permᴰ (Permᴰ.trans p q) n =
      sort_by-permᴰ p n ∙ sort_by-permᴰ q (Pairs-permᴰ NoTie symm p n)
    where
      symm : (a b : A) → NoTie a b → NoTie b a
      symm a b h = ground (arith, o.swap a b)
