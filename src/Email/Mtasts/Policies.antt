-- ===== src/Email/Mtasts/Policies.antt =====
-- The policies of `ParsePolicy` of checks/email/internal/mtasts/mtasts.go.
use seta.Prelude.{
  ℕ, ◌≤◌, ◌≡◌, ◌≢◌, refl, ap, Bool, true, false, not, ◌||◌, List, [], ◌∷◌, some, arith, ==_iff,
  ◌==◌, Bytes, codes, is_empty, cut, any, trim_space, trim_suffix, split_on, All, All-append, ◌⊎◌,
  inl, inr, ok, check, Yields, Yields-bind, Yields-check, Yields-if, Yields-elim, Yields-ok,
  Yields-option, Yields-any, Yields-imp, Bool-cases,
}
use seta.Core.Target.{Unicode, to_lower}
use seta.Email.Mtasts.{
  Policy, not_field, duplicate, missing, bad_version, bad_mode, bad_mx, missing_mx, is_pattern,
  trim_returns, max_max_age, is_mode, parse_max_age, set_field, parse_lines, check_required,
  parse_policy, is_empty_list,
}

parse_max_age-le : (v : Bytes) (n : ℕ) → parse_max_age v ≡ some n → n ≤ max_max_age
unfolding parse_max_age
parse_max_age-le v n h = ground (arith, h)

version_not_mode : (key : Bytes) → (key == codes "version") ≡ true → (key == codes "mode") ≡ false
unfolding ◌==◌
version_not_mode key h = ap (λ (k : Bytes). k == codes "mode") ((==_iff key (codes "version")).0 h)

module _ (u : Unicode) where
  -- A pattern of the policy is a valid one in lower case without a dot at its end.
  abbrev pub IsListed : Bytes → Type 0
  IsListed name =
      (v : Bytes) × (is_pattern v ≡ true) × (name ≡ to_lower u (trim_suffix (codes ".") v))

  abbrev has : Bytes → List Bytes → Bool
  has key seen = any (λ (s : Bytes). s == key) seen

  record IsGood (seen : List Bytes) (p : Policy) : Type 0 where
    mode : has (codes "mode") seen ≡ true → is_mode p.mode ≡ true
    max_age : p.max_age ≤ max_max_age
    mx : All IsListed p.mx

  -- What a field makes of a good policy.
  set_field-Yields :
      (key value : Bytes) (seen : List Bytes) (p : Policy)
      → IsGood seen p
      → Yields (IsGood (key ∷ seen)) (set_field u key value p)
  unfolding set_field
  set_field-Yields key value seen p h =
      Yields-if (IsGood (key ∷ seen)) (key == codes "version") _ _
        (λ version.
          Yields-bind (λ (_ : Unit {0}). Unit {0}) (IsGood (key ∷ seen))
            (check (value == codes "STSv1") (bad_version value)) _
            (Yields-any (check (value == codes "STSv1") (bad_version value)))
            λ _ _. kept (version_not_mode key version))
        λ _.
          Yields-if (IsGood (key ∷ seen)) (key == codes "mode") _ _
            (λ mode.
              Yields-bind (λ (_ : Unit {0}). is_mode value ≡ true) (IsGood (key ∷ seen))
                (check (is_mode value) (bad_mode value)) _
                (Yields-check (λ (_ : Unit {0}). is_mode value ≡ true) (is_mode value)
                  (bad_mode value) (λ e. e))
                λ _ good. record { mode = λ _. good; max_age = h.max_age; mx = h.mx })
            λ other.
              Yields-if (IsGood (key ∷ seen)) (key == codes "max_age") _ _
                (λ _. Yields-option (IsGood (key ∷ seen)) (parse_max_age value) _ _ tt λ n read.
                  record {
                    mode = λ e. h.mode (drop_key other e);
                    max_age = parse_max_age-le value n read;
                    mx = h.mx;
                  })
                λ _.
                  Yields-if (IsGood (key ∷ seen)) (key == codes "mx") _ _
                    (λ _.
                      Yields-bind (λ (_ : Unit {0}). is_pattern value ≡ true) (IsGood (key ∷ seen))
                        (check (is_pattern value) (bad_mx value)) _
                        (Yields-check (λ (_ : Unit {0}). is_pattern value ≡ true) (is_pattern value)
                          (bad_mx value) (λ e. e))
                        λ _ good. record {
                          mode = λ e. h.mode (drop_key other e);
                          max_age = h.max_age;
                          mx =
                              All-append IsListed p.mx
                                (to_lower u (trim_suffix (codes ".") value) ∷ []) h.mx
                                ((value, good, refl), tt);
                        })
                    (λ _. kept other)
    where
      drop_key :
          (key == codes "mode") ≡ false
          → has (codes "mode") (key ∷ seen) ≡ true
          → has (codes "mode") seen ≡ true
      drop_key other e = ground (arith, other, e)

      kept : (key == codes "mode") ≡ false → IsGood (key ∷ seen) p
      kept other = record { mode = λ e. h.mode (drop_key other e); max_age = h.max_age; mx = h.mx }

  parse_lines-Yields :
      (lines seen : List Bytes) (p : Policy)
      → IsGood seen p
      → Yields (λ (out : List Bytes × Policy). IsGood out.0 out.1) (parse_lines u lines seen p)
  unfolding parse_lines
  parse_lines-Yields [] seen p h = h
  parse_lines-Yields (raw ∷ lines) seen p h =
      let parts = cut b':' (trim_returns raw) in
      let key = trim_space parts.0 in
      let good = λ (out : List Bytes × Policy). IsGood out.0 out.1 in
      Yields-elim good (is_empty (trim_space (trim_returns raw))) _ _
        (λ _. parse_lines-Yields lines seen p h)
        λ _.
          Yields-bind (λ (_ : Unit {0}). Unit {0}) good
            (check parts.2 (not_field (trim_returns raw))) _
            (Yields-any (check parts.2 (not_field (trim_returns raw))))
            λ _ _.
              Yields-bind (λ (_ : Unit {0}). Unit {0}) good
                (check (key == codes "mx" || not (has key seen)) (duplicate key)) _
                (Yields-any (check (key == codes "mx" || not (has key seen)) (duplicate key)))
                λ _ _.
                  Yields-bind (IsGood (key ∷ seen)) good (set_field u key (trim_space parts.1) p) _
                    (set_field-Yields key (trim_space parts.1) seen p h)
                    λ p' h'. parse_lines-Yields lines (key ∷ seen) p' h'

  pub record IsPolicy (p : Policy) : Type 0 where
    pub mode : is_mode p.mode ≡ true
    pub max_age : p.max_age ≤ max_max_age
    pub mx : All IsListed p.mx
    pub some_mx : (p.mode ≡ codes "none") ⊎ (p.mx ≢ [])

  some_mx-cases :
      (p : Policy)
      → (p.mode == codes "none" || not (is_empty_list p.mx)) ≡ true
      → (p.mode ≡ codes "none") ⊎ (p.mx ≢ [])
  some_mx-cases p h = elim (Bool-cases (p.mode == codes "none")) [
    | inl same ↦ inl ((==_iff p.mode (codes "none")).0 same)
    | inr differ ↦
        inr (λ e. absurd (cc (ap is_empty_list e, filled p.mx (ground (arith, h, differ)))))
  ]
    where
      filled : (ms : List Bytes) → not (is_empty_list ms) ≡ true → is_empty_list ms ≡ false
      filled [] e = absurd (cc e)
      filled (m ∷ ms) e = refl

  required-Yields :
      (fs seen : List Bytes)
      → Yields (λ (_ : Unit {0}). All (λ f. has f seen ≡ true) fs) (check_required u fs seen)
  unfolding check_required
  required-Yields [] seen = tt
  required-Yields (f ∷ fs) seen =
      Yields-bind (λ (_ : Unit {0}). has f seen ≡ true)
        (λ (_ : Unit {0}). All (λ f. has f seen ≡ true) (f ∷ fs)) (check (has f seen) (missing f)) _
        (Yields-check (λ (_ : Unit {0}). has f seen ≡ true) (has f seen) (missing f) (λ e. e))
        λ _ here.
          Yields-imp (λ (_ : Unit {0}). All (λ f. has f seen ≡ true) fs) _
            (check_required u fs seen) (required-Yields fs seen) λ _ rest. (here, rest)

  -- A policy that is returned has one of the three modes, a max_age of at most 31557600 seconds, patterns
  -- that are valid, in lower case and without a dot at the end, and at least one of them unless the mode is `none`.
  pub parse_policy-IsPolicy : (body : Bytes) (p : Policy) → parse_policy u body ≡ ok p → IsPolicy p
  unfolding parse_policy
  parse_policy-IsPolicy body p e =
      let names = codes "version" ∷ codes "mode" ∷ codes "max_age" ∷ [] in
      let empty : Policy = record { mode = []; max_age = 0; mx = [] } in
      Yields-ok IsPolicy (parse_policy u body) p
        (Yields-bind (λ (out : List Bytes × Policy). IsGood out.0 out.1) IsPolicy
          (parse_lines u (split_on 10 body) [] empty) _
          (parse_lines-Yields (split_on 10 body) [] empty
            (record { mode = λ e. absurd (cc e); max_age = omega arith; mx = tt }))
          λ out h.
            Yields-bind (λ (_ : Unit {0}). All (λ f. has f out.0 ≡ true) names) IsPolicy
              (check_required u names out.0) _ (required-Yields names out.0)
              λ _ seen.
                Yields-bind
                  (λ (_ : Unit {0}).
                    (out.1.mode == codes "none" || not (is_empty_list out.1.mx)) ≡ true)
                  IsPolicy
                  (check (out.1.mode == codes "none" || not (is_empty_list out.1.mx)) missing_mx) _
                  (Yields-check _ (out.1.mode == codes "none" || not (is_empty_list out.1.mx))
                    missing_mx (λ t. t))
                  λ _ filled. record {
                    mode = h.mode (seen.1.0);
                    max_age = h.max_age;
                    mx = h.mx;
                    some_mx = some_mx-cases out.1 filled;
                  })
        e
