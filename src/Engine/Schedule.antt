-- ===== src/Engine/Schedule.antt =====
-- The result of a run does not depend on the order in which its executions end.
use mathlib.Core.List.{Permᴰ}
use mathlib.Core.List.Permᴰ
use seta.Prelude.{
  ℕ, ◌≡◌, refl, sym, subst, subst₂, ◌∙◌, true, List, [], ◌∷◌, ◌++◌, append_assoc, append-nil, inl,
  inr, arith, Result-cases, ok, err, sort_by, All, All-imp, All-append, All-and, All-intro, Pairs,
  Pairs-imp, Pairs-append, NoTie, sort_by-permᴰ,
}
use seta.Core.Severity.{is_valid}
use seta.Core.Finding.{Finding}
use seta.Core.Check.{Meta}
use seta.Core.Target.{Target}
use seta.Engine.{CheckError, compare_findings, compare_errors, normalize}
use seta.Engine.Normal.{IsNormal, Differ, normalize_from-Out}
use seta.Engine.Ordered.{
  compare_findings-IsCompare, compare_errors-IsCompare, compare_findings-eq, compare_errors-eq,
}
use seta.Engine.Run.{
  Task, Job, outcome, Attempt, Arrival, nothing, panic, failure, findings, settle, run_one, collect,
  run,
}

abbrev found : Task → List Finding
found t = elim (outcome t) [ ok fs ↦ fs | err _ ↦ [] ]

abbrev erred : Task → List CheckError
erred t = elim (outcome t) [
  | ok _ ↦ []
  | err e ↦ record { check_id = t.info.id; target = t.target.name; error = e } ∷ []
]

module _ {ℓ κ} {A : Type ℓ} {B : Type κ} (f : A → List B) where
  gather : List A → List B
  gather [] = []
  gather (x ∷ xs) = f x ++ gather xs

  gather-permᴰ : {xs ys : List A} → Permᴰ xs ys → Permᴰ (gather xs) (gather ys)
  unfolding gather
  gather-permᴰ Permᴰ.nil = Permᴰ.nil
  gather-permᴰ (Permᴰ.cons {a} {b} {l₁} {l₂} e p) =
      subst (λ x. Permᴰ (f a ++ gather l₁) (f x ++ gather l₂)) e
        (Permᴰ.append_left (f a) (gather-permᴰ p))
  gather-permᴰ (Permᴰ.swap {a} {b} {a'} {b'} {l} e e') =
      subst₂ (λ x y. Permᴰ (f a ++ (f b ++ gather l)) (f x ++ (f y ++ gather l))) e' e
        (subst₂ Permᴰ (append_assoc (f a) (f b) (gather l)) (append_assoc (f b) (f a) (gather l))
          (Permᴰ.append_right (gather l) (Permᴰ.append_comm (f a) (f b))))
  gather-permᴰ (Permᴰ.trans p q) = Permᴰ.trans (gather-permᴰ p) (gather-permᴰ q)

collect_lem :
    (ts : List Task) (fs : List Finding) (es : List CheckError)
    → collect ts fs es ≡ (fs ++ gather found ts, es ++ gather erred ts)
unfolding collect gather
collect_lem [] fs es = cc (append-nil fs, append-nil es)
collect_lem (t ∷ ts) fs es = elim (Result-cases (outcome t)) [
  | inl (a, e) ↦ ground (arith, collect_lem ts (fs ++ a) es, append_assoc fs a (gather found ts))
  | inr (x, e) ↦ ground (
    arith,
    collect_lem ts fs
        (es ++ (record { check_id = t.info.id; target = t.target.name; error = x } ∷ [])),
    append_assoc es (record { check_id = t.info.id; target = t.target.name; error = x } ∷ [])
        (gather erred ts),
  )
]

-- Two executions of one run differ in their check or in their target.
abbrev pub Apart : Task → Task → Type 0
Apart s t = ¬ ((s.target.name ≡ t.target.name) × (s.info.id ≡ t.info.id))

abbrev NoTieF : Finding → Finding → Type 0
NoTieF = NoTie compare_findings-IsCompare

abbrev NoTieE : CheckError → CheckError → Type 0
NoTieE = NoTie compare_errors-IsCompare

abbrev IsCollected : Task → List Finding → Type 0
IsCollected t fs = All (IsNormal t.info t.target) fs × Pairs NoTieF fs

settle-inv :
    (m : Meta) (t : Target) (a : Attempt) (x : Arrival) {fs : List Finding}
    → settle m t a x ≡ ok fs
    → (raw : List Finding) × (normalize m t raw ≡ ok fs)
unfolding settle
settle-inv m t a nothing h = absurd (cc h)
settle-inv m t a panic h = absurd (cc h)
settle-inv m t a (failure e) h = absurd (cc h)
settle-inv m t a (findings raw) h = (raw, ground arith)

run_one-inv :
    (m : Meta) (t : Target) (a : Attempt) {fs : List Finding}
    → run_one m t a ≡ ok fs
    → (raw : List Finding) × (normalize m t raw ≡ ok fs)
unfolding run_one
run_one-inv m t a h = settle-inv m t a a.arrival (ground arith)

outcome-IsCollected :
    (t : Task) {fs : List Finding}
    → is_valid t.info.severity ≡ true
    → outcome t ≡ ok fs
    → IsCollected t fs
unfolding normalize
outcome-IsCollected t {fs} v h =
    let (raw, e) = run_one-inv t.info t.target t.attempt h in
    let o = normalize_from-Out t.info t.target v raw [] e in
    (
      o.each,
      Pairs-imp (λ (_ : Finding). Unit {0}) Differ NoTieF
          (λ f g _ _ d tie. d (compare_findings-eq f g tie).2) fs
          (All-imp (IsNormal t.info t.target) (λ _. Unit {0}) (λ _ _. tt) fs o.each) o.distinct,
    )

found-IsCollected : (t : Task) → is_valid t.info.severity ≡ true → IsCollected t (found t)
found-IsCollected t v = elim (Result-cases (outcome t)) [
  | inl (fs, e) ↦ rw (e, found) (outcome-IsCollected t v e)
  | inr (x, e) ↦ rw (e, found) (tt, tt)
]

module _ {ℓ κ} {A : Type ℓ} {B : Type κ} (f : A → List B) (R : B → B → Type 0) (S : A → A → Type 0)
    (P : A → Type 0) (own : (a : A) → P a → Pairs R (f a))
    (across : (a b : A) → P a → P b → S a b → All (λ x. All (R x) (f b)) (f a)) where
  gather-across :
      (a : A) (xs : List A)
      → P a
      → All P xs
      → All (S a) xs
      → All (λ x. All (R x) (gather f xs)) (f a)
  unfolding gather
  gather-across a [] p q s = All-intro (λ x. All (R x) []) (λ _. tt) (f a)
  gather-across a (b ∷ xs) p q s =
      All-imp (λ x. All (R x) (f b) × All (R x) (gather f xs)) (λ x. All (R x) (f b ++ gather f xs))
        (λ x h. All-append (R x) (f b) (gather f xs) h.0 h.1) (f a)
        (All-and (λ x. All (R x) (f b)) (λ x. All (R x) (gather f xs)) (f a) (across a b p q.0 s.0)
          (gather-across a xs p q.1 s.1))

  Pairs-gather : (xs : List A) → All P xs → Pairs S xs → Pairs R (gather f xs)
  unfolding gather
  Pairs-gather [] p s = tt
  Pairs-gather (x ∷ xs) p s =
      Pairs-append R (f x) (gather f xs) (own x p.0) (Pairs-gather xs p.1 s.1)
        (gather-across x xs p.0 p.1 s.0)

abbrev HasSeverity : Task → Type 0
HasSeverity t = is_valid t.info.severity ≡ true

found-across :
    (s t : Task)
    → HasSeverity s
    → HasSeverity t
    → Apart s t
    → All (λ f. All (NoTieF f) (found t)) (found s)
found-across s t v w apart =
    All-imp (IsNormal s.info s.target) (λ f. All (NoTieF f) (found t))
      (λ f p.
        All-imp (IsNormal t.info t.target) (NoTieF f)
          (λ g q tie.
            let (same_check, same_target, _) = compare_findings-eq f g tie in
            apart (sym p.target ∙ same_target ∙ q.target, sym p.check_id ∙ same_check ∙ q.check_id))
          (found t) (found-IsCollected t w).0)
      (found s) (found-IsCollected s v).0

IsOf : Task → CheckError → Type 0
IsOf t e = (e.target ≡ t.target.name) × (e.check_id ≡ t.info.id)

erred-IsOf : (t : Task) → All (IsOf t) (erred t) × Pairs NoTieE (erred t)
unfolding IsOf
erred-IsOf t = elim (Result-cases (outcome t)) [
  | inl (fs, e) ↦ rw (e, erred) (tt, tt)
  | inr (x, e) ↦ rw (e, erred) (((refl, refl), tt), (tt, tt))
]

erred-across :
    (s t : Task)
    → HasSeverity s
    → HasSeverity t
    → Apart s t
    → All (λ d. All (NoTieE d) (erred t)) (erred s)
unfolding IsOf
erred-across s t v w apart =
    All-imp (IsOf s) (λ d. All (NoTieE d) (erred t))
      (λ d p.
        All-imp (IsOf t) (NoTieE d)
          (λ e q tie.
            let (same_target, same_check) = compare_errors-eq d e tie in
            apart (sym p.0 ∙ same_target ∙ q.0, sym p.1 ∙ same_check ∙ q.1))
          (erred t) (erred-IsOf t).0)
      (erred s) (erred-IsOf s).0

module _ (started ended : ℕ) (jobs : List Job) {one two : List Task} (p : Permᴰ one two)
    (valid : All HasSeverity one) (apart : Pairs Apart one) where
  findings-same :
      sort_by compare_findings (gather found one) ≡ sort_by compare_findings (gather found two)
  findings-same = sort_by-permᴰ compare_findings-IsCompare (gather-permᴰ found p) (
      Pairs-gather found NoTieF Apart HasSeverity (λ t v. (found-IsCollected t v).1) found-across
        one valid apart)

  errors-same :
      sort_by compare_errors (gather erred one) ≡ sort_by compare_errors (gather erred two)
  errors-same = sort_by-permᴰ compare_errors-IsCompare (gather-permᴰ erred p) (
      Pairs-gather erred NoTieE Apart HasSeverity (λ t v. (erred-IsOf t).1) erred-across one valid
        apart)

  -- Two orders in which the same executions end give the same result, if the checks' severities are
  -- valid and no two executions are of one check on one target.
  pub run_any_order : run started ended jobs one ≡ run started ended jobs two
  unfolding run
  run_any_order = cc (findings-same, errors-same, collect_lem one [] [], collect_lem two [] [])
