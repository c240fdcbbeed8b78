-- ===== src/Config/Divided.antt =====
-- Which suppression `Config.Apply` of internal/config/apply.go takes for each finding.
use seta.Prelude.{
  ℕ, ◌<◌, ◌≡◌, refl, sym, ap, subst, true, false, not, List, [], ◌∷◌, ◌++◌, Option, none, some,
  arith, leb, ◌==◌, ==_iff, Bytes, All, All-imp, All-sort_by, any, keep, is_empty,
  sort_by-IsSortedBy, IsSortedBy, Bool-cases, ◌⊎◌, inl, inr, ◌↔◌,
}
use seta.Core.Finding.{Finding}
use seta.Engine.{RunResult, Suppressed, compare_findings}
use seta.Engine.Ordered.{compare_findings-IsCompare}
use seta.Config.{
  Suppression, Config, suppresses, is_expired, first_match, divide, apply, compare_suppressed,
}
use seta.Config.Apply.{active_at, IsExplained, divide-IsDivided, compare_suppressed-IsCompare}

-- A suppression in force: without an expiry, or before it.
abbrev pub IsInForce : ℕ → Suppression → Type 0
IsInForce now s = (s.expires ≡ none) ⊎ ((at : ℕ) × (s.expires ≡ some at) × (now < at))

abbrev pub IsIn : Bytes → List Bytes → Type 0
IsIn id [] = ⊥
IsIn id (x ∷ xs) = (x ≡ id) ⊎ IsIn id xs

-- A suppression of a finding: of its check, and of its target and its subject where it names any.
abbrev pub IsOf : Finding → Suppression → Type 0
IsOf f s =
    IsIn f.check_id s.ids
    × ((s.target ≡ []) ⊎ (s.target ≡ f.target))
    × ((s.subject ≡ []) ⊎ (s.subject ≡ f.subject))

-- A suppression of a finding, in force.
abbrev pub Hides : ℕ → Finding → Suppression → Type 0
Hides now f s = IsInForce now s × IsOf f s

-- The first of the suppressions that hide a finding.
abbrev pub IsFirst : ℕ → Finding → List Suppression → Suppression → Type 0
IsFirst now f sups s =
    (before : List Suppression) × (behind : List Suppression) × (sups ≡ before ++ (s ∷ behind))
    × All (λ r. ¬ Hides now f r) before
    × Hides now f s

is_expired-IsInForce : (now : ℕ) (s : Suppression) → (is_expired now s ≡ false) ↔ IsInForce now s
unfolding is_expired
is_expired-IsInForce now s = (to s.expires, from s.expires)
  where
    to :
        (o : Option ℕ)
        → (elim o [ none ↦ false | some at ↦ leb at now ]) ≡ false
        → (o ≡ none) ⊎ ((at : ℕ) × (o ≡ some at) × (now < at))
    to none h = inl refl
    to (some at) h = inr (at, refl, ground (arith, h))

    from :
        (o : Option ℕ)
        → (o ≡ none) ⊎ ((at : ℕ) × (o ≡ some at) × (now < at))
        → (elim o [ none ↦ false | some at ↦ leb at now ]) ≡ false
    from none h = refl
    from (some at) (inl e) = absurd (cc e)
    from (some at) (inr (b, e, lt)) = ground (arith, e, lt)

any-IsIn : (id : Bytes) (xs : List Bytes) → (any (λ (x : Bytes). x == id) xs ≡ true) ↔ IsIn id xs
any-IsIn id [] = (λ h. absurd (cc h), λ h. absurd h)
any-IsIn id (x ∷ xs) = ground (arith, ==_iff x id, any-IsIn id xs)

is_empty_iff : (s : Bytes) → (is_empty s ≡ true) ↔ (s ≡ [])
unfolding is_empty
is_empty_iff [] = (λ h. refl, λ h. refl)
is_empty_iff (c ∷ s) = (λ h. absurd (cc h), λ h. absurd (cc h))

suppresses-IsOf : (s : Suppression) (f : Finding) → (suppresses s f ≡ true) ↔ IsOf f s
unfolding suppresses
suppresses-IsOf s f = ground (
  arith,
  any-IsIn f.check_id s.ids,
  is_empty_iff s.target,
  is_empty_iff s.subject,
  ==_iff s.target f.target,
  ==_iff s.subject f.subject,
)

-- What the search for a suppression comes to.
abbrev Found : ℕ → Finding → List Suppression → Option Suppression → Type 0
Found now f sups none = All (λ s. ¬ Hides now f s) sups
Found now f sups (some s) = IsFirst now f sups s

hidden-Found :
    (now : ℕ) (f : Finding) (s : Suppression) (sups : List Suppression)
    → Hides now f s
    → Found now f (s ∷ sups) (some s)
hidden-Found now f s sups h = ([], sups, refl, tt, h)

other-Found :
    (now : ℕ) (f : Finding) (s : Suppression) (sups : List Suppression) (o : Option Suppression)
    → ¬ Hides now f s
    → Found now f sups o
    → Found now f (s ∷ sups) o
other-Found now f s sups none n h = (n, h)
other-Found now f s sups (some r) n (before, behind, e, others, h) =
    (s ∷ before, behind, ap (λ rest. s ∷ rest) e, (n, others), h)

first_match-Found :
    (now : ℕ) (f : Finding) (sups : List Suppression)
    → Found now f sups (first_match (keep (λ (s : Suppression). not (is_expired now s)) sups) f)
unfolding first_match
first_match-Found now f [] = tt
first_match-Found now f (s ∷ sups) = elim (Bool-cases (is_expired now s)) [
  | inl late ↦ rw late (
      other-Found now f s sups _ (λ h. cc (late, (is_expired-IsInForce now s).1 h.0))
        (first_match-Found now f sups))
  | inr live ↦ elim (Bool-cases (suppresses s f)) [
    | inl hides ↦
        rw (live, hides)
          (hidden-Found now f s sups
            ((is_expired-IsInForce now s).0 live, (suppresses-IsOf s f).0 hides))
    | inr other ↦
        rw (live, other)
          (other-Found now f s sups _ (λ h. cc (other, (suppresses-IsOf s f).1 h.1))
            (first_match-Found now f sups))
  ]
]

-- A suppressed finding with the reason and the expiry of the first suppression that hides it.
abbrev pub IsHidden : ℕ → List Suppression → Suppressed → Type 0
IsHidden now sups h =
    (s : Suppression) × IsFirst now h.finding sups s
    × (h.reason ≡ s.reason)
    × (h.expires ≡ s.expires)

-- Where nothing was suppressed before, `Apply` keeps only findings that no suppression in force
-- hides, gives each one that it suppresses the reason and the expiry of the first suppression in
-- force that hides it, and leaves both lists sorted. A suppression is in force if it has no expiry or
-- expires later, and hides a finding of a check that it names, of its target and its subject where
-- it names any.
pub apply-divides :
    (c : Config) (res : RunResult) (now : ℕ)
    → res.suppressed ≡ []
    → All (λ f. All (λ s. ¬ Hides now f s) c.suppressions) (apply c res now).1.findings
      × All (IsHidden now c.suppressions) (apply c res now).1.suppressed
      × IsSortedBy compare_findings (apply c res now).1.findings
      × IsSortedBy compare_suppressed (apply c res now).1.suppressed
unfolding apply
apply-divides c res now none_before =
    let active = active_at now c in
    let parts = divide c.severity_overrides active res.findings in
    let divided = divide-IsDivided c.severity_overrides active res.findings in
    let hidden : All (IsExplained c.severity_overrides active) (res.suppressed ++ parts.1) =
      subst (λ before. All (IsExplained c.severity_overrides active) (before ++ parts.1))
        (sym none_before) divided.1 in
    (
      All-sort_by compare_findings (λ f. All (λ s. ¬ Hides now f s) c.suppressions) parts.0
          (All-imp _ _
            (λ f e. subst (Found now f c.suppressions) e (first_match-Found now f c.suppressions))
            parts.0 divided.0),
      All-sort_by compare_suppressed (IsHidden now c.suppressions) (res.suppressed ++ parts.1) (
          All-imp _ _
            (λ h (s, e, why, when). (
              s,
              subst (Found now h.finding c.suppressions) e
                  (first_match-Found now h.finding c.suppressions),
              why,
              when,
            ))
            (res.suppressed ++ parts.1) hidden),
      sort_by-IsSortedBy compare_findings-IsCompare parts.0,
      sort_by-IsSortedBy compare_suppressed-IsCompare (res.suppressed ++ parts.1),
    )
