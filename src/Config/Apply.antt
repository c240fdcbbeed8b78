-- ===== src/Config/Apply.antt =====
-- What `Config.Apply` does with each finding.
use mathlib.Core.List.{Perm, perm_middle, map-append}
use mathlib.Core.List.Perm
use mathlib.Core.List.Permᴰ
use seta.Prelude.{
  ℕ, ◌≡◌, refl, sym, subst, not, List, [], ◌∷◌, ◌++◌, map, append_assoc, Option, none, some, All,
  keep, sort_by-perm, IsCompare, on-IsCompare,
}
use seta.Core.Severity.{Severity}
use seta.Core.Finding.{Finding}
use seta.Engine.{RunResult, Suppressed, compare_findings}
use seta.Engine.Ordered.{compare_findings-IsCompare}
use seta.Config.{
  Suppression, Config, is_expired, first_match, override, place, divide, apply, compare_suppressed,
}
use seta.Prelude.{Map}

module _ (overrides : Map Severity) (active : List Suppression) where
  abbrev findings_of : List Suppressed → List Finding
  findings_of = map (λ (s : Suppressed). s.finding)

  place-perm :
      (f : Finding) (o : Option Suppression) (parts : List Finding × List Suppressed)
      (fs : List Finding)
      → Perm (parts.0 ++ findings_of parts.1) fs
      → Perm ((place f o parts).0 ++ findings_of (place f o parts).1) (f ∷ fs)
  place-perm f none parts fs p = Perm.cons f p
  place-perm f (some s) parts fs p =
      Perm.trans (perm_middle parts.0 (findings_of parts.1)) (Perm.cons f p)

  divide-perm :
      (fs : List Finding)
      → Perm
          ((divide overrides active fs).0 ++ findings_of (divide overrides active fs).1)
          (map (override overrides) fs)
  unfolding divide
  divide-perm [] = Perm.refl _
  divide-perm (f ∷ fs) =
      let rated = override overrides f in
      place-perm rated (first_match active rated) (divide overrides active fs)
        (map (override overrides) fs) (divide-perm fs)

  -- A suppressed finding with the reason and the expiry of the suppression that the code takes.
  abbrev pub IsExplained : Suppressed → Type 0
  IsExplained h =
      (s : Suppression) × (first_match active h.finding ≡ some s)
      × (h.reason ≡ s.reason)
      × (h.expires ≡ s.expires)

  abbrev pub IsDivided : List Finding × List Suppressed → Type 0
  IsDivided (kept, hidden) = All (λ f. first_match active f ≡ none) kept × All IsExplained hidden

  place-IsDivided :
      (f : Finding) (o : Option Suppression) (parts : List Finding × List Suppressed)
      → first_match active f ≡ o
      → IsDivided parts
      → IsDivided (place f o parts)
  place-IsDivided f none parts e h = ((e, h.0), h.1)
  place-IsDivided f (some s) parts e h = (h.0, ((s, e, refl, refl), h.1))

  pub divide-IsDivided : (fs : List Finding) → IsDivided (divide overrides active fs)
  unfolding divide
  divide-IsDivided [] = (tt, tt)
  divide-IsDivided (f ∷ fs) =
      let rated = override overrides f in
      place-IsDivided rated (first_match active rated) (divide overrides active fs) refl
        (divide-IsDivided fs)

pub compare_suppressed-IsCompare : IsCompare compare_suppressed
compare_suppressed-IsCompare =
    on-IsCompare (λ (s : Suppressed). s.finding) compare_findings-IsCompare

-- The suppressions that have not expired.
abbrev pub active_at : ℕ → Config → List Suppression
active_at now c = keep (λ (s : Suppression). not (is_expired now s)) c.suppressions

-- `Apply` loses and invents no finding: what is kept and what is suppressed are together what was
-- found, with its severity overridden, and what had been suppressed before.
pub apply-perm :
    (c : Config) (res : RunResult) (now : ℕ)
    → Perm
        ((apply c res now).1.findings
          ++ map (λ (s : Suppressed). s.finding) (apply c res now).1.suppressed)
        (map (override c.severity_overrides) res.findings
          ++ map (λ (s : Suppressed). s.finding) res.suppressed)
unfolding apply
apply-perm c res now =
    let active = active_at now c in
    let parts = divide c.severity_overrides active res.findings in
    let hidden = map (λ (s : Suppressed). s.finding) parts.1 in
    let found =
      map (override c.severity_overrides) res.findings
      ++ map (λ (s : Suppressed). s.finding) res.suppressed in
    let before = map (λ (s : Suppressed). s.finding) res.suppressed in
    Perm.trans
      (Perm.append (sort_by-perm compare_findings parts.0) (
        Perm.map (λ (s : Suppressed). s.finding)
          (sort_by-perm compare_suppressed (res.suppressed ++ parts.1))))
      (subst (λ fs. Perm (parts.0 ++ fs) found)
        (sym (map-append (λ (s : Suppressed). s.finding) res.suppressed parts.1))
        (Perm.trans (Perm.append_left parts.0 ∣ Permᴰ.append_comm before hidden ∣₁) (
          subst (λ fs. Perm fs found) (append_assoc parts.0 hidden before)
            (Perm.append_right before (divide-perm c.severity_overrides active res.findings)))))
