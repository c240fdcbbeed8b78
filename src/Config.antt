-- ===== src/Config.antt =====
-- internal/config: what the configuration does to the findings of a run.
pub mod Apply
pub mod Divided
use seta.Prelude.{
  ℕ, Bool, true, false, not, ◌&&◌, ◌||◌, List, [], ◌∷◌, ◌++◌, Option, none, some, if◌then◌else◌,
  leb, ◌==◌, Bytes, Map, lookup, any, keep, is_empty, sort_by, Ordering,
}
use seta.Core.Severity.{Severity}
use seta.Core.Finding.{Finding}
use seta.Engine.{RunResult, Suppressed, compare_findings}

-- `ids` are the IDs of the checks that the pattern `check` names; `expires` is `none` for Go's zero
-- time.
pub record Suppression : Type 0 where
  pub check : Bytes
  pub target : Bytes
  pub subject : Bytes
  pub reason : Bytes
  pub expires : Option ℕ
  pub ids : List Bytes

-- `Suppression.Matches`
unfoldable pub suppresses : Suppression → Finding → Bool
suppresses s f =
    any (λ (id : Bytes). id == f.check_id) s.ids
    && (is_empty s.target || s.target == f.target)
    && (is_empty s.subject || s.subject == f.subject)

-- `Suppression.Expired`
unfoldable pub is_expired : ℕ → Suppression → Bool
is_expired now s = elim s.expires [ none ↦ false | some at ↦ leb at now ]

-- `firstMatch`
unfoldable pub first_match : List Suppression → Finding → Option Suppression
first_match [] f = none
first_match (s ∷ sups) f = if suppresses s f then some s else first_match sups f

-- `SeverityOverrides` on one finding
unfoldable pub override : Map Severity → Finding → Finding
override overrides f = elim (lookup f.check_id overrides) [
  | none ↦ f
  | some severity ↦ record f { severity = severity }
]

abbrev pub suppressed_by : Finding → Suppression → Suppressed
suppressed_by f s = record { finding = f; reason = s.reason; expires = s.expires }

-- The body of the loop of `Apply`, with what the findings behind this one come to.
abbrev pub place :
    Finding → Option Suppression → List Finding × List Suppressed → List Finding × List Suppressed
place f none (kept, hidden) = (f ∷ kept, hidden)
place f (some s) (kept, hidden) = (kept, suppressed_by f s ∷ hidden)

-- The loop of `Apply` over the findings: those that are kept and those that are suppressed.
unfoldable pub divide :
    Map Severity → List Suppression → List Finding → List Finding × List Suppressed
divide overrides active [] = ([], [])
divide overrides active (f ∷ fs) =
    let rated = override overrides f in
    place rated (first_match active rated) (divide overrides active fs)

pub record Config : Type 0 where
  pub severity_overrides : Map Severity
  pub suppressions : List Suppression

abbrev pub compare_suppressed : Suppressed → Suppressed → Ordering
compare_suppressed a b = compare_findings a.finding b.finding

-- `Config.Apply`: the expired suppressions and the result.
unfoldable pub apply : Config → RunResult → ℕ → List Suppression × RunResult
apply c res now =
    let active = keep (λ (s : Suppression). not (is_expired now s)) c.suppressions in
    let (kept, hidden) = divide c.severity_overrides active res.findings in
    (
      keep (is_expired now) c.suppressions,
      record res {
        findings = sort_by compare_findings kept;
        suppressed = sort_by compare_suppressed (res.suppressed ++ hidden);
      },
    )
