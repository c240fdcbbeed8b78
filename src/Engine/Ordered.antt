-- ===== src/Engine/Ordered.antt =====
-- The orders of results are orders, and tell findings apart by what is fingerprinted.
use seta.Prelude.{
  ◌≡◌, Ordering, IsCompare, on-IsCompare, <>-IsCompare, flip-IsCompare, compare_bytes-IsCompare,
  compare_int-IsCompare, eq_of_compare_bytes, arith,
}
use seta.Core.Finding.{Finding}
use seta.Engine.{compare_findings, compare_errors, CheckError}

pub compare_findings-IsCompare : IsCompare compare_findings
unfolding compare_findings
compare_findings-IsCompare =
    <>-IsCompare (on-IsCompare (λ (f : Finding). f.target) compare_bytes-IsCompare) (
      <>-IsCompare
        (flip-IsCompare (on-IsCompare (λ (f : Finding). f.severity) compare_int-IsCompare))
        (<>-IsCompare (on-IsCompare (λ (f : Finding). f.check_id) compare_bytes-IsCompare)
          (on-IsCompare (λ (f : Finding). f.subject) compare_bytes-IsCompare)))

pub compare_errors-IsCompare : IsCompare compare_errors
unfolding compare_errors
compare_errors-IsCompare =
    <>-IsCompare (on-IsCompare (λ (e : CheckError). e.target) compare_bytes-IsCompare)
      (on-IsCompare (λ (e : CheckError). e.check_id) compare_bytes-IsCompare)

-- Findings that tie have the same check ID, target and subject.
pub compare_findings-eq :
    (f g : Finding)
    → compare_findings f g ≡ Ordering.eq
    → (f.check_id ≡ g.check_id) × (f.target ≡ g.target) × (f.subject ≡ g.subject)
unfolding compare_findings
compare_findings-eq f g h = (
  eq_of_compare_bytes f.check_id g.check_id (ground arith),
  eq_of_compare_bytes f.target g.target (ground arith),
  eq_of_compare_bytes f.subject g.subject (ground arith),
)

pub compare_errors-eq :
    (d e : CheckError)
    → compare_errors d e ≡ Ordering.eq
    → (d.target ≡ e.target) × (d.check_id ≡ e.check_id)
unfolding compare_errors
compare_errors-eq d e h = (
  eq_of_compare_bytes d.target e.target (ground arith),
  eq_of_compare_bytes d.check_id e.check_id (ground arith),
)
