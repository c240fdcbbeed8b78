-- ===== src/Engine.antt =====
-- internal/engine/engine.go: results of a run, the normal form of a check's findings, and the
-- order of results.
pub mod Normal
pub mod Ordered
pub mod Run
pub mod Schedule
use seta.Prelude.{
  ℕ, ◌≡◌, Bool, true, false, ◌||◌, List, [], ◌∷◌, ◌++◌, Option, none, some, if◌then◌else◌, ◌==◌,
  Bytes, Result, ok, err, ◌>>=◌, ◌>>◌, check, is_empty, any, sort_by, compare_bytes, compare_int,
  ◌<>◌, Ordering, ℤ, pos,
}
use seta.Core.Severity.{Severity, is_valid}
use seta.Core.Finding.{Finding}
use seta.Core.Target.{Target}
use seta.Core.Check.{Meta}

pub record Suppressed : Type 0 where
  pub finding : Finding
  pub reason : Bytes
  -- `none` is Go's zero time: it does not expire.
  pub expires : Option ℕ

pub record Execution : Type 0 where
  pub target : Bytes
  pub check_id : Bytes

pub data NormalError : Type 0 where
  repeated_subject foreign_check foreign_target : Bytes → NormalError
  bad_severity : Severity → NormalError

-- Why an execution has no findings; an error of the check's own may have met the deadline too.
pub data RunError : Type 0 where
  canceled_before canceled timed_out panicked timed_out_panicked : RunError
  failed timed_out_with : Bytes → RunError
  not_normal : NormalError → RunError

pub record CheckError : Type 0 where
  pub check_id : Bytes
  pub target : Bytes
  pub error : RunError

-- `Result`; times are in milliseconds.
pub record RunResult : Type 0 where
  pub started : ℕ
  pub duration : ℕ
  pub targets : List Target
  pub executions : ℕ
  pub ran : List Execution
  pub findings : List Finding
  pub errors : List CheckError
  pub checks : List Meta
  pub suppressed : List Suppressed
  pub baselined : List Finding

-- `CompareFindings`
unfoldable pub compare_findings : Finding → Finding → Ordering
compare_findings a b =
    compare_bytes a.target b.target
    <> compare_int b.severity a.severity
    <> compare_bytes a.check_id b.check_id
    <> compare_bytes a.subject b.subject

-- The comparison that sorts `Errors`.
unfoldable pub compare_errors : CheckError → CheckError → Ordering
compare_errors a b = compare_bytes a.target b.target <> compare_bytes a.check_id b.check_id

-- A field that is empty takes its default.
abbrev default_to : Bytes → Bytes → Bytes
default_to given fallback = if is_empty given then fallback else given

abbrev is_unset : Severity → Bool
is_unset s = elim (compare_int s (pos 0)) [ Ordering.eq ↦ true | _ ↦ false ]

-- The body of the loop of `normalize`, behind the test of the subject.
unfoldable pub normalize_one : Meta → Target → Finding → Result NormalError Finding
normalize_one m t f = do
  check (is_empty f.check_id || f.check_id == m.id) (foreign_check f.check_id)
  check (is_empty f.target || f.target == t.name) (foreign_target f.target)
  check (is_unset f.severity || is_valid f.severity) (bad_severity f.severity)
  ok (record {
    check_id = default_to f.check_id m.id;
    target = default_to f.target t.name;
    subject = f.subject;
    severity = if is_unset f.severity then m.severity else f.severity;
    title = default_to f.title m.title;
    evidence = f.evidence;
    remediation = default_to f.remediation m.remediation;
    references = elim f.references [ none ↦ m.references | some refs ↦ some refs ];
  })

-- The loop of `normalize` over the subjects seen so far.
unfoldable pub normalize_from :
    Meta → Target → List Bytes → List Finding → Result NormalError (List Finding)
normalize_from m t seen [] = ok []
normalize_from m t seen (f ∷ fs) =
    let more = normalize_from m t (f.subject ∷ seen) fs in
    if any (λ s. s == f.subject) seen
    then err (repeated_subject f.subject)
    else do g ← normalize_one m t f; rest ← more; ok (g ∷ rest)

-- `normalize`
unfoldable pub normalize : Meta → Target → List Finding → Result NormalError (List Finding)
normalize m t findings = normalize_from m t [] findings
