-- ===== src/Engine/Run.antt =====
-- `runOne` and `Run` of internal/engine/engine.go. The scheduler, the clock and what a check does
-- are its environment: an `Attempt` says what came of an execution, and `completed` in which order
-- the executions ended.
use seta.Prelude.{
  ℕ, ◌-◌, Bool, not, ◌&&◌, List, [], ◌∷◌, ◌++◌, map, if◌then◌else◌, Bytes, Result, ok, err, length,
  sort_by, compare_bytes, Map, insert, values,
}
use seta.Core.Finding.{Finding}
use seta.Core.Target.{Target}
use seta.Core.Check.{Meta}
use seta.Engine.{
  RunError, canceled_before, canceled, timed_out, panicked, timed_out_panicked, failed,
  timed_out_with, not_normal, CheckError, RunResult, normalize, compare_findings, compare_errors,
}

-- What arrived on the channel `done`, if anything did before the deadline.
pub data Arrival : Type 0 where
  nothing panic : Arrival
  findings : List Finding → Arrival
  failure : Bytes → Arrival

pub record Attempt : Type 0 where
  -- `ctx.Err() != nil` before the check starts, and when it is over
  pub ended_before : Bool
  pub ended : Bool
  -- `cctx.Err()` is `DeadlineExceeded` when the check is over
  pub deadline : Bool
  pub arrival : Arrival

-- The error that a check's own error becomes.
unfoldable pub own_error : Attempt → Bytes → RunError
own_error a e = if a.deadline && not a.ended then timed_out_with e else failed e

-- The error that a panic becomes.
unfoldable pub panic_error : Attempt → RunError
panic_error a = if a.deadline && not a.ended then timed_out_panicked else panicked

-- `runOne` from the `select` on.
unfoldable pub settle : Meta → Target → Attempt → Arrival → Result RunError (List Finding)
settle m t a nothing = err (if a.ended then canceled else timed_out)
settle m t a panic = err (panic_error a)
settle m t a (failure e) = err (own_error a e)
settle m t a (findings fs) = elim (normalize m t fs) [
  | ok out ↦ ok out
  | err e ↦ err (not_normal e)
]

-- `runOne`
unfoldable pub run_one : Meta → Target → Attempt → Result RunError (List Finding)
run_one m t a = if a.ended_before then err canceled_before else settle m t a a.arrival

-- An execution: a check, its target and what comes of it.
pub record Task : Type 0 where
  pub info : Meta
  pub target : Target
  pub attempt : Attempt

abbrev pub outcome : Task → Result RunError (List Finding)
outcome t = run_one t.info t.target t.attempt

-- `res.Findings` and `res.Errors` as the executions end.
unfoldable pub collect : List Task → List Finding → List CheckError → List Finding × List CheckError
collect [] fs es = (fs, es)
collect (t ∷ ts) fs es = elim (outcome t) [
  | ok found ↦ collect ts (fs ++ found) es
  | err e ↦
      collect ts fs
        (es ++ (record { check_id = t.info.id; target = t.target.name; error = e } ∷ []))
]

-- A target with the checks to run against it, and what comes of each.
pub record Job : Type 0 where
  pub target : Target
  pub checks : List (Meta × Attempt)

abbrev job_tasks : Target → List (Meta × Attempt) → List Task
job_tasks t [] = []
job_tasks t ((m, a) ∷ cs) = record { info = m; target = t; attempt = a } ∷ job_tasks t cs

-- The executions in job order.
unfoldable pub tasks : List Job → List Task
tasks [] = []
tasks (j ∷ js) = job_tasks j.target j.checks ++ tasks js

unfoldable pub metas : List Task → Map Meta → Map Meta
metas [] m = m
metas (t ∷ ts) m = metas ts (insert t.info.id t.info m)

-- `Run`; `completed` holds the executions of `jobs` in the order in which they end.
unfoldable pub run : ℕ → ℕ → List Job → List Task → RunResult
run started ended jobs completed =
    let (fs, es) = collect completed [] [] in
    record {
      started = started;
      duration = ended - started;
      targets = map (λ (j : Job). j.target) jobs;
      executions = length (tasks jobs);
      ran =
          map (λ (t : Task). record { target = t.target.name; check_id = t.info.id }) (tasks jobs);
      findings = sort_by compare_findings fs;
      errors = sort_by compare_errors es;
      checks = sort_by (λ (a b : Meta). compare_bytes a.id b.id) (values (metas (tasks jobs) []));
      suppressed = [];
      baselined = [];
    }
