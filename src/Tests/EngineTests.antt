-- ===== src/Tests/EngineTests.antt =====
-- Tests and instances for internal/engine.
use mathlib.Core.List.{Permᴰ}
use seta.Prelude.{
  ◌≡◌, refl, false, List, [], ◌∷◌, map, codes, ok, arith, All, Pairs, is_empty, ◌==◌, compare_int,
}
use seta.Core.Severity.{high, is_valid}
use seta.Core.Finding.{Finding, fingerprint_input}
use seta.Core.Check.{Meta}
use seta.Engine.{normalize, normalize_from, normalize_one}
use seta.Engine.Normal.{IsNormal, normalize_lem}
use seta.Engine.Run.{Task, Job, run, findings, failure}
use seta.Engine.Schedule.{run_any_order}
use seta.Tests.Samples.{spf_meta, site, raw_finding}

abbrev filled : Finding
filled = record raw_finding {
  check_id = codes "email.spf.missing";
  target = codes "a.example";
  severity = high;
  title = codes "No SPF";
  remediation = codes "publish one";
}

normalized : normalize spf_meta site (raw_finding ∷ []) ≡ ok (filled ∷ [])
unfolding normalize normalize_from normalize_one is_valid is_empty compare_int ◌==◌
normalized = refl

normalize_lem_example :
    All (IsNormal spf_meta site) (filled ∷ [])
    × (map (λ (f : Finding). f.subject) (filled ∷ [])
        ≡ map (λ (f : Finding). f.subject) (raw_finding ∷ []))
    × Pairs
        (λ f g. ¬ (
          fingerprint_input f.check_id f.target f.subject
          ≡ fingerprint_input g.check_id g.target g.subject))
        (filled ∷ [])
unfolding is_valid
normalize_lem_example =
    normalize_lem spf_meta site (raw_finding ∷ []) refl (omega arith, omega arith) normalized

abbrev dkim_meta : Meta
dkim_meta = record spf_meta { id = codes "email.dkim.missing"; aliases = [] }

abbrev found_task : Task
found_task = record {
  info = spf_meta;
  target = site;
  attempt = record {
    ended_before = false;
    ended = false;
    deadline = false;
    arrival = findings (raw_finding ∷ []);
  };
}

abbrev failed_task : Task
failed_task = record {
  info = dkim_meta;
  target = site;
  attempt = record {
    ended_before = false;
    ended = false;
    deadline = false;
    arrival = failure (codes "refused");
  };
}

abbrev jobs : List Job
jobs =
    record {
      target = site;
      checks = (spf_meta, found_task.attempt) ∷ (dkim_meta, failed_task.attempt) ∷ [];
    }
    ∷ []

run_any_order_example :
    run 5 9 jobs (found_task ∷ failed_task ∷ []) ≡ run 5 9 jobs (failed_task ∷ found_task ∷ [])
unfolding is_valid
run_any_order_example =
    run_any_order 5 9 jobs (Permᴰ.swap refl refl) (refl, (refl, tt))
      (((λ h. ground (arith, h.1)), tt), (tt, tt))
