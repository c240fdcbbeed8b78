-- ===== src/Tests/FilterTests.antt =====
-- Tests and instances for internal/config and internal/baseline.
use mathlib.Core.List.{Perm}
use seta.Prelude.{◌≡◌, refl, not, [], ◌∷◌, ◌++◌, map, some, codes, All, keep, IsSortedBy}
use seta.Core.Severity.{low}
use seta.Engine.{Suppressed, compare_findings}
use seta.Config.{Suppression, Config, override, apply, compare_suppressed}
use seta.Config.Apply.{apply-perm}
use seta.Config.Divided.{Hides, IsHidden, apply-divides}
use seta.Baseline.{File, new_file, known_of}
use seta.Baseline
use seta.Baseline.Known.{is_listed, apply_lem, apply-new_file}
use seta.Baseline.Gone.{count, occurs, apply-gone}
use seta.Tests.StateTests.{itself, kept_finding, loud_run}

abbrev accepted : Suppression
accepted = record {
  check = codes "spf";
  target = [];
  subject = codes "mx";
  reason = codes "parked";
  expires = some 200;
  ids = codes "spf" ∷ [];
}

abbrev config : Config
config = record {
  severity_overrides = (codes "spf", low) ∷ [];
  suppressions =
      record accepted { expires = some 90 }
      ∷ record accepted { target = codes "b.example" }
      ∷ accepted
      ∷ record accepted { reason = codes "later" }
      ∷ [];
}

apply-perm_example :
    Perm
      ((apply config loud_run 100).1.findings
        ++ map (λ (s : Suppressed). s.finding) (apply config loud_run 100).1.suppressed)
      (map (override config.severity_overrides) loud_run.findings
        ++ map (λ (s : Suppressed). s.finding) loud_run.suppressed)
apply-perm_example = apply-perm config loud_run 100

apply-divides_example :
    All (λ f. All (λ s. ¬ Hides 100 f s) config.suppressions) (apply config loud_run 100).1.findings
    × All (IsHidden 100 config.suppressions) (apply config loud_run 100).1.suppressed
    × IsSortedBy compare_findings (apply config loud_run 100).1.findings
    × IsSortedBy compare_suppressed (apply config loud_run 100).1.suppressed
apply-divides_example = apply-divides config loud_run 100 refl

abbrev known_file : File
known_file = new_file itself (kept_finding ∷ [])

apply_lem_example :
    ((Baseline.apply itself itself known_file loud_run).1.findings
      ≡ keep (λ x. not (is_listed itself itself known_file.findings x)) loud_run.findings)
    × ((Baseline.apply itself itself known_file loud_run).1.baselined
        ≡ loud_run.baselined
          ++ keep (is_listed itself itself known_file.findings) loud_run.findings)
apply_lem_example = apply_lem itself itself known_file loud_run

apply-gone_example :
    (Baseline.apply itself itself known_file loud_run).0
    ≡ count
        (λ k. not (occurs itself loud_run.findings k))
        (known_of itself itself known_file.findings)
apply-gone_example = apply-gone itself itself known_file loud_run

apply-new_file_example :
    ((Baseline.apply itself itself known_file loud_run).1.findings ≡ [])
    × ((Baseline.apply itself itself known_file loud_run).1.baselined
        ≡ loud_run.baselined ++ loud_run.findings)
apply-new_file_example = apply-new_file itself itself loud_run (refl, tt)
