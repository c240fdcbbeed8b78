-- ===== src/Tests/NotifyTests.antt =====
-- Tests and instances for internal/notify.
use seta.Prelude.{true, false, [], ◌∷◌, none, some, codes}
use seta.Core.Severity.{low}
use seta.State.{fresh, persisting, Change, Diff}
use seta.Notify.Deliver.{Texts, Channel}
use seta.Tests.StateTests.{kept_finding}

abbrev reported : Change
reported = record { kind = fresh; finding = kept_finding; suppressed = false; first_seen = 50 }

abbrev again : Change
again = record reported { kind = persisting }

abbrev texts : Texts
texts = record {
  encode = λ cs. [];
  decode = λ b. reported ∷ [];
  format = λ t. [];
  parse = λ b. none;
}

abbrev channel : Channel
channel = record {
  name = codes "ops";
  rule = record { on = λ k. true; min_severity = low; heartbeat = 0 };
  send = λ m. some (codes "refused");
}

abbrev diff : Diff
diff = record {
  run_id = 1;
  started = 50;
  duration = 5;
  targets = [];
  changes = reported ∷ [];
  errors = [];
  open_count = 1;
}
