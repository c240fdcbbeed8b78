-- ===== src/Tests/StateTests.antt =====
-- Tests and instances for internal/state.
use seta.Prelude.{
  ◌≡◌, refl, true, false, [], ◌∷◌, ◌++◌, none, some, Bytes, codes, ok, arith, pos, lookup, keep,
  insert, ◌==◌, lower_ascii, trim_space,
}
use seta.Core.Severity.{high, severity_string, parse_severity}
use seta.Core.Finding.{Finding, fingerprint_of, fingerprint, fingerprint_input, NoNul}
use seta.Engine.{RunResult}
use seta.State.{fresh, EvidenceText, Stored, Options, Db, Diff, EventRow, empty_db}
use seta.State.Record.{
  record_run, update, committed, current, scope_of, at_least_one, insert_events, sweep, sweep_row,
  sweep_change, absorb, load_rows, load_onto, renamed, scanned, save_rows, save_row, without,
  delete_fp, store_over,
}
use seta.State.Absorb.{find_present}
use seta.State.Machine.{next}
use seta.State.Refine.{lookup-record_run}
use seta.State.Total.{record_run-IsOk}
use seta.State.Sound.{IsSound, record_run-IsSound}
use seta.State.History.{no_run, one_more, IsOpenAt, Recorded-resolves, Recorded-stays_open}
use seta.State.Store.{prune, max_id, Left, has_run, max_id-prune, lookup-prune, events-prune}
use seta.Tests.Samples.{site, raw_finding}

abbrev pub itself : Bytes → Bytes
itself b = b

-- The value of the first fact.
abbrev text : EvidenceText
text = record {
  encode = λ facts. elim facts [ [] ↦ [] | (name, value) ∷ _ ↦ value ];
  decode = λ column. (codes "record", column) ∷ [];
}

abbrev options : Options
options = record { resolve_after = pos 2; canonical = itself }

abbrev pub kept_finding : Finding
kept_finding = record raw_finding {
  check_id = codes "spf";
  target = codes "a.example";
  severity = high;
}

abbrev pub quiet_run : RunResult
quiet_run = record {
  started = 100;
  duration = 5;
  targets = site ∷ [];
  executions = 1;
  ran = record { target = codes "a.example"; check_id = codes "spf" } ∷ [];
  findings = [];
  errors = [];
  checks = [];
  suppressed = [];
  baselined = [];
}

abbrev pub loud_run : RunResult
loud_run = record quiet_run { findings = kept_finding ∷ [] }

abbrev pub key : Bytes
key = codes "spf" ++ (0 ∷ (codes "a.example" ++ (0 ∷ codes "mx")))

abbrev open_row : Stored
open_row = record {
  check_id = codes "spf";
  target = codes "a.example";
  subject = codes "mx";
  severity = codes "high";
  title = [];
  evidence = [];
  remediation = [];
  is_open = true;
  suppressed = false;
  missing_runs = 0;
  first_seen = 50;
  last_seen = 50;
  resolved_at = none;
}

abbrev db : Db
db = record empty_db { last_id = 1; findings = (key, open_row) ∷ [] }

abbrev missed : Diff × Db
missed = committed itself text quiet_run db (update itself text quiet_run options db.findings) []

abbrev closed : Diff × Db
closed =
    committed itself text quiet_run missed.1
      (update itself text quiet_run options missed.1.findings)
      (record { run_id = 3; fp = key; kind = seta.State.resolved; severity = codes "high" } ∷ [])

missed_lem : record_run itself text quiet_run options db ≡ ok missed
unfolding record_run update load_rows load_onto renamed scanned absorb current scope_of sweep
    sweep_row sweep_change at_least_one insert_events insert ◌==◌ parse_severity
missed_lem = refl

closed_lem : record_run itself text quiet_run options missed.1 ≡ ok closed
unfolding record_run update load_rows load_onto renamed scanned absorb current scope_of sweep
    sweep_row sweep_change at_least_one insert_events insert ◌==◌ save_rows save_row without
    delete_fp store_over fingerprint_of fingerprint fingerprint_input lookup severity_string
    parse_severity lower_ascii trim_space
closed_lem = refl

lookup-record_run_example :
    lookup key missed.1.findings
    ≡ next text 105
        (at_least_one options.resolve_after)
        (scope_of quiet_run)
        (find_present itself key (current quiet_run))
        (lookup key db.findings)
unfolding current lookup
lookup-record_run_example =
    lookup-record_run itself text quiet_run options db missed.1 missed.0 missed_lem (refl, tt)
      (refl, tt) tt key

record_run-IsOk_example : (out : Diff × Db) × (record_run itself text loud_run options db ≡ ok out)
unfolding current scanned fingerprint_of fingerprint fingerprint_input
record_run-IsOk_example =
    record_run-IsOk itself text loud_run options db (refl, tt) (refl, tt) tt (tt, tt)

spf_clean : NoNul (codes "spf")
spf_clean = (omega arith, (omega arith, (omega arith, tt)))

name_clean : NoNul (codes "a.example")
name_clean = (
  omega arith,
  (
    omega arith,
    (
      omega arith,
      (omega arith, (omega arith, (omega arith, (omega arith, (omega arith, (omega arith, tt)))))),
    ),
  ),
)

db-IsSound : IsSound itself itself db
unfolding lookup fingerprint fingerprint_input
db-IsSound = record {
  rows_good = ((refl, refl, spf_clean, name_clean), tt);
  keys_unique = (refl, tt);
  events_bounded = tt;
}

record_run-IsSound_example : IsSound itself itself missed.1
unfolding current
record_run-IsSound_example =
    record_run-IsSound itself text quiet_run options db missed.1 missed.0 (λ a b e. e) db-IsSound tt
      tt missed_lem

Recorded-stays_open_example :
    IsSound itself itself missed.1
    × ((last : Stored) × (lookup key missed.1.findings ≡ some last)
        × IsOpenAt itself text options 1 (codes "a.example") (codes "spf") last)
unfolding current scope_of at_least_one lookup ◌==◌
Recorded-stays_open_example =
    Recorded-stays_open itself text options db missed.1 (quiet_run ∷ []) key (codes "a.example")
      (codes "spf") 0 open_row (λ a b e. e) db-IsSound ((tt, tt), tt) ((refl, refl, refl), tt) refl
      (refl, refl, refl, refl) (omega arith)
      (one_more db missed.1 missed.1 missed.0 quiet_run [] missed_lem (no_run missed.1))

Recorded-resolves_example :
    (last : Stored) × (lookup key closed.1.findings ≡ some last)
    × (last.is_open ≡ false)
    × (last.resolved_at ≡ some 105)
unfolding current scope_of at_least_one lookup ◌==◌
Recorded-resolves_example =
    Recorded-resolves itself text options db closed.1 quiet_run (quiet_run ∷ []) key
      (codes "a.example") (codes "spf") 0 open_row (λ a b e. e) db-IsSound
      ((tt, tt), ((tt, tt), tt)) ((refl, refl, refl), ((refl, refl, refl), tt)) refl
      (refl, refl, refl, refl) refl
      (one_more db missed.1 closed.1 missed.0 quiet_run (quiet_run ∷ []) missed_lem
        (one_more missed.1 closed.1 closed.1 closed.0 quiet_run [] closed_lem (no_run closed.1)))

max_id-prune_example : max_id (prune 200 closed.1).1.runs ≡ max_id closed.1.runs
max_id-prune_example = max_id-prune 200 closed.1

-- `closed` with a run that is too early and its event, and the row of a finding that is closed.
abbrev aged : Db
aged = record closed.1 {
  runs =
      record {
        id = 1;
        started_at = 1;
        duration_ms = 0;
        checks_run = 1;
        finding_count = 1;
        check_errors = 0;
      }
      ∷ closed.1.runs;
  events = record { run_id = 1; fp = key; kind = fresh; severity = codes "high" } ∷ closed.1.events;
  findings = (key, record open_row { is_open = false; resolved_at = some 105 }) ∷ [];
}

lookup-prune_example : Left 200 (lookup key aged.findings) (lookup key (prune 200 aged).1.findings)
unfolding lookup
lookup-prune_example = lookup-prune 200 aged key (refl, tt)

events-prune_example :
    (prune 200 aged).1.events ≡ keep (has_run (prune 200 aged).1.runs) aged.events
events-prune_example =
    events-prune 200 aged ((omega arith, (omega arith, tt)), ((omega arith, tt), (tt, tt)))
      (refl, (refl, tt))
