-- ===== src/State/Record.antt =====
-- `Record`, `loadRows` and `saveRows` of internal/state/diff.go.
use seta.Prelude.{
  ℕ, zero, suc, ◌+◌, Bool, true, false, not, ◌&&◌, List, [], ◌∷◌, ◌++◌, map, Option, none, some,
  if◌then◌else◌, ◌==◌, ◌=?◌, leb, Bytes, Result, ok, err, ◌>>=◌, Map, lookup, insert, keep_keys,
  any, ℤ, pos, negsuc, length, sort_by,
}
use seta.Core.Severity.{severity_string, parse_severity, unset}
use seta.Core.Finding.{Finding, fingerprint_of}
use seta.Core.Target.{Target}
use seta.Engine.{RunResult, Execution, CheckError, Suppressed}
use seta.State.{
  Kind, fresh, persisting, resolved, regressed, Change, Diff, Options, Row, EvidenceText, Stored,
  EventRow, Db, compare_changes,
}

-- A violated primary key.
pub data StateError : Type 0 where
  duplicate_event : Bytes → StateError

-- `resolveAfter := max(opts.ResolveAfter, 1)`
unfoldable pub at_least_one : ℤ → ℕ
at_least_one (negsuc _) = 1
at_least_one (pos zero) = 1
at_least_one (pos (suc n)) = suc n

-- The scan of `loadRows`: a severity that does not parse is unset, and references are not kept.
unfoldable pub scanned : EvidenceText → Bytes → Stored → Row
scanned json fp s = record {
  fp = fp;
  finding = record {
    check_id = s.check_id;
    target = s.target;
    subject = s.subject;
    severity = elim (parse_severity s.severity) [ ok v ↦ v | err _ ↦ unset ];
    title = s.title;
    evidence = json.decode s.evidence;
    remediation = s.remediation;
    references = none;
  };
  is_open = s.is_open;
  suppressed = s.suppressed;
  missing = s.missing_runs;
  first_seen = s.first_seen;
  last_seen = s.last_seen;
  resolved_at = s.resolved_at;
  dirty = false;
  gone = false;
  old_fp = [];
}

module _ (digest : Bytes → Bytes) where
  -- A row whose check was renamed moves to its new fingerprint.
  unfoldable pub renamed : (Bytes → Bytes) → Row → Row
  renamed canonical r =
      let id = canonical r.finding.check_id in
      let f = record r.finding { check_id = id } in
      if id == r.finding.check_id
      then r
      else record r { finding = f; old_fp = r.fp; dirty = true; fp = fingerprint_of digest f }

  -- `loadRows`; a later row takes the place of an earlier one with the same fingerprint.
  unfoldable pub load_onto : EvidenceText → (Bytes → Bytes) → Map Stored → Map Row → Map Row
  load_onto json canonical [] rows = rows
  load_onto json canonical ((fp, s) ∷ rest) rows =
      let r = renamed canonical (scanned json fp s) in
      load_onto json canonical rest (insert r.fp r rows)

  unfoldable pub load_rows : EvidenceText → (Bytes → Bytes) → Map Stored → Map Row
  load_rows json canonical table = load_onto json canonical table []

-- `present`
pub record Present : Type 0 where
  pub finding : Finding
  pub suppressed : Bool

-- `current`: the findings, then the suppressed ones.
unfoldable pub current : RunResult → List Present
current res =
    map (λ (f : Finding). record { finding = f; suppressed = false }) res.findings
    ++ map (λ (s : Suppressed). record { finding = s.finding; suppressed = true }) res.suppressed

-- The `switch` that names the kind of a present finding.
unfoldable pub classify : Option Row → Bool → Kind
classify none suppressed = fresh
classify (some r) suppressed =
    if not r.is_open
    then regressed
    else if r.suppressed && not suppressed
    then fresh
    else persisting

-- The row of a finding that is present.
unfoldable pub touch : ℕ → Bytes → Option Row → Present → Row
touch now fp old p = record {
  fp = elim old [ none ↦ fp | some r ↦ r.fp ];
  finding = p.finding;
  is_open = true;
  suppressed = p.suppressed;
  missing = 0;
  first_seen = elim old [ none ↦ now | some r ↦ r.first_seen ];
  last_seen = now;
  resolved_at = none;
  dirty = true;
  gone = elim old [ none ↦ false | some r ↦ r.gone ];
  old_fp = elim old [ none ↦ [] | some r ↦ r.old_fp ];
}

module _ (digest : Bytes → Bytes) (now : ℕ) where
  -- The loop over the findings that are present.
  unfoldable pub absorb : List Present → Map Row → List Change → Map Row × List Change
  absorb [] rows changes = (rows, changes)
  absorb (p ∷ ps) rows changes =
      let fp = fingerprint_of digest p.finding in
      let old = lookup fp rows in
      let r = touch now fp old p in
      absorb ps (insert fp r rows) (
        changes
        ++ (record {
          kind = classify old p.suppressed;
          finding = p.finding;
          suppressed = p.suppressed;
          first_seen = r.first_seen;
        }
            ∷ []))

-- `targets` and `ran`, without the executions that erred.
pub record Scope : Type 0 where
  pub has_target : Bytes → Bool
  pub has_run : Bytes → Bytes → Bool

unfoldable pub scope_of : RunResult → Scope
scope_of res = record {
  has_target = λ name. any (λ (t : Target). t.name == name) res.targets;
  has_run = λ target id.
      any (λ (e : Execution). e.target == target && e.check_id == id) res.ran
      && not (any (λ (e : CheckError). e.target == target && e.check_id == id) res.errors);
}

-- The `switch` of the loop over the rows.
unfoldable pub sweep_row : ℕ → ℕ → Scope → Bool → Row → Row
sweep_row now after scope seen r =
    if seen
    then r
    else if not (scope.has_target r.finding.target)
    then record r { gone = true }
    else if r.is_open && scope.has_run r.finding.target r.finding.check_id
    then (if leb after (r.missing + 1)
        then record r { missing = 0; dirty = true; is_open = false; resolved_at = some now }
        else record r { missing = r.missing + 1; dirty = true })
    else r

-- The change that the `switch` appends.
unfoldable pub sweep_change : ℕ → Scope → Bool → Row → List Change
sweep_change after scope seen r =
    if not seen
      && scope.has_target r.finding.target
      && (r.is_open && scope.has_run r.finding.target r.finding.check_id)
      && leb after (r.missing + 1)
    then (record {
      kind = resolved;
      finding = r.finding;
      suppressed = r.suppressed;
      first_seen = r.first_seen;
    }
        ∷ [])
    else []

abbrev pub counts : Row → Bool
counts r = r.is_open && not r.suppressed && not r.gone

-- The loop over the rows: the rows, the changes and the number of open findings.
unfoldable pub sweep : ℕ → ℕ → Scope → (Bytes → Bool) → Map Row → Map Row × List Change × ℕ
sweep now after scope seen [] = ([], [], 0)
sweep now after scope seen ((fp, r) ∷ rest) =
    let (rows, changes, open_count) = sweep now after scope seen rest in
    let after_sweep = sweep_row now after scope (seen fp) r in
    (
      (fp, after_sweep) ∷ rows,
      sweep_change after scope (seen fp) r ++ changes,
      (if counts after_sweep then 1 else 0) + open_count,
    )

-- `ON CONFLICT (fingerprint) DO UPDATE`: target, subject and first_seen stay.
unfoldable pub store_over : EvidenceText → Option Stored → Row → Stored
store_over json old r = record {
  check_id = r.finding.check_id;
  target = elim old [ none ↦ r.finding.target | some s ↦ s.target ];
  subject = elim old [ none ↦ r.finding.subject | some s ↦ s.subject ];
  severity = severity_string r.finding.severity;
  title = r.finding.title;
  evidence = json.encode r.finding.evidence;
  remediation = r.finding.remediation;
  is_open = r.is_open;
  suppressed = r.suppressed;
  missing_runs = r.missing;
  first_seen = elim old [ none ↦ r.first_seen | some s ↦ s.first_seen ];
  last_seen = r.last_seen;
  resolved_at = r.resolved_at;
}

-- `DELETE FROM findings WHERE fingerprint = ?`
unfoldable pub delete_fp : Bytes → Map Stored → Map Stored
delete_fp fp = keep_keys (λ k. not (k == fp))

-- The row of the old fingerprint goes first.
unfoldable pub without : Bytes → Map Stored → Map Stored
without [] table = table
without (c ∷ cs) table = delete_fp (c ∷ cs) table

-- The body of the loop of `saveRows`.
unfoldable pub save_row : EvidenceText → Row → Map Stored → Map Stored
save_row json r table =
    let kept = without r.old_fp table in
    if r.gone
    then delete_fp r.fp kept
    else if not r.dirty
    then kept
    else insert r.fp (store_over json (lookup r.fp kept) r) kept

-- `saveRows`
unfoldable pub save_rows : EvidenceText → Map Row → Map Stored → Map Stored
save_rows json [] table = table
save_rows json ((_, r) ∷ rest) table = save_rows json rest (save_row json r table)

abbrev pub is_persisting : Kind → Bool
is_persisting persisting = true
is_persisting _ = false

module _ (digest : Bytes → Bytes) where
  -- The loop that inserts the events; its key is the run and the fingerprint.
  unfoldable pub insert_events : ℕ → List Change → List EventRow → Result StateError (List EventRow)
  insert_events run [] events = ok events
  insert_events run (c ∷ cs) events =
      let fp = fingerprint_of digest c.finding in
      let skipped = insert_events run cs events in
      let added = insert_events run cs (
        record {
          run_id = run;
          fp = fp;
          kind = c.kind;
          severity = severity_string c.finding.severity;
        }
        ∷ events) in
      if is_persisting c.kind
      then skipped
      else if any (λ (e : EventRow). e.run_id =? run && e.fp == fp) events
      then err (duplicate_event fp)
      else added

  -- From `loadRows` up to `saveRows`: the rows, the changes and the number of open findings.
  unfoldable pub update :
      EvidenceText → RunResult → Options → Map Stored → Map Row × List Change × ℕ
  update json res opts table =
      let now = res.started + res.duration in
      let rows = load_rows digest json opts.canonical table in
      let (present, changes) = absorb digest now (current res) rows [] in
      let seen = λ (fp : Bytes).
        any (λ (p : Present). fingerprint_of digest p.finding == fp) (current res) in
      let (swept, resolved_changes, open_count) =
        sweep now (at_least_one opts.resolve_after) (scope_of res) seen present in
      (swept, changes ++ resolved_changes, open_count)

  -- The diff and the database of a run that is committed.
  abbrev pub committed :
      EvidenceText → RunResult → Db → Map Row × List Change × ℕ → List EventRow → Diff × Db
  committed json res db (rows, changes, open_count) events =
      let run_id = suc db.last_id in
      (
        record {
          run_id = run_id;
          started = res.started;
          duration = res.duration;
          targets = map (λ (t : Target). t.name) res.targets;
          changes = sort_by compare_changes changes;
          errors = res.errors;
          open_count = open_count;
        },
        record {
          last_id = run_id;
          runs =
              record {
                id = run_id;
                started_at = res.started;
                duration_ms = res.duration;
                checks_run = res.executions;
                finding_count = length res.findings;
                check_errors = length res.errors;
              }
              ∷ db.runs;
          findings = save_rows json rows db.findings;
          events = events;
          kv = db.kv;
        },
      )

  -- `Store.Record`
  unfoldable pub record_run :
      EvidenceText → RunResult → Options → Db → Result StateError (Diff × Db)
  record_run json res opts db =
      let updated = update json res opts db.findings in
      do
        events ← insert_events (suc db.last_id) updated.1 db.events
        ok (committed json res db updated events)
