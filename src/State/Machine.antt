-- ===== src/State/Machine.antt =====
-- What a run does with the row of one fingerprint, described without the maps of the code.
use seta.Prelude.{
  ℕ, suc, ◌≡◌, refl, true, false, not, ◌&&◌, Option, none, some, arith, if◌then◌else◌, leb, Bytes,
  ok, err,
}
use seta.Core.Severity.{severity_string, parse_severity, unset}
use seta.State.{Row, EvidenceText, Stored}
use seta.State.Record.{Present, Scope, scanned, touch, sweep_row, store_over}
use seta.State.Save.{stored}

module _ (json : EvidenceText) where
  -- A row that is written again has its severity spelled by `String`, and its evidence written anew
  -- from what was read of it.
  abbrev pub respelled : Stored → Stored
  respelled s = record s {
    severity = severity_string (elim (parse_severity s.severity) [ ok v ↦ v | err _ ↦ unset ]);
    evidence = json.encode (json.decode s.evidence);
  }

  -- The row of a finding that a run has.
  abbrev pub reported : ℕ → Option Stored → Present → Stored
  reported now old p = record {
    check_id = p.finding.check_id;
    target = elim old [ none ↦ p.finding.target | some s ↦ s.target ];
    subject = elim old [ none ↦ p.finding.subject | some s ↦ s.subject ];
    severity = severity_string p.finding.severity;
    title = p.finding.title;
    evidence = json.encode p.finding.evidence;
    remediation = p.finding.remediation;
    is_open = true;
    suppressed = p.suppressed;
    missing_runs = 0;
    first_seen = elim old [ none ↦ now | some s ↦ s.first_seen ];
    last_seen = now;
    resolved_at = none;
  }

  -- The row of a finding that a run does not have.
  abbrev pub unreported : ℕ → ℕ → Scope → Stored → Option Stored
  unreported now after scope s =
      if not (scope.has_target s.target)
      then none
      else if not (s.is_open && scope.has_run s.target s.check_id)
      then some s
      else if leb after (suc s.missing_runs)
      then some (record (respelled s) { is_open = false; missing_runs = 0; resolved_at = some now })
      else some (record (respelled s) { missing_runs = suc s.missing_runs })

  abbrev pub next : ℕ → ℕ → Scope → Option Present → Option Stored → Option Stored
  next now after scope (some p) old = some (reported now old p)
  next now after scope none none = none
  next now after scope none (some s) = unreported now after scope s

  abbrev pub scanned_of : Bytes → Option Stored → Option Row
  scanned_of fp none = none
  scanned_of fp (some s) = some (scanned json fp s)

  -- The row of a fingerprint behind the loop over the rows.
  abbrev pub row_of : ℕ → ℕ → Scope → Bytes → Option Present → Option Stored → Option Row
  row_of now after scope fp (some p) old = some (touch now fp (scanned_of fp old) p)
  row_of now after scope fp none none = none
  row_of now after scope fp none (some s) =
      some (sweep_row now after scope false (scanned json fp s))

  pub stored-row_of :
      (now after : ℕ) (scope : Scope) (fp : Bytes) (found : Option Present) (old : Option Stored)
      → stored json (row_of now after scope fp found old) old ≡ next now after scope found old
  unfolding touch scanned store_over sweep_row
  stored-row_of now after scope fp (some p) none = refl
  stored-row_of now after scope fp (some p) (some s) = refl
  stored-row_of now after scope fp none none = refl
  stored-row_of now after scope fp none (some s) = ground arith
