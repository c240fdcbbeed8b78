-- ===== src/State/Refine.antt =====
-- `Store.Record` follows, for each fingerprint by itself, the rule of State/Machine.antt.
use seta.Prelude.{
  ℕ, suc, ◌+◌, ◌≡◌, refl, sym, ap, ◌∙◌, Bool, true, false, List, [], ◌∷◌, Option, none, some, arith,
  any, Bytes, Map, lookup, IsUnique, All, Pairs, Option-cases, inl, inr, ◌==◌, ok, bind-eq-ok,
}
use seta.Core.Finding.{fingerprint_of}
use seta.Engine.{RunResult}
use seta.State.{Row, EvidenceText, Stored, Options, Db, Diff, EventRow}
use seta.State.Record.{
  Present, scope_of, current, sweep_row, absorb, save_rows, at_least_one, load_rows, update,
  committed, record_run, insert_events,
}
use seta.State.Absorb.{Distinct, find_present, lookup-absorb, absorb-IsUnique}
use seta.State.Sweep.{lookup-sweep, sweep-IsUnique, swept_rows, open_rows, open_count-sweep}
use seta.State.Save.{IsInPlace, IsCurrent, stored, lookup-save_rows, load_onto_lem}
use seta.State.InPlace.{absorb-IsInPlace, sweep-IsInPlace, load_onto-IsInPlace, load_onto-IsUnique}
use seta.State.Machine.{next, row_of, stored-row_of}

module _ (digest : Bytes → Bytes) where
  abbrev pub is_seen : List Present → Bytes → Bool
  is_seen ps fp = any (λ (p : Present). fingerprint_of digest p.finding == fp) ps

  is_seen_lem :
      (fp : Bytes) (ps : List Present)
      → is_seen ps fp ≡ (elim (find_present digest fp ps) [ none ↦ false | some _ ↦ true ])
  is_seen_lem fp [] = refl
  is_seen_lem fp (p ∷ ps) = ground (arith, is_seen_lem fp ps)

  module _ (json : EvidenceText) (res : RunResult) (opts : Options) where
    abbrev now : ℕ
    now = res.started + res.duration

    abbrev after : ℕ
    after = at_least_one opts.resolve_after

    abbrev absorbed : Map Stored → Map Row
    absorbed table =
        (absorb digest now (current res) (load_rows digest json opts.canonical table) []).0

    updated :
        (table : Map Stored)
        → (update digest json res opts table).0
          ≡ swept_rows now after (scope_of res) (is_seen (current res)) (absorbed table)
    unfolding update
    updated table = refl

    update-IsInPlace :
        (table : Map Stored)
        → All (IsCurrent opts.canonical) table
        → All IsInPlace (update digest json res opts table).0
    unfolding update load_rows
    update-IsInPlace table c =
        sweep-IsInPlace now after (scope_of res) (is_seen (current res)) (absorbed table) (
          absorb-IsInPlace digest now (current res) _ []
            (load_onto-IsInPlace digest json opts.canonical table [] c tt))

    update-IsUnique : (table : Map Stored) → IsUnique (update digest json res opts table).0
    unfolding update load_rows
    update-IsUnique table =
        sweep-IsUnique now after (scope_of res) (is_seen (current res)) (absorbed table) (
          absorb-IsUnique digest now (current res) _ []
            (load_onto-IsUnique digest json opts.canonical table [] tt))

    lookup-update :
        (fp : Bytes) (table : Map Stored)
        → All (IsCurrent opts.canonical) table
        → IsUnique table
        → Pairs (Distinct digest) (current res)
        → lookup fp (update digest json res opts table).0
          ≡ row_of json now after
              (scope_of res)
              fp
              (find_present digest fp (current res))
              (lookup fp table)
    unfolding update load_rows lookup sweep_row
    lookup-update fp table c u d =
        let loaded = load_onto_lem digest json opts.canonical fp table [] c u in
        let present =
          lookup-absorb digest now fp (current res) (load_rows digest json opts.canonical table) []
            d in
        let last =
          lookup-sweep now after (scope_of res) (is_seen (current res)) fp (absorbed table) in
        let seen = is_seen_lem fp (current res) in
        elim (Option-cases (find_present digest fp (current res))) [
          | inl absent ↦ elim (Option-cases (lookup fp table)) [
            | inl new ↦ ground (arith, absent, new)
            | inr (s, old) ↦ ground (arith, absent, old)
          ]
          | inr (p, found) ↦ elim (Option-cases (lookup fp table)) [
            | inl new ↦ ground (arith, found, new)
            | inr (s, old) ↦ ground (arith, found, old)
          ]
        ]

    lookup-save_update :
        (fp : Bytes) (table : Map Stored)
        → All (IsCurrent opts.canonical) table
        → IsUnique table
        → Pairs (Distinct digest) (current res)
        → lookup fp (save_rows json (update digest json res opts table).0 table)
          ≡ next json now after
              (scope_of res)
              (find_present digest fp (current res))
              (lookup fp table)
    lookup-save_update fp table c u d =
        lookup-save_rows json fp (update digest json res opts table).0 table
          (update-IsInPlace table c) (update-IsUnique table)
        ∙ ap (λ (r : Option Row). stored json r (lookup fp table)) (lookup-update fp table c u d)
        ∙ stored-row_of json now after (scope_of res) fp (find_present digest fp (current res))
            (lookup fp table)

    pub record_run-committed :
        (db : Db) {out : Diff × Db}
        → record_run digest json res opts db ≡ ok out
        → (events : List EventRow) × (insert_events digest
              (suc db.last_id)
              (update digest json res opts db.findings).1
              db.events
            ≡ ok events)
          × (committed digest json res db (update digest json res opts db.findings) events ≡ out)
    unfolding record_run
    record_run-committed db e =
        let updated = update digest json res opts db.findings in
        let (events, inserted, made) =
          bind-eq-ok (insert_events digest (suc db.last_id) updated.1 db.events)
            (λ events. ok (committed digest json res db updated events)) e in
        (events, inserted, cc made)

    -- A run that is recorded leaves under each fingerprint what the rule makes of the row that stood
    -- there and of the finding that the run has, if no two findings of the run have one fingerprint,
    -- every stored check has its current ID and the table's keys are unique. The rule stores the
    -- evidence as the text that is written for it, and writes anew what it read of a row that the run
    -- does not have.
    pub lookup-record_run :
        (db after_run : Db) (diff : Diff)
        → record_run digest json res opts db ≡ ok (diff, after_run)
        → All (IsCurrent opts.canonical) db.findings
        → IsUnique db.findings
        → Pairs (Distinct digest) (current res)
        → (fp : Bytes)
        → lookup fp after_run.findings
          ≡ next json now after
              (scope_of res)
              (find_present digest fp (current res))
              (lookup fp db.findings)
    lookup-record_run db after_run diff e c u d fp =
        let (events, _, made) = record_run-committed db e in
        ap (λ (out : Diff × Db). lookup fp out.1.findings) (sym made)
        ∙ lookup-save_update fp db.findings c u d

    -- The run's number of open findings is the number of rows that are open, not suppressed and not
    -- forgotten behind the loop over the rows.
    pub open_count-record_run :
        (db after_run : Db) (diff : Diff)
        → record_run digest json res opts db ≡ ok (diff, after_run)
        → diff.open_count ≡ open_rows (update digest json res opts db.findings).0
    unfolding update
    open_count-record_run db after_run diff e =
        let (events, _, made) = record_run-committed db e in
        ap (λ (out : Diff × Db). out.0.open_count) (sym made)
        ∙ open_count-sweep now after (scope_of res) (is_seen (current res)) (absorbed db.findings)
