-- ===== src/State/Total.antt =====
-- A run is always recorded: its changes have different fingerprints.
use seta.Prelude.{
  ℕ, ◌+◌, ◌≤◌, ◌≡◌, ◌≢◌, refl, sym, ◌∙◌, map, subst, Bool, true, false, ◌&&◌, List, [], ◌∷◌, ◌++◌,
  none, some, arith, ==_iff, leb, Bytes, Map, lookup, insert, IsUnique, All, All-imp, All-map,
  All-append, Pairs, Pairs-map, Pairs-append, Bool-cases, inl, inr, ◌⊎◌, ok, All-insert,
}
use seta.Core.Finding.{fingerprint_of}
use seta.Engine.{RunResult}
use seta.State.{Row, Change, EventRow, resolved, Options, Db, Diff, EvidenceText, Stored}
use seta.State.Record.{
  Scope, scanned, sweep, sweep_change, Present, touch, absorb, current, load_onto, load_rows,
  update, committed, record_run, at_least_one, scope_of,
}
use seta.State.Absorb.{fp_of, Distinct, change_of, absorb-changes, absorb-IsUnique}
use seta.State.Save.{IsCurrent, load_onto-current}
use seta.State.InPlace.{load_onto-IsUnique}
use seta.State.Events.{change_fp, Apart, insert_events-IsOk}
use seta.State.Refine.{is_seen}

module _ (digest : Bytes → Bytes) where
  -- A row whose finding has the fingerprint of the row.
  abbrev pub IsFiled : Bytes × Row → Type 0
  IsFiled (fp, r) = fingerprint_of digest r.finding ≡ fp

  absorb-IsFiled :
      (now : ℕ) (ps : List Present) (rows : Map Row) (changes : List Change)
      → All IsFiled rows
      → All IsFiled (absorb digest now ps rows changes).0
  unfolding absorb touch
  absorb-IsFiled now [] rows changes h = h
  absorb-IsFiled now (p ∷ ps) rows changes h =
      let fp = fp_of digest p in
      absorb-IsFiled now ps (insert fp (touch now fp (lookup fp rows) p) rows) _
        (All-insert IsFiled fp (touch now fp (lookup fp rows) p) rows refl h)

  -- A change of the loop over the rows is of a row that was not seen.
  abbrev IsOfRow : (Bytes → Bool) → Map Row → Change → Type 0
  IsOfRow seen rows c =
      (seen (change_fp digest c) ≡ false)
      × ((r : Row) × (lookup (change_fp digest c) rows ≡ some r))

  module _ (now after : ℕ) (scope : Scope) (seen : Bytes → Bool) where
    abbrev resolved_of : Row → Change
    resolved_of r = record {
      kind = resolved;
      finding = r.finding;
      suppressed = r.suppressed;
      first_seen = r.first_seen;
    }

    sweep_change-cases :
        (skip : Bool) (r : Row)
        → (sweep_change after scope skip r ≡ [])
          ⊎ ((skip ≡ false) × (sweep_change after scope skip r ≡ resolved_of r ∷ []))
    unfolding sweep_change
    sweep_change-cases true r = inl refl
    sweep_change-cases false r =
        elim (Bool-cases (
          scope.has_target r.finding.target
          && (r.is_open && scope.has_run r.finding.target r.finding.check_id)
          && leb after (r.missing + 1))) [
            | inl absent ↦ inr (refl, ground (arith, absent))
            | inr stays ↦ inl (ground (arith, stays))
          ]

    sweep_change-IsOfRow :
        (fp : Bytes) (r : Row) (rest : Map Row)
        → IsFiled (fp, r)
        → All (IsOfRow seen ((fp, r) ∷ rest)) (sweep_change after scope (seen fp) r)
    unfolding lookup
    sweep_change-IsOfRow fp r rest h = elim (sweep_change-cases (seen fp) r) [
      | inl none_made ↦ rw none_made tt
      | inr (unseen, made) ↦ rw made (
        (cc (h, unseen), (r, ground (arith, ==_iff fp (fingerprint_of digest r.finding), h))),
        tt,
      )
    ]

    sweep_change-Apart :
        (fp : Bytes) (r : Row) (cs : List Change)
        → IsFiled (fp, r)
        → All (λ c. change_fp digest c ≢ fp) cs
        → Pairs (Apart digest) cs
        → Pairs (Apart digest) (sweep_change after scope (seen fp) r ++ cs)
    sweep_change-Apart fp r cs h others apart = elim (sweep_change-cases (seen fp) r) [
      | inl none_made ↦ rw none_made apart
      | inr (unseen, made) ↦ rw made (
        All-imp (λ c. change_fp digest c ≢ fp) (Apart digest (resolved_of r))
            (λ c n e. n (sym e ∙ h)) cs others,
        apart,
      )
    ]

    IsOfRow-cons :
        (fp : Bytes) (r : Row) (rest : Map Row) (cs : List Change)
        → lookup fp rest ≡ none
        → All (IsOfRow seen rest) cs
        → All (λ c. IsOfRow seen ((fp, r) ∷ rest) c × (change_fp digest c ≢ fp)) cs
    unfolding lookup
    IsOfRow-cons fp r rest [] u h = tt
    IsOfRow-cons fp r rest (c ∷ cs) u h =
        let (s, (o, e)) = h.0 in
        let apart : change_fp digest c ≢ fp = λ same. cc (same, e, u) in
        (
          ((s, (o, ground (arith, e, ==_iff fp (change_fp digest c), apart))), apart),
          IsOfRow-cons fp r rest cs u h.1,
        )

    sweep-IsOfRow :
        (rows : Map Row)
        → All IsFiled rows
        → IsUnique rows
        → All (IsOfRow seen rows) (sweep now after scope seen rows).1
          × Pairs (Apart digest) (sweep now after scope seen rows).1
    unfolding sweep
    sweep-IsOfRow [] h u = (tt, tt)
    sweep-IsOfRow ((fp, r) ∷ rest) h u =
        let (inner, apart) = sweep-IsOfRow rest h.1 u.1 in
        let later = (sweep now after scope seen rest).1 in
        let both = IsOfRow-cons fp r rest later u.0 inner in
        (
          All-append (IsOfRow seen ((fp, r) ∷ rest)) _ later (sweep_change-IsOfRow fp r rest h.0)
              (All-imp _ (IsOfRow seen ((fp, r) ∷ rest)) (λ c b. b.0) later both),
          sweep_change-Apart fp r later h.0
              (All-imp _ (λ c. change_fp digest c ≢ fp) (λ c b. b.1) later both) apart,
        )

  -- The rows of a table are filed by their fingerprints.
  abbrev pub IsFiledStored : EvidenceText → Bytes × Stored → Type 0
  IsFiledStored json (fp, s) = IsFiled (fp, scanned json fp s)

  load_onto-IsFiled :
      (json : EvidenceText) (canonical : Bytes → Bytes) (table : Map Stored) (rows : Map Row)
      → All (IsCurrent canonical) table
      → All (IsFiledStored json) table
      → All IsFiled rows
      → All IsFiled (load_onto digest json canonical table rows)
  unfolding load_onto
  load_onto-IsFiled json canonical [] rows c f h = h
  load_onto-IsFiled json canonical ((fp, s) ∷ rest) rows c f h =
      subst (All IsFiled) (sym (load_onto-current digest json canonical fp s rest rows c.0)) (
        load_onto-IsFiled json canonical rest (insert fp (scanned json fp s) rows) c.1 f.1
          (All-insert IsFiled fp (scanned json fp s) rows f.0 h))

  is_seen-All : (ps : List Present) → All (λ p. is_seen digest ps (fp_of digest p) ≡ true) ps
  is_seen-All [] = tt
  is_seen-All (p ∷ ps) = (
    ground (arith, ==_iff (fp_of digest p) (fp_of digest p)),
    All-imp _ (λ q. is_seen digest (p ∷ ps) (fp_of digest q) ≡ true) (λ q h. ground (arith, h)) ps
        (is_seen-All ps),
  )

  module _ (json : EvidenceText) (res : RunResult) (opts : Options) where
    update-Apart :
        (table : Map Stored)
        → All (IsCurrent opts.canonical) table
        → All (IsFiledStored json) table
        → Pairs (Distinct digest) (current res)
        → Pairs (Apart digest) (update digest json res opts table).1
    unfolding update load_rows
    update-Apart table c f d =
        let now = res.started + res.duration in
        let ps = current res in
        let rows = load_rows digest json opts.canonical table in
        let present = (absorb digest now ps rows []).0 in
        let swept =
          sweep now (at_least_one opts.resolve_after) (scope_of res) (is_seen digest ps) present in
        let of_rows =
          sweep-IsOfRow now (at_least_one opts.resolve_after) (scope_of res) (is_seen digest ps)
            present
            (absorb-IsFiled now ps rows [] (load_onto-IsFiled json opts.canonical table [] c f tt))
            (absorb-IsUnique digest now ps rows []
              (load_onto-IsUnique digest json opts.canonical table [] tt)) in
        let cross =
          All-map (change_of digest now rows) (λ x. All (Apart digest x) swept.1) ps
            (All-imp _ (λ p. All (λ c. fp_of digest p ≢ change_fp digest c) swept.1)
              (λ p seen.
                All-imp (IsOfRow (is_seen digest ps) present)
                  (λ c. fp_of digest p ≢ change_fp digest c)
                  (λ c (unseen, _) same. cc (seen, unseen, same)) swept.1 of_rows.0)
              ps (is_seen-All ps)) in
        subst (λ cs. Pairs (Apart digest) (cs ++ swept.1))
          (sym (absorb-changes digest now ps rows [] d))
          (Pairs-append (Apart digest) (map (change_of digest now rows) ps) swept.1
            (Pairs-map (change_of digest now rows) (Apart digest) ps d) of_rows.1 cross)

    -- Every run is recorded: no event violates the key of its table, if the table is filed by
    -- fingerprints under current check IDs, no two findings of the run have one fingerprint, and the
    -- stored events are of runs up to the last one.
    pub record_run-IsOk :
        (db : Db)
        → All (IsCurrent opts.canonical) db.findings
        → All (IsFiledStored json) db.findings
        → All (λ (e : EventRow). e.run_id ≤ db.last_id) db.events
        → Pairs (Distinct digest) (current res)
        → (out : Diff × Db) × (record_run digest json res opts db ≡ ok out)
    unfolding record_run
    record_run-IsOk db c f e d =
        let updated = update digest json res opts db.findings in
        let (events, inserted) =
          insert_events-IsOk digest db.last_id updated.1 db.events (update-Apart db.findings c f d)
            e in
        (committed digest json res db updated events, rw inserted refl)
