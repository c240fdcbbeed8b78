-- ===== src/State/Sound.antt =====
-- The invariant of the database between runs.
use seta.Prelude.{
  ℕ, suc, ◌+◌, ◌≤◌, ◌≡◌, refl, sym, ap, ◌∙◌, subst, List, [], ◌∷◌, Option, none, some, arith, ◌==◌,
  ==_iff, Bytes, Map, lookup, IsUnique, All, All-imp, All-lookup, All-of_lookup, Pairs, Bool-cases,
  inl, inr, ok,
}
use seta.Core.Finding.{fingerprint_of, fingerprint, fingerprint_input_injective, NoNul}
use seta.Engine.{RunResult}
use seta.State.{EvidenceText, Stored, EventRow, Options, Db, Diff}
use seta.State.Record.{Present, Scope, scanned, current, update, record_run, at_least_one, scope_of}
use seta.State.Absorb.{fp_of, find_present, Distinct}
use seta.State.Save.{IsCurrent, save_rows-IsUnique}
use seta.State.Events.{insert_events-bound}
use seta.State.Machine.{next, reported, unreported}
use seta.State.Refine.{record_run-committed, lookup-record_run}
use seta.State.Total.{IsFiledStored}

module _ (digest : Bytes → Bytes) (canonical : Bytes → Bytes) where
  -- A stored row under the fingerprint of its check, target and subject, the check by its current ID.
  abbrev pub IsGood : Bytes × Stored → Type 0
  IsGood (fp, s) =
      (canonical s.check_id ≡ s.check_id)
      × (fingerprint digest s.check_id s.target s.subject ≡ fp)
      × NoNul s.check_id
      × NoNul s.target

  pub record IsSound (db : Db) : Type 0 where
    pub rows_good : All IsGood db.findings
    pub keys_unique : IsUnique db.findings
    pub events_bounded : All (λ (e : EventRow). e.run_id ≤ db.last_id) db.events

  -- A finding of a run, by a check's current ID.
  abbrev pub IsReport : Present → Type 0
  IsReport p =
      (canonical p.finding.check_id ≡ p.finding.check_id)
      × NoNul p.finding.check_id
      × NoNul p.finding.target

  find_present_lem :
      (fp : Bytes) (ps : List Present) (p : Present)
      → All IsReport ps
      → find_present digest fp ps ≡ some p
      → IsReport p × (fp_of digest p ≡ fp)
  find_present_lem fp [] p h e = absurd (cc e)
  find_present_lem fp (q ∷ ps) p h e = elim (Bool-cases (fp_of digest q == fp)) [
    | inl same ↦
        let value : q ≡ p = ground (arith, e, same) in
        subst (λ (x : Present). IsReport x × (fp_of digest x ≡ fp)) value
          (h.0, (==_iff (fp_of digest q) fp).0 same)
    | inr other ↦ find_present_lem fp ps p h.1 (ground (arith, e, other))
  ]

  reported-IsGood :
      (json : EvidenceText) (now : ℕ) (fp : Bytes) (p : Present) (old : Option Stored)
      → ((a b : Bytes) → digest a ≡ digest b → a ≡ b)
      → IsReport p
      → fp_of digest p ≡ fp
      → ((s : Stored) → old ≡ some s → IsGood (fp, s))
      → IsGood (fp, reported json now old p)
  unfolding fingerprint_of
  reported-IsGood json now fp p none inj (c, n, t) f h = (c, f, n, t)
  reported-IsGood json now fp p (some s) inj (c, n, t) f h =
      let (sc, sf, sn, st) = h s refl in
      let (same_id, same_target, same_subject) =
        fingerprint_input_injective p.finding.check_id p.finding.target p.finding.subject s.check_id
          s.target s.subject (n, t) (sn, st) (inj _ _ (f ∙ sym sf)) in
      (c, ap (λ (id : Bytes). fingerprint digest id s.target s.subject) same_id ∙ sf, n, st)

  unreported-IsGood :
      (json : EvidenceText) (now after : ℕ) (scope : Scope) (fp : Bytes) (s out : Stored)
      → IsGood (fp, s)
      → unreported json now after scope s ≡ some out
      → IsGood (fp, out)
  unreported-IsGood json now after scope fp s out h e =
      let same_id : out.check_id ≡ s.check_id = ground (arith, e) in
      let same_target : out.target ≡ s.target = ground (arith, e) in
      let same_subject : out.subject ≡ s.subject = ground (arith, e) in
      (
        cc (same_id, h.0),
        cc (same_id, same_target, same_subject, h.1),
        subst NoNul (sym same_id) h.2,
        subst NoNul (sym same_target) h.3,
      )

  next-IsGood :
      (json : EvidenceText) (now after : ℕ) (scope : Scope) (fp : Bytes) (found : Option Present)
      (old : Option Stored) (out : Stored)
      → ((a b : Bytes) → digest a ≡ digest b → a ≡ b)
      → ((p : Present) → found ≡ some p → IsReport p × (fp_of digest p ≡ fp))
      → ((s : Stored) → old ≡ some s → IsGood (fp, s))
      → next json now after scope found old ≡ some out
      → IsGood (fp, out)
  next-IsGood json now after scope fp (some p) old out inj reports h e =
      let (report, f) = reports p refl in
      let value : reported json now old p ≡ out = cc e in
      subst (λ (s : Stored). IsGood (fp, s)) value
        (reported-IsGood json now fp p old inj report f h)
  next-IsGood json now after scope fp none none out inj reports h e = absurd (cc e)
  next-IsGood json now after scope fp none (some s) out inj reports h e =
      unreported-IsGood json now after scope fp s out (h s refl) e

  pub rows-IsCurrent : (table : Map Stored) → All IsGood table → All (IsCurrent canonical) table
  rows-IsCurrent table h = All-imp IsGood (IsCurrent canonical) (λ (fp, s) g. g.0) table h

  rows-IsFiled :
      (json : EvidenceText) (table : Map Stored)
      → All IsGood table
      → All (IsFiledStored digest json) table
  unfolding scanned fingerprint_of
  rows-IsFiled json table h = All-imp IsGood (IsFiledStored digest json) (λ (fp, s) g. g.1) table h

module _ (digest : Bytes → Bytes) (json : EvidenceText) (res : RunResult) (opts : Options) where
  -- A run that is recorded keeps the invariant, if the digest has no collisions, the run's findings
  -- have current check IDs and no two of them have one fingerprint.
  pub record_run-IsSound :
      (db after_run : Db) (diff : Diff)
      → ((a b : Bytes) → digest a ≡ digest b → a ≡ b)
      → IsSound digest opts.canonical db
      → All (IsReport digest opts.canonical) (current res)
      → Pairs (Distinct digest) (current res)
      → record_run digest json res opts db ≡ ok (diff, after_run)
      → IsSound digest opts.canonical after_run
  record_run-IsSound db after_run diff inj h reports d e =
      let (events, inserted, made) = record_run-committed digest json res opts db e in
      let updated = update digest json res opts db.findings in
      let good = h.rows_good in
      let unique =
        subst (λ (out : Diff × Db). IsUnique out.1.findings) made
          (save_rows-IsUnique json updated.0 db.findings h.keys_unique) in
      let older : All (λ (v : EventRow). v.run_id ≤ suc db.last_id) db.events =
        All-imp _ (λ (v : EventRow). v.run_id ≤ suc db.last_id) (λ v le. omega (arith, le))
          db.events h.events_bounded in
      record {
        rows_good =
            All-of_lookup (IsGood digest opts.canonical) after_run.findings unique (λ fp out found.
              let step =
                lookup-record_run digest json res opts db after_run diff e
                  (rows-IsCurrent digest opts.canonical db.findings good) h.keys_unique d fp in
              next-IsGood digest opts.canonical json (res.started + res.duration)
                (at_least_one opts.resolve_after) (scope_of res) fp
                (find_present digest fp (current res)) (lookup fp db.findings) out inj
                (λ p is. find_present_lem digest opts.canonical fp (current res) p reports is)
                (λ s is. All-lookup (IsGood digest opts.canonical) fp s db.findings good is)
                (sym step ∙ found));
        keys_unique = unique;
        events_bounded =
            subst
              (λ (out : Diff × Db). All (λ (v : EventRow). v.run_id ≤ out.1.last_id) out.1.events)
              made
              (insert_events-bound digest (suc db.last_id) updated.1 db.events events older
                inserted);
      }
