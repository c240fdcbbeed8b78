-- ===== src/State/History.antt =====
-- What becomes of a finding over several runs.
use seta.Prelude.{
  ℕ, suc, ◌+◌, ◌<◌, ◌≡◌, refl, ap, ◌∙◌, true, false, List, [], ◌∷◌, none, some, arith, Bytes,
  lookup, All, Pairs, ok, length,
}
use seta.Engine.{RunResult}
use seta.State.{EvidenceText, Stored, Options, Db, Diff}
use seta.State.Record.{Scope, current, record_run, at_least_one, scope_of}
use seta.State.Absorb.{find_present, Distinct}
use seta.State.Machine.{unreported, respelled}
use seta.State.Refine.{lookup-record_run}
use seta.State.Sound.{IsSound, IsReport, record_run-IsSound, rows-IsCurrent}

module _ (digest : Bytes → Bytes) (json : EvidenceText) (opts : Options) where
  -- Runs that are recorded one after the other.
  pub data Recorded : Db → List RunResult → Db → Type 0 where
    no_run : (db : Db) → Recorded db [] db
    one_more :
        (db mid out : Db) (diff : Diff) (res : RunResult) (rest : List RunResult)
        → record_run digest json res opts db ≡ ok (diff, mid)
        → Recorded mid rest out
        → Recorded db (res ∷ rest) out

  -- A run whose findings have current check IDs and different fingerprints.
  abbrev pub IsFit : RunResult → Type 0
  IsFit res =
      All (IsReport digest opts.canonical) (current res) × Pairs (Distinct digest) (current res)

  -- A run that looks for a finding without an error and does not have it.
  abbrev pub IsAbsent : Bytes → Bytes → Bytes → RunResult → Type 0
  IsAbsent fp target id res =
      (find_present digest fp (current res) ≡ none)
      × ((scope_of res).has_target target ≡ true)
      × ((scope_of res).has_run target id ≡ true)

  abbrev after : ℕ
  after = at_least_one opts.resolve_after

  -- An open row of the check and target, at a count of misses.
  abbrev pub IsOpenAt : ℕ → Bytes → Bytes → Stored → Type 0
  IsOpenAt n target id s =
      (s.is_open ≡ true) × (s.missing_runs ≡ n) × (s.target ≡ target) × (s.check_id ≡ id)

  unreported-IsOpenAt :
      (now n : ℕ) (scope : Scope) (target id : Bytes) (s : Stored)
      → IsOpenAt n target id s
      → scope.has_target target ≡ true
      → scope.has_run target id ≡ true
      → suc n < after
      → (out : Stored) × (unreported json now after scope s ≡ some out)
        × IsOpenAt (suc n) target id out
  unreported-IsOpenAt now n scope target id s h t r lt =
      let has_target : scope.has_target s.target ≡ true = ap scope.has_target h.2 ∙ t in
      let has_run : scope.has_run s.target s.check_id ≡ true = cc (h.2, h.3, r) in
      (
        record (respelled json s) { missing_runs = suc s.missing_runs },
        ground (arith, has_target, has_run, h.0, h.1, lt),
        (h.0, omega (arith, h.1), h.2, h.3),
      )

  unreported-closes :
      (now n : ℕ) (scope : Scope) (target id : Bytes) (s : Stored)
      → IsOpenAt n target id s
      → scope.has_target target ≡ true
      → scope.has_run target id ≡ true
      → suc n ≡ after
      → (out : Stored) × (unreported json now after scope s ≡ some out)
        × (out.is_open ≡ false)
        × (out.resolved_at ≡ some now)
  unreported-closes now n scope target id s h t r e =
      let has_target : scope.has_target s.target ≡ true = ap scope.has_target h.2 ∙ t in
      let has_run : scope.has_run s.target s.check_id ≡ true = cc (h.2, h.3, r) in
      (
        record (respelled json s) { is_open = false; missing_runs = 0; resolved_at = some now },
        ground (arith, has_target, has_run, h.0, h.1, e),
        refl,
        refl,
      )

  -- One run of a history: the row that the rule makes, and the invariant behind it.
  absent_step :
      (db mid : Db) (diff : Diff) (res : RunResult) (fp target id : Bytes) (s : Stored)
      → ((a b : Bytes) → digest a ≡ digest b → a ≡ b)
      → IsSound digest opts.canonical db
      → IsFit res
      → IsAbsent fp target id res
      → lookup fp db.findings ≡ some s
      → record_run digest json res opts db ≡ ok (diff, mid)
      → IsSound digest opts.canonical mid
        × (lookup fp mid.findings
            ≡ unreported json (res.started + res.duration) after (scope_of res) s)
  absent_step db mid diff res fp target id s inj sound fit absent stored e = (
    record_run-IsSound digest json res opts db mid diff inj sound fit.0 fit.1 e,
    lookup-record_run digest json res opts db mid diff e
          (rows-IsCurrent digest opts.canonical db.findings sound.rows_good) sound.keys_unique fit.1
          fp
        ∙ cc (absent.0, stored),
  )

  -- A finding that is open stays open over runs that look for it without an error and do not have it,
  -- and its count of misses grows by each, while the misses stay below the limit of the options; the
  -- digest has no collisions, the database is sound, and each run's findings have current check IDs
  -- and different fingerprints.
  pub Recorded-stays_open :
      (db out : Db) (runs : List RunResult) (fp target id : Bytes) (n : ℕ) (s : Stored)
      → ((a b : Bytes) → digest a ≡ digest b → a ≡ b)
      → IsSound digest opts.canonical db
      → All IsFit runs
      → All (IsAbsent fp target id) runs
      → lookup fp db.findings ≡ some s
      → IsOpenAt n target id s
      → n + length runs < at_least_one opts.resolve_after
      → Recorded db runs out
      → IsSound digest opts.canonical out
        × ((last : Stored) × (lookup fp out.findings ≡ some last)
            × IsOpenAt (n + length runs) target id last)
  Recorded-stays_open db _ [] fp target id n s inj sound fit absent stored h lt (no_run _) =
      (sound, (s, stored, (h.0, omega (arith, h.1), h.2, h.3)))
  Recorded-stays_open db out (res ∷ rest) fp target id n s inj sound fit absent stored h lt
        (one_more _ mid _ diff _ _ e later) =
      let (sound_mid, found) =
        absent_step db mid diff res fp target id s inj sound fit.0 absent.0 stored e in
      let (next_row, made, open_row) =
        unreported-IsOpenAt (res.started + res.duration) n (scope_of res) target id s h absent.0.1
          absent.0.2 (omega (arith, lt)) in
      let (sound_out, (last, at, here)) =
        Recorded-stays_open mid out rest fp target id (suc n) next_row inj sound_mid fit.1 absent.1
          (found ∙ made) open_row (omega (arith, lt)) later in
      (sound_out, (last, at, (here.0, omega (arith, here.1), here.2, here.3)))

  -- When the last of several runs ended.
  abbrev pub last_end : RunResult → List RunResult → ℕ
  last_end res [] = res.started + res.duration
  last_end res (later ∷ rest) = last_end later rest

  -- A finding that is open, and that runs look for without an error and do not have, resolves at the
  -- run with which its misses reach the limit of the options, and bears the time at which that run
  -- ended; the digest has no collisions, the database is sound, and each run's findings have current
  -- check IDs and different fingerprints.
  pub Recorded-resolves :
      (db out : Db) (res : RunResult) (rest : List RunResult) (fp target id : Bytes) (n : ℕ)
      (s : Stored)
      → ((a b : Bytes) → digest a ≡ digest b → a ≡ b)
      → IsSound digest opts.canonical db
      → All IsFit (res ∷ rest)
      → All (IsAbsent fp target id) (res ∷ rest)
      → lookup fp db.findings ≡ some s
      → IsOpenAt n target id s
      → n + suc (length rest) ≡ at_least_one opts.resolve_after
      → Recorded db (res ∷ rest) out
      → (last : Stored) × (lookup fp out.findings ≡ some last)
        × (last.is_open ≡ false)
        × (last.resolved_at ≡ some (last_end res rest))
  Recorded-resolves db _ res [] fp target id n s inj sound fit absent stored h limit
        (one_more _ _ _ diff _ _ e (no_run out)) =
      let (_, found) =
        absent_step db out diff res fp target id s inj sound fit.0 absent.0 stored e in
      let (closed, made, shut, time) =
        unreported-closes (res.started + res.duration) n (scope_of res) target id s h absent.0.1
          absent.0.2 (omega (arith, limit)) in
      (closed, found ∙ made, shut, time)
  Recorded-resolves db out res (later ∷ rest) fp target id n s inj sound fit absent stored h limit
        (one_more _ mid _ diff _ _ e more) =
      let (sound_mid, found) =
        absent_step db mid diff res fp target id s inj sound fit.0 absent.0 stored e in
      let (next_row, made, open_row) =
        unreported-IsOpenAt (res.started + res.duration) n (scope_of res) target id s h absent.0.1
          absent.0.2 (omega (arith, limit)) in
      Recorded-resolves mid out later rest fp target id (suc n) next_row inj sound_mid fit.1
        absent.1 (found ∙ made) open_row (omega (arith, limit)) more
