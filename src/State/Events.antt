-- ===== src/State/Events.antt =====
-- The events of a run: none of them violates the key of the table.
use seta.Prelude.{
  ℕ, suc, ◌≤◌, ◌≡◌, ◌≢◌, refl, subst, false, ◌&&◌, List, [], ◌∷◌, arith, ◌==◌, ◌=?◌, =?_iff, ==_iff,
  Bytes, All, Pairs, any, Bool-cases, inl, inr, ok,
}
use seta.Core.Severity.{severity_string}
use seta.Core.Finding.{fingerprint_of}
use seta.State.{Change, EventRow}
use seta.State.Record.{insert_events, is_persisting}

module _ (digest : Bytes → Bytes) where
  abbrev pub change_fp : Change → Bytes
  change_fp c = fingerprint_of digest c.finding

  abbrev pub Apart : Change → Change → Type 0
  Apart c d = change_fp c ≢ change_fp d

  abbrev IsNew : ℕ → List EventRow → Change → Type 0
  IsNew run events c = any (λ (e : EventRow). e.run_id =? run && e.fp == change_fp c) events ≡ false

  abbrev event_of : ℕ → Change → EventRow
  event_of run c = record {
    run_id = run;
    fp = change_fp c;
    kind = c.kind;
    severity = severity_string c.finding.severity;
  }

  IsNew-cons :
      (run : ℕ) (events : List EventRow) (c : Change) (cs : List Change)
      → All (Apart c) cs
      → All (IsNew run events) cs
      → All (IsNew run (event_of run c ∷ events)) cs
  IsNew-cons run events c [] a n = tt
  IsNew-cons run events c (d ∷ cs) a n = (
    ground (arith, a.0, ==_iff (change_fp c) (change_fp d), n.0),
    IsNew-cons run events c cs a.1 n.1,
  )

  insert_events-ok :
      (run : ℕ) (cs : List Change) (events : List EventRow)
      → Pairs Apart cs
      → All (IsNew run events) cs
      → (out : List EventRow) × (insert_events digest run cs events ≡ ok out)
  unfolding insert_events
  insert_events-ok run [] events a n = (events, refl)
  insert_events-ok run (c ∷ cs) events a n = elim (Bool-cases (is_persisting c.kind)) [
    | inl silent ↦ rw silent (insert_events-ok run cs events a.1 n.1)
    | inr loud ↦
        rw (loud, n.0)
          (insert_events-ok run cs (event_of run c ∷ events) a.1
            (IsNew-cons run events c cs a.0 n.1))
  ]

  IsNew-bound :
      (last : ℕ) (events : List EventRow) (c : Change)
      → All (λ (e : EventRow). e.run_id ≤ last) events
      → IsNew (suc last) events c
  IsNew-bound last [] c h = refl
  IsNew-bound last (e ∷ events) c h =
      ground (arith, =?_iff e.run_id (suc last), h.0, IsNew-bound last events c h.1)

  IsNew-bound-All :
      (last : ℕ) (events : List EventRow) (cs : List Change)
      → All (λ (e : EventRow). e.run_id ≤ last) events
      → All (IsNew (suc last) events) cs
  IsNew-bound-All last events [] h = tt
  IsNew-bound-All last events (c ∷ cs) h =
      (IsNew-bound last events c h, IsNew-bound-All last events cs h)

  -- A run's events fit beside those of the runs before it.
  pub insert_events-IsOk :
      (last : ℕ) (cs : List Change) (events : List EventRow)
      → Pairs Apart cs
      → All (λ (e : EventRow). e.run_id ≤ last) events
      → (out : List EventRow) × (insert_events digest (suc last) cs events ≡ ok out)
  insert_events-IsOk last cs events a h =
      insert_events-ok (suc last) cs events a (IsNew-bound-All last events cs h)

  pub insert_events-bound :
      (run : ℕ) (cs : List Change) (events out : List EventRow)
      → All (λ (e : EventRow). e.run_id ≤ run) events
      → insert_events digest run cs events ≡ ok out
      → All (λ (e : EventRow). e.run_id ≤ run) out
  unfolding insert_events
  insert_events-bound run [] events out h e =
      subst (All (λ (e : EventRow). e.run_id ≤ run)) (cc e) h
  insert_events-bound run (c ∷ cs) events out h e = elim (Bool-cases (is_persisting c.kind)) [
    | inl silent ↦ insert_events-bound run cs events out h (ground (arith, silent, e))
    | inr loud ↦
        insert_events-bound run cs (event_of run c ∷ events) out (omega arith, h)
          (ground (arith, loud, e))
  ]
