-- ===== src/Notify.antt =====
-- internal/notify/notify.go: which changes a channel receives, and what becomes of those that it
-- could not be sent.
pub mod Places
pub mod Merge
pub mod Deliver
use seta.Prelude.{
  ℕ, zero, suc, Bool, true, false, not, ◌&&◌, ◌||◌, List, [], ◌∷◌, ◌++◌, Option, none, some,
  if◌then◌else◌, Bytes, Map, lookup, insert, keep, length, compare_int, Ordering, sort_by,
}
use seta.Core.Severity.{Severity}
use seta.Core.Finding.{fingerprint_of}
use seta.State.{Kind, Change, compare_changes}
use seta.State.Record.{is_persisting}

pub record Rule : Type 0 where
  pub on : Kind → Bool
  pub min_severity : Severity
  -- 0 for no heartbeat
  pub heartbeat : ℕ

-- `Rule.Filter`
unfoldable pub filter : Rule → List Change → List Change
filter r changes =
    keep
      (λ (c : Change).
        not c.suppressed && r.on c.kind && (elim (compare_int c.finding.severity r.min_severity) [
          | Ordering.lt ↦ false
          | _ ↦ true
        ]))
      changes

-- `out[i]`, and `out[i] = c`
unfoldable pub get_at {ℓ} : {A : Type ℓ} → ℕ → List A → Option A
get_at i [] = none
get_at zero (x ∷ xs) = some x
get_at (suc i) (x ∷ xs) = get_at i xs

unfoldable pub set_at {ℓ} : {A : Type ℓ} → ℕ → A → List A → List A
set_at i new [] = []
set_at zero new (x ∷ xs) = new ∷ xs
set_at (suc i) new (x ∷ xs) = x ∷ set_at i new xs

-- `len(changes) == 0`
unfoldable pub is_none {ℓ} : {A : Type ℓ} → List A → Bool
is_none [] = true
is_none (_ ∷ _) = false

module _ (digest : Bytes → Bytes) where
  -- The loop of `merge` that fills `index`.
  unfoldable pub index_from : ℕ → List Change → Map ℕ → Map ℕ
  index_from i [] index = index
  index_from i (c ∷ cs) index =
      index_from (suc i) cs (insert (fingerprint_of digest c.finding) i index)

  -- The test of the `switch` of `merge`.
  unfoldable pub replaces : Change → Option Change → Bool
  replaces c there =
      not (is_persisting c.kind) || (elim there [ none ↦ false | some o ↦ is_persisting o.kind ])

  -- The loop of `merge` over this run's changes.
  unfoldable pub merge_loop : List Change → Map ℕ → List Change → List Change
  merge_loop [] index out = out
  merge_loop (c ∷ cs) index out =
      let fp = fingerprint_of digest c.finding in
      elim (lookup fp index) [
        | none ↦ merge_loop cs (insert fp (length out) index) (out ++ (c ∷ []))
        | some i ↦ merge_loop cs index (if replaces c (get_at i out) then set_at i c out else out)
      ]

  -- `merge`
  unfoldable pub merge : List Change → List Change → List Change
  merge pending changes =
      if is_none pending
      then changes
      else sort_by compare_changes (merge_loop changes (index_from 0 pending []) pending)
