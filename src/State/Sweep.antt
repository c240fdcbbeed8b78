-- ===== src/State/Sweep.antt =====
-- The loop over the rows, one row at a time.
use seta.Prelude.{
  ℕ, ◌+◌, ◌≡◌, refl, Bool, [], ◌∷◌, none, some, arith, if◌then◌else◌, ◌==◌, ==_iff, Bytes, Map,
  lookup, IsUnique, Bool-cases, inl, inr,
}
use seta.State.{Row}
use seta.State.Record.{Scope, sweep_row, sweep, counts}

-- The number of rows that count as open.
abbrev pub open_rows : Map Row → ℕ
open_rows [] = 0
open_rows ((_, r) ∷ rest) = (if counts r then 1 else 0) + open_rows rest

module _ (now after : ℕ) (scope : Scope) (seen : Bytes → Bool) where
  abbrev pub swept_rows : Map Row → Map Row
  swept_rows rows = (sweep now after scope seen rows).0

  pub lookup-sweep :
      (fp : Bytes) (rows : Map Row)
      → lookup fp (swept_rows rows) ≡ (elim (lookup fp rows) [
        | none ↦ none
        | some r ↦ some (sweep_row now after scope (seen fp) r)
      ])
  unfolding sweep lookup
  lookup-sweep fp [] = refl
  lookup-sweep fp ((k, r) ∷ rest) = elim (Bool-cases (k == fp)) [
    | inl same ↦ ground (arith, (==_iff k fp).0 same)
    | inr other ↦ ground (arith, lookup-sweep fp rest)
  ]

  pub sweep-IsUnique : (rows : Map Row) → IsUnique rows → IsUnique (swept_rows rows)
  unfolding sweep
  sweep-IsUnique [] u = tt
  sweep-IsUnique ((k, r) ∷ rest) u =
      (ground (arith, lookup-sweep k rest, u.0), sweep-IsUnique rest u.1)

  pub open_count-sweep :
      (rows : Map Row) → (sweep now after scope seen rows).2 ≡ open_rows (swept_rows rows)
  unfolding sweep
  open_count-sweep [] = refl
  open_count-sweep ((k, r) ∷ rest) = ground (arith, open_count-sweep rest)
