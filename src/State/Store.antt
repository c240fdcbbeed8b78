-- ===== src/State/Store.antt =====
-- The key-value table and `Prune` of internal/state/store.go, and the guard of `migrate`.
use seta.Prelude.{
  ℕ, ◌≤◌, ◌<◌, ◌≡◌, ◌≢◌, ◌⊎◌, refl, sym, subst, Bool, true, false, not, ◌&&◌, List, [], ◌∷◌, Option,
  none, some, arith, if◌then◌else◌, ◌=?◌, ltb, ◌==◌, ==_iff, Bytes, Map, lookup, insert, keep_keys,
  IsUnique, All, keep, any, length, Bool-cases, Option-cases, Pairs, All-imp, inl, inr,
}
use seta.State.{Stored, RunRow, EventRow, Db}

-- `Get`; `none` for `ok` false
unfoldable pub get : Bytes → Db → Option Bytes
get key db = lookup key db.kv

-- `Set`
unfoldable pub set : Bytes → Bytes → Db → Db
set key value db = record db { kv = insert key value db.kv }

-- `Delete`
unfoldable pub delete : Bytes → Db → Db
delete key db = record db { kv = keep_keys (λ k. not (k == key)) db.kv }

-- `SELECT MAX(id) FROM runs`; on no runs the comparison with NULL deletes none, as 0 does.
unfoldable pub max_id : List RunRow → ℕ
max_id [] = 0
max_id (r ∷ rs) = let most = max_id rs in if ltb most r.id then r.id else most

-- `started_at < ? AND id < (SELECT MAX(id) FROM runs)`
unfoldable pub is_pruned : ℕ → ℕ → RunRow → Bool
is_pruned cutoff last r = ltb r.started_at cutoff && ltb r.id last

-- `open = 0 AND resolved_at < ?`; a comparison with NULL does not hold.
unfoldable pub is_stale : ℕ → Stored → Bool
is_stale cutoff s = not s.is_open && (elim s.resolved_at [ none ↦ false | some at ↦ ltb at cutoff ])

-- `Prune`: the number of deleted runs; a deleted run takes its events with it.
unfoldable pub prune : ℕ → Db → ℕ × Db
prune cutoff db =
    let last = max_id db.runs in
    let deleted = keep (is_pruned cutoff last) db.runs in
    (
      length deleted,
      record db {
        runs = keep (λ (r : RunRow). not (is_pruned cutoff last r)) db.runs;
        events =
            keep (λ (e : EventRow). not (any (λ (r : RunRow). r.id =? e.run_id) deleted)) db.events;
        findings = keep (λ (entry : Bytes × Stored). not (is_stale cutoff entry.1)) db.findings;
      },
    )

lookup-keep {ℓ} :
    {V : Type ℓ} (p : V → Bool) (key : Bytes) (m : Map V)
    → IsUnique m
    → lookup key (keep (λ (entry : Bytes × V). p entry.1) m)
      ≡ (elim (lookup key m) [ none ↦ none | some v ↦ if p v then some v else none ])
unfolding lookup
lookup-keep p key [] u = refl
lookup-keep p key ((j, v) ∷ m) u = elim (Bool-cases (j == key)) [
  | inl same ↦ ground (arith, (==_iff j key).0 same, lookup-keep p key m u.1, u.0)
  | inr other ↦ ground (arith, lookup-keep p key m u.1)
]

max_id-keep :
    (cutoff last : ℕ) (runs : List RunRow)
    → max_id runs ≤ last
    → (max_id (keep (λ (r : RunRow). not (is_pruned cutoff last r)) runs) ≤ max_id runs)
      × (max_id runs ≡ last
          → max_id (keep (λ (r : RunRow). not (is_pruned cutoff last r)) runs) ≡ last)
unfolding max_id is_pruned
max_id-keep cutoff last [] le = (omega arith, λ e. e)
max_id-keep cutoff last (r ∷ rs) le =
    let rest = max_id-keep cutoff last rs (ground (arith, le)) in
    (ground (arith, rest.0), λ e. ground (arith, rest.0, rest.1, e, le))

-- `Prune` leaves the latest run in its place.
pub max_id-prune : (cutoff : ℕ) (db : Db) → max_id (prune cutoff db).1.runs ≡ max_id db.runs
unfolding prune
max_id-prune cutoff db = (max_id-keep cutoff (max_id db.runs) db.runs (omega arith)).1 refl

-- A finding that is closed and was resolved before the cutoff.
abbrev pub IsForgotten : ℕ → Stored → Type 0
IsForgotten cutoff s = (s.is_open ≡ false) × ((at : ℕ) × (s.resolved_at ≡ some at) × (at < cutoff))

-- A finding that is open, or has no time of resolution, or was not resolved before the cutoff.
abbrev pub IsRemembered : ℕ → Stored → Type 0
IsRemembered cutoff s =
    (s.is_open ≡ true)
    ⊎ ((s.resolved_at ≡ none) ⊎ ((at : ℕ) × (s.resolved_at ≡ some at) × (cutoff ≤ at)))

-- What `Prune` leaves of a finding.
abbrev pub Left : ℕ → Option Stored → Option Stored → Type 0
Left cutoff none after = after ≡ none
Left cutoff (some s) after =
    (IsForgotten cutoff s × (after ≡ none)) ⊎ (IsRemembered cutoff s × (after ≡ some s))

is_stale-Left :
    (cutoff : ℕ) (s : Stored)
    → Left cutoff (some s) (if not (is_stale cutoff s) then some s else none)
unfolding is_stale
is_stale-Left cutoff s = elim (Bool-cases s.is_open) [
  | inl still ↦ inr (inl still, ground (arith, still))
  | inr closed ↦ elim (Option-cases s.resolved_at) [
    | inl never ↦ inr (inr (inl never), ground (arith, never))
    | inr (at, when) ↦ elim (Bool-cases (ltb at cutoff)) [
      | inl early ↦
          inl ((closed, (at, when, ground (arith, early))), ground (arith, closed, when, early))
      | inr late ↦
          inr (inr (inr (at, when, ground (arith, late))), ground (arith, closed, when, late))
    ]
  ]
]

-- `Prune` forgets a finding if it is closed and was resolved before the cutoff. A finding that is
-- open, has no time of resolution, or was resolved later stays as it was; and none appears.
pub lookup-prune :
    (cutoff : ℕ) (db : Db) (fp : Bytes)
    → IsUnique db.findings
    → Left cutoff (lookup fp db.findings) (lookup fp (prune cutoff db).1.findings)
unfolding prune
lookup-prune cutoff db fp u =
    subst (Left cutoff (lookup fp db.findings))
      (sym (lookup-keep (λ (s : Stored). not (is_stale cutoff s)) fp db.findings u))
      (each (lookup fp db.findings))
  where
    each :
        (o : Option Stored)
        → Left cutoff o
            (elim o [ none ↦ none | some s ↦ if not (is_stale cutoff s) then some s else none ])
    each none = refl
    each (some s) = is_stale-Left cutoff s

-- The run of an event is among the runs.
abbrev pub has_run : List RunRow → EventRow → Bool
has_run runs e = any (λ (r : RunRow). r.id =? e.run_id) runs

abbrev pub HaveApartIds : RunRow → RunRow → Type 0
HaveApartIds a b = a.id ≢ b.id

has_run-keep_other :
    (p : RunRow → Bool) (r : RunRow) (runs : List RunRow) (e : EventRow)
    → r.id ≡ e.run_id
    → All (HaveApartIds r) runs
    → has_run (keep p runs) e ≡ false
has_run-keep_other p r [] e same apart = refl
has_run-keep_other p r (q ∷ runs) e same apart =
    ground (arith, same, apart.0, has_run-keep_other p r runs e same apart.1)

has_run-keep :
    (p : RunRow → Bool) (runs : List RunRow) (e : EventRow)
    → Pairs HaveApartIds runs
    → has_run runs e ≡ true
    → not (has_run (keep p runs) e) ≡ has_run (keep (λ (r : RunRow). not (p r)) runs) e
has_run-keep p [] e apart has = absurd (cc has)
has_run-keep p (r ∷ runs) e apart has = elim (Bool-cases (r.id =? e.run_id)) [
  | inl same ↦ ground (
    arith,
    same,
    has_run-keep_other p r runs e (ground (arith, same)) apart.0,
    has_run-keep_other (λ (q : RunRow). not (p q)) r runs e (ground (arith, same)) apart.0,
  )
  | inr other ↦ ground (arith, other, has, has_run-keep p runs e apart.1)
]

keep-ext {ℓ} :
    {A : Type ℓ} (p q : A → Bool) (xs : List A) → All (λ x. p x ≡ q x) xs → keep p xs ≡ keep q xs
keep-ext p q [] h = refl
keep-ext p q (x ∷ xs) h = ground (arith, h.0, keep-ext p q xs h.1)

-- An event stays exactly if its run does, and the events keep their order: so no event is left
-- without its run, and none is lost whose run is left. The runs have different ids, and each event
-- has its run before.
pub events-prune :
    (cutoff : ℕ) (db : Db)
    → Pairs HaveApartIds db.runs
    → All (λ e. has_run db.runs e ≡ true) db.events
    → (prune cutoff db).1.events ≡ keep (has_run (prune cutoff db).1.runs) db.events
unfolding prune
events-prune cutoff db apart have = keep-ext _ _ db.events (
    All-imp _ _ (λ e has. has_run-keep (is_pruned cutoff (max_id db.runs)) db.runs e apart has)
      db.events have)
