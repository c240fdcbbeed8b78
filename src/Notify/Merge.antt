-- ===== src/Notify/Merge.antt =====
-- What `merge` keeps of each fingerprint.
use seta.Prelude.{ℕ, ◌≡◌, List, Option, none, some, Bytes, Map, lookup}
use seta.State.{persisting, Change}
use seta.Notify.Places.{position}

-- What stays of an undelivered change and a change of this run with one fingerprint: the later one,
-- but for a change that persists where the earlier one is of another kind.
abbrev pub latest : Option Change → Option Change → Option Change
latest old none = old
latest none (some c) = some c
latest (some o) (some c) = elim c.kind [
  | persisting ↦ elim o.kind [ persisting ↦ some c | _ ↦ some o ]
  | _ ↦ some c
]

module _ (digest : Bytes → Bytes) where
  -- The index leads to each change of the output.
  abbrev IsIndexed : Map ℕ → List Change → Type 0
  IsIndexed index out = (fp : Bytes) → lookup fp index ≡ position digest 0 fp out
