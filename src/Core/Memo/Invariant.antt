-- ===== src/Core/Memo/Invariant.antt =====
-- The invariant of the memo of internal/core/memo.go and its callers.
use seta.Prelude.{ℕ, ◌<◌, ◌≡◌, ◌≢◌, Bool, true, false, Option, none, some, Bytes, Result, ok}
use seta.Core.Memo.{Memo, Pc, idle, looking, computing, computed, cleared, waiting, left, canceled}

-- The entry that a caller fills.
abbrev pub Owns : {A : Type 0} → Pc A → ℕ → Type 0
Owns (computing k e) f = e ≡ f
Owns (computed k e o) f = e ≡ f
Owns (cleared k e o) f = e ≡ f
Owns _ f = ⊥

-- A value is never tried again.
abbrev pub IsKept : {A : Type 0} → Option (Result Bytes A) → Bool → Type 0
IsKept (some (ok a)) retry = retry ≡ false
IsKept _ retry = Unit

pub record IsMade {A : Type 0} (m : Memo A) (k : Bytes) (e : ℕ) : Type 0 where
  pub below : e < m.next
  pub named : (m.heap e).name ≡ k

pub record IsLive {A : Type 0} (m : Memo A) (k : Bytes) (e : ℕ) (o : Option (Result Bytes A))
    : Type 0 where
  pub made : IsMade m k e
  pub opened : (m.heap e).done ≡ false
  pub outcome : (m.heap e).outcome ≡ o
  pub value : IsKept o (m.heap e).retry

-- What a caller knows of the memo where it stands.
abbrev pub Fits : {A : Type 0} → Memo A → Pc A → Type 0
Fits m idle = Unit
Fits m (looking k) = Unit
Fits m (computing k e) = IsLive m k e none × (m.entries k ≡ some e) × ((m.heap e).retry ≡ true)
Fits m (computed k e o) = IsLive m k e o × (m.entries k ≡ some e)
Fits m (cleared k e o) = IsLive m k e o × ((m.heap e).retry ≡ true → m.entries k ≢ some e)
Fits m (waiting k e) = IsMade m k e
Fits {A} m (left k (some (ok a))) =
    (e : ℕ) × IsMade m k e × ((m.heap e).outcome ≡ some (ok a)) × ((m.heap e).retry ≡ false)
Fits m (left k _) = Unit
Fits m (canceled k) = Unit

-- What the map and the entries are to each other.
pub record IsOrdered {A : Type 0} (m : Memo A) : Type 0 where
  pub known : (k : Bytes) (e : ℕ) → m.entries k ≡ some e → IsMade m k e
  pub settled :
      (k : Bytes) (e : ℕ) → m.entries k ≡ some e → (m.heap e).done ≡ true → (m.heap e).retry ≡ false
  pub tied : (e : ℕ) → e < m.next → (m.heap e).retry ≡ false → m.entries (m.heap e).name ≡ some e

pub record Inv {A : Type 0} (m : Memo A) (pc : ℕ → Pc A) : Type 0 where
  pub ordered : IsOrdered m
  pub fits : (i : ℕ) → Fits m (pc i)
  pub sole : (i j e : ℕ) → Owns (pc i) e → Owns (pc j) e → i ≡ j
  pub owned : (e : ℕ) → e < m.next → (m.heap e).done ≡ false → (i : ℕ) × Owns (pc i) e
