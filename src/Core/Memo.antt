-- ===== src/Core/Memo.antt =====
-- internal/core/memo.go: callers that share work, interleaved in any order. A caller's steps are what it
-- does between two points at which another caller can see a difference: the lock is held in `enter` and
-- in `clear`. What `fn` returns, and whether the context of its caller has ended, is any value. The cache
-- of internal/dnsx/cache.go goes by the same steps.
pub mod Invariant
pub mod Frames
pub mod Kept
pub mod Fitted
pub mod Steps
pub mod Finish
pub mod Alone
pub mod Progress
use seta.Prelude.{
  ℕ, ◌+◌, ◌≡◌, refl, Bool, true, false, List, [], ◌∷◌, Option, none, some, if◌then◌else◌, ◌=?◌,
  ◌==◌, Bytes, Result, ok, err,
}

-- `memoEntry`; `outcome` is `none` until `fn` has returned. The name it was made for is not kept by the code,
-- and read by no operation.
pub record Entry (A : Type 0) : Type 0 where
  pub name : Bytes
  pub done : Bool
  pub outcome : Option (Result Bytes A)
  pub retry : Bool

-- `Memo`: the map, and every entry that was made, by its number; those from `next` on are not made.
pub record Memo (A : Type 0) : Type 0 where
  pub entries : Bytes → Option ℕ
  pub heap : ℕ → Entry A
  pub next : ℕ

-- Where a caller stands. An outcome is `none` where `fn` has panicked.
pub data Pc (A : Type 0) : Type 0 where
  idle : Pc A
  -- at the head of the loop of `Memoize`
  looking : Bytes → Pc A
  -- in `fn`, for an entry it has made
  computing : Bytes → ℕ → Pc A
  -- before the second deferred function of `fill`, and before the first
  computed cleared : Bytes → ℕ → Option (Result Bytes A) → Pc A
  -- in the `select`
  waiting : Bytes → ℕ → Pc A
  left : Bytes → Option (Result Bytes A) → Pc A
  canceled : Bytes → Pc A

abbrev pub put {ℓ} : {A : Type ℓ} → (ℕ → A) → ℕ → A → ℕ → A
put f i a j = if i =? j then a else f j

abbrev pub rename : (Bytes → Option ℕ) → Bytes → Option ℕ → Bytes → Option ℕ
rename f k o j = if k == j then o else f j

-- `NewMemo`
abbrev pub new_memo : {A : Type 0} → Memo A
new_memo = record {
  entries = λ k. none;
  heap = λ e. record { name = []; done = false; outcome = none; retry = false };
  next = 0;
}

-- A new entry under its name, and the assignment with which `fill` begins.
unfoldable pub make : {A : Type 0} → Bytes → Memo A → Memo A
make k m = record {
  entries = rename m.entries k (some m.next);
  heap = put m.heap m.next (record { name = k; done = false; outcome = none; retry = true });
  next = m.next + 1;
}

-- `e.retry` at the end of `fill`: of an error where the context has ended, and where `fn` has panicked.
unfoldable pub must_retry : {A : Type 0} → Option (Result Bytes A) → Bool → Bool
must_retry none ended = true
must_retry (some (ok a)) ended = false
must_retry (some (err e)) ended = ended

-- What `fill` stores of the outcome of `fn`.
unfoldable pub store : {A : Type 0} → ℕ → Option (Result Bytes A) → Bool → Memo A → Memo A
store e outcome ended m = record m {
  heap = put m.heap e (record (m.heap e) { outcome = outcome; retry = must_retry outcome ended });
}

-- The deferred function that deletes an entry to be tried again.
unfoldable pub clear : {A : Type 0} → Bytes → ℕ → Memo A → Memo A
clear k e m = if (m.heap e).retry then record m { entries = rename m.entries k none } else m

-- `close(e.done)`
unfoldable pub close : {A : Type 0} → ℕ → Memo A → Memo A
close e m = record m { heap = put m.heap e (record (m.heap e) { done = true }) }

-- The body of the loop under the lock: an entry that is there is waited for.
unfoldable pub enter : {A : Type 0} → Bytes → Memo A → Memo A × Pc A
enter k m = elim (m.entries k) [ none ↦ (make k m, computing k m.next) | some e ↦ (m, waiting k e) ]

-- What a caller does when the entry it waits for is done.
unfoldable pub wake : {A : Type 0} → Bytes → ℕ → Memo A → Pc A
wake k e m = if (m.heap e).retry then looking k else left k (m.heap e).outcome

pub data Move {A : Type 0} (m : Memo A) : Pc A → Memo A → Pc A → Type 0 where
  calls : (k : Bytes) → Move m idle m (looking k)
  enters : {k : Bytes} → Move m (looking k) (enter k m).0 (enter k m).1
  computes :
      {k : Bytes} {e : ℕ} (outcome : Option (Result Bytes A)) (ended : Bool)
      → Move m (computing k e) (store e outcome ended m) (computed k e outcome)
  clears :
      {k : Bytes} {e : ℕ} {outcome : Option (Result Bytes A)}
      → Move m (computed k e outcome) (clear k e m) (cleared k e outcome)
  closes :
      {k : Bytes} {e : ℕ} {outcome : Option (Result Bytes A)}
      → Move m (cleared k e outcome) (close e m) (left k outcome)
  wakes : {k : Bytes} {e : ℕ} → (m.heap e).done ≡ true → Move m (waiting k e) m (wake k e m)
  cancels : {k : Bytes} {e : ℕ} → Move m (waiting k e) m (canceled k)

pub record System (A : Type 0) : Type 0 where
  pub memo : Memo A
  pub pc : ℕ → Pc A

pub data Step {A : Type 0} (s : System A) : System A → Type 0 where
  pick :
      (i : ℕ) {m : Memo A} {p : Pc A}
      → Move s.memo (s.pc i) m p
      → Step s (record { memo = m; pc = put s.pc i p })

abbrev pub init : {A : Type 0} → System A
init = record { memo = new_memo; pc = λ i. idle }

pub data Reach {A : Type 0} : System A → Type 0 where
  start : Reach init
  later : {s t : System A} → Reach s → Step s t → Reach t
