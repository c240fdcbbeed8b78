-- ===== src/Tests/MemoTests.antt =====
-- Two callers that share work, as instances for internal/core/memo.go.
use seta.Prelude.{ℕ, ◌≡◌, ◌≢◌, refl, false, some, codes, Bytes, Result, ok, ◌==◌}
use seta.Core.Memo.{
  looking, computing, computed, cleared, waiting, left, make, store, clear, close, enter, wake,
  must_retry, calls, enters, computes, clears, closes, wakes, System, pick, init, Reach, start,
  later,
}
use seta.Core.Memo.Alone.{computing-alone, left-once}
use seta.Core.Memo.Finish.{after}
use seta.Core.Memo.Progress.{Leaves, calling-Leaves}

abbrev key : Bytes
key = codes "spf"

-- Caller 0 is in `fn`, and caller 1 waits for it.
abbrev asked : System ℕ
asked = after init 0 init.memo (looking key)

abbrev filling : System ℕ
filling = after asked 0 (make key asked.memo) (computing key 0)

abbrev joined : System ℕ
joined = after filling 1 filling.memo (looking key)

abbrev shared : System ℕ
shared = after joined 1 joined.memo (waiting key 0)

filling_reached : Reach filling
unfolding enter make
filling_reached = later (later start (pick 0 (calls key))) (pick 0 enters)

shared_reached : Reach shared
unfolding enter make ◌==◌
shared_reached = later (later filling_reached (pick 1 (calls key))) (pick 1 enters)

-- Both have left with the value.
abbrev seven : Result Bytes ℕ
seven = ok 7

abbrev stored : System ℕ
stored = after shared 0 (store 0 (some seven) false shared.memo) (computed key 0 (some seven))

abbrev kept : System ℕ
kept = after stored 0 (clear key 0 stored.memo) (cleared key 0 (some seven))

abbrev closed : System ℕ
closed = after kept 0 (close 0 kept.memo) (left key (some seven))

abbrev woken : System ℕ
woken = after closed 1 closed.memo (left key (some seven))

woken_reached : Reach woken
unfolding make store clear close wake must_retry
woken_reached =
    later
      (later (later (later shared_reached (pick 0 (computes (some seven) false))) (pick 0 clears))
        (pick 0 closes))
      (pick 1 (wakes refl))

computing-alone_example : ◌≡◌ {A = ℕ} 0 0
computing-alone_example = computing-alone shared shared_reached 0 0 key 0 0 refl refl

left-once_example :
    ((b : ℕ) → woken.pc 1 ≡ left key (some (ok b)) → ◌≡◌ {A = ℕ} 7 b)
    × ((e : ℕ) → woken.pc 1 ≢ computing key e)
left-once_example = left-once woken woken_reached 0 1 key 7 refl

calling-Leaves_example : Leaves shared 1 key
calling-Leaves_example = calling-Leaves shared 1 key 7 shared_reached refl
