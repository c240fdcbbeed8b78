-- ===== src/Notify/Deliver.antt =====
-- `deliver` of internal/notify/notify.go, over the key-value table of State/Store. The JSON of the
-- pending changes and the text of a time are parameters, and so is what comes of a sending.
use seta.Prelude.{
  ℕ, ◌≤◌, ◌⊎◌, ◌-◌, ◌≡◌, refl, Bool, true, false, not, ◌&&◌, List, [], ◌∷◌, ◌++◌, Option, none,
  some, arith, if◌then◌else◌, leb, ◌=?◌, Bytes, codes, length, drop,
}
use seta.State.{Change, Diff, Db}
use seta.State.Store.{get, set, delete}
use seta.Notify.{Rule, filter, merge, is_none}

pub data Event : Type 0 where
  digest_event heartbeat_event test_event : Event

pub record Message : Type 0 where
  pub event : Event
  pub run_id : ℕ
  pub started : ℕ
  pub duration : ℕ
  pub targets : List Bytes
  pub changes : List Change
  pub open_count : ℕ
  pub errors : ℕ
  pub notifier : Bytes

-- The texts that are stored.
pub record Texts : Type 0 where
  pub encode : List Change → Bytes
  -- what json.Unmarshal leaves in `pending`
  pub decode : Bytes → List Change
  pub format : ℕ → Bytes
  pub parse : Bytes → Option ℕ

pub record Channel : Type 0 where
  pub name : Bytes
  pub rule : Rule
  -- `none` where the sending succeeds
  pub send : Message → Option Bytes

abbrev pub max_pending : ℕ
max_pending = 500

abbrev pub pending_key : Channel → Bytes
pending_key ch = codes "notify.pending." ++ ch.name

abbrev pub sent_key : Channel → Bytes
sent_key ch = codes "notify.last_sent." ++ ch.name

-- `changes[len(changes)-maxPending:]` of more than `maxPending`
unfoldable pub cap : List Change → List Change
cap changes = drop (length changes - max_pending) changes

-- The last 500 of the changes, or all where they are fewer: nothing is left out at the front, or 500
-- are kept.
abbrev pub IsLast500 : List Change → List Change → Type 0
IsLast500 all kept =
    (dropped : List Change) × (all ≡ dropped ++ kept)
    × (length kept ≤ 500)
    × ((dropped ≡ []) ⊎ (length kept ≡ 500))

is_nil : (xs : List Change) → length xs ≡ 0 → xs ≡ []
is_nil [] h = refl
is_nil (x ∷ xs) h = absurd (omega (arith, h))

module _ (digest : Bytes → Bytes) (texts : Texts) (now : ℕ) where
  -- `pending`
  unfoldable pub pending_of : Channel → Db → List Change
  pending_of ch db = elim (get (pending_key ch) db) [ none ↦ [] | some v ↦ texts.decode v ]

  -- `heartbeatDue`
  unfoldable pub heartbeat_due : Channel → Db → Bool
  heartbeat_due ch db = if ch.rule.heartbeat =? 0 then false else (elim (get (sent_key ch) db) [
    | none ↦ true
    | some v ↦ elim (texts.parse v) [ none ↦ true | some last ↦ leb ch.rule.heartbeat (now - last) ]
  ])

  unfoldable pub message : Channel → Diff → List Change → Message
  message ch diff changes = record {
    event = if is_none changes then heartbeat_event else digest_event;
    run_id = diff.run_id;
    started = diff.started;
    duration = diff.duration;
    targets = diff.targets;
    changes = changes;
    open_count = diff.open_count;
    errors = length diff.errors;
    notifier = ch.name;
  }

  -- The changes of the message.
  abbrev pub due_changes : Channel → Diff → Db → List Change
  due_changes ch diff db = merge digest (pending_of ch db) (filter ch.rule diff.changes)

  -- What follows the sending.
  unfoldable pub settle_notice :
      Channel → List Change → List Change → Option Bytes → Db → Option Bytes × Db
  settle_notice ch pending changes (some e) db =
      (some e, if is_none changes then db else set (pending_key ch) (texts.encode (cap changes)) db)
  settle_notice ch pending changes none db = (
    none,
    set (sent_key ch) (texts.format now)
        (if is_none pending then db else delete (pending_key ch) db),
  )

  -- `deliver`
  unfoldable pub deliver : Channel → Diff → Db → Option Bytes × Db
  deliver ch diff db =
      let changes = due_changes ch diff db in
      if is_none changes && not (heartbeat_due ch db)
      then (none, db)
      else settle_notice ch (pending_of ch db) changes (ch.send (message ch diff changes)) db

  -- What a delivery leaves: after a success nothing is pending and the time of sending is stored;
  -- after a failure the last 500 changes are stored, and the time of the last sending is as it was.
  abbrev pub Outcome : Channel → List Change → Option Bytes → Db → Option Bytes × Db → Type 0
  Outcome ch changes none db (returned, after) =
      (returned ≡ none)
      × (pending_of ch after ≡ [])
      × (get (sent_key ch) after ≡ some (texts.format now))
  Outcome ch changes (some why) db (returned, after) =
      (returned ≡ some why)
      × ((kept : List Change) × IsLast500 changes kept
          × (get (pending_key ch) after ≡ some (texts.encode kept)))
      × (get (sent_key ch) after ≡ get (sent_key ch) db)
