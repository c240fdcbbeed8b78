-- ===== src/State.antt =====
-- internal/state: findings kept across runs in SQLite, and what each run changed. The tables stand
-- here as maps and lists, with the effect that each SQL statement of the code has on them; a
-- statement that violates a primary key is an error, which rolls the transaction back.
pub mod Record
pub mod Sweep
pub mod Absorb
pub mod Save
pub mod InPlace
pub mod Events
pub mod Machine
pub mod Refine
pub mod Total
pub mod Sound
pub mod History
pub mod Store
use seta.Prelude.{
  ℕ, ◌≡◌, Bool, true, false, List, [], ◌∷◌, Option, none, some, if◌then◌else◌, ◌==◌, Bytes, codes,
  Map, ℤ, pos, negsuc, Ordering, compare, compare_bytes, ◌<>◌,
}
use seta.Core.Severity.{Severity}
use seta.Core.Finding.{Finding}
use seta.Engine.{CheckError, compare_findings}

pub data Kind : Type 0 where
  fresh persisting resolved regressed : Kind

-- `ParseKind`
unfoldable pub parse_kind : Bytes → Option Kind
parse_kind s =
    if s == codes "new"
    then some fresh
    else if s == codes "persisting"
    then some persisting
    else if s == codes "resolved"
    then some resolved
    else if s == codes "regressed"
    then some regressed
    else none

pub record Change : Type 0 where
  pub kind : Kind
  pub finding : Finding
  pub suppressed : Bool
  pub first_seen : ℕ

pub record Diff : Type 0 where
  pub run_id : ℕ
  pub started : ℕ
  pub duration : ℕ
  pub targets : List Bytes
  pub changes : List Change
  pub errors : List CheckError
  pub open_count : ℕ

pub record Options : Type 0 where
  pub resolve_after : ℤ
  -- the current ID of a recorded check
  pub canonical : Bytes → Bytes

-- `row`
pub record Row : Type 0 where
  pub fp : Bytes
  pub finding : Finding
  pub is_open : Bool
  pub suppressed : Bool
  pub missing : ℕ
  pub first_seen : ℕ
  pub last_seen : ℕ
  pub resolved_at : Option ℕ
  pub dirty : Bool
  pub gone : Bool
  pub old_fp : Bytes

-- The evidence of a finding as the column holds it: `json.Marshal`, and what `json.Unmarshal` leaves, its
-- error ignored. Marshal replaces what is not UTF-8, so that what is read back may differ.
pub record EvidenceText : Type 0 where
  pub encode : List (Bytes × Bytes) → Bytes
  pub decode : Bytes → List (Bytes × Bytes)

-- A row of the table `findings` behind its key.
pub record Stored : Type 0 where
  pub check_id : Bytes
  pub target : Bytes
  pub subject : Bytes
  pub severity : Bytes
  pub title : Bytes
  -- JSON
  pub evidence : Bytes
  pub remediation : Bytes
  pub is_open : Bool
  pub suppressed : Bool
  pub missing_runs : ℕ
  pub first_seen : ℕ
  pub last_seen : ℕ
  pub resolved_at : Option ℕ

-- Rows of the tables `runs` and `events`.
pub record RunRow : Type 0 where
  pub id : ℕ
  pub started_at : ℕ
  pub duration_ms : ℕ
  pub checks_run : ℕ
  pub finding_count : ℕ
  pub check_errors : ℕ

pub record EventRow : Type 0 where
  pub run_id : ℕ
  pub fp : Bytes
  pub kind : Kind
  pub severity : Bytes

pub record Db : Type 0 where
  -- the highest run ID that was ever given out
  pub last_id : ℕ
  pub runs : List RunRow
  pub findings : Map Stored
  pub events : List EventRow
  pub kv : Map Bytes

abbrev pub empty_db : Db
empty_db = record { last_id = 0; runs = []; findings = []; events = []; kv = [] }

-- `kindOrder`
unfoldable pub kind_order : Kind → ℕ
kind_order fresh = 0
kind_order regressed = 1
kind_order resolved = 2
kind_order persisting = 3

-- `CompareChanges`
unfoldable pub compare_changes : Change → Change → Ordering
compare_changes a b =
    compare_bytes a.finding.target b.finding.target
    <> compare (kind_order a.kind) (kind_order b.kind)
    <> compare_findings a.finding b.finding
