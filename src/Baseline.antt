-- ===== src/Baseline.antt =====
-- internal/baseline/baseline.go: findings accepted as known. A file is its decoded value; the JSON
-- text is left to encoding/json.
pub mod Known
pub mod Gone
use seta.Prelude.{
  ℕ, ◌-◌, ◌≡◌, Bool, true, false, not, ◌||◌, List, [], ◌∷◌, ◌++◌, map, Option, none, some,
  if◌then◌else◌, Bytes, Map, insert, has_key, length, Ordering, compare_bytes, ◌<>◌, sort_by,
  Result, ok, err, ◌>>=◌, ◌>>◌, is_empty, ℤ, pos, compare_int, ◌=?◌, suc, arith, refl, ap,
  Bool-cases, inl, inr,
}
use seta.Core.Severity.{Severity}
use seta.Core.Finding.{Finding, fingerprint, fingerprint_of}
use seta.Engine.{RunResult}

pub record Entry : Type 0 where
  pub fp : Bytes
  pub check_id : Bytes
  pub target : Bytes
  pub subject : Bytes
  pub severity : Severity
  pub title : Bytes

pub record File : Type 0 where
  pub version : ℤ
  pub findings : List Entry

-- `Version`
abbrev pub current_version : ℤ
current_version = pos 1

pub data ReadError : Type 0 where
  unsupported_version : ℤ → ReadError
  incomplete : ℕ → ReadError

-- The comparison of `New`.
unfoldable pub compare_entries : Entry → Entry → Ordering
compare_entries a b =
    compare_bytes a.target b.target
    <> compare_bytes a.check_id b.check_id
    <> compare_bytes a.subject b.subject

-- The loop of `Read` over the entries; `i` counts from 0.
unfoldable pub complete_from : ℕ → List Entry → Result ReadError (Unit {0})
complete_from i [] = ok tt
complete_from i (e ∷ es) =
    let rest = complete_from (suc i) es in
    if is_empty e.check_id || is_empty e.target then err (incomplete (suc i)) else rest

-- `Read`, behind the decoding of the file.
unfoldable pub read : File → Result ReadError File
read f = do
  (elim (compare_int f.version current_version) [
    | Ordering.eq ↦ ok tt
    | _ ↦ err (unsupported_version f.version)
  ])
  complete_from 0 f.findings
  ok f

module _ (digest : Bytes → Bytes) where
  abbrev pub entry_of : Finding → Entry
  entry_of x = record {
    fp = fingerprint_of digest x;
    check_id = x.check_id;
    target = x.target;
    subject = x.subject;
    severity = x.severity;
    title = x.title;
  }

  -- `New`
  unfoldable pub new_file : List Finding → File
  new_file findings = record {
    version = current_version;
    findings = sort_by compare_entries (map entry_of findings);
  }

  abbrev pub known_fp : (Bytes → Bytes) → Entry → Bytes
  known_fp canonical e = fingerprint digest (canonical e.check_id) e.target e.subject

  -- `known`
  unfoldable pub known_of : (Bytes → Bytes) → List Entry → Map Bool
  known_of canonical [] = []
  known_of canonical (e ∷ es) = insert (known_fp canonical e) true (known_of canonical es)

  -- The loop over the findings: `seen`, `kept` and what is appended to `Baselined`.
  unfoldable pub sift : Map Bool → List Finding → Map Bool → Map Bool × List Finding × List Finding
  sift known [] seen = (seen, [], [])
  sift known (x ∷ xs) seen =
      let fp = fingerprint_of digest x in
      let (seen_with, kept_with, baselined_with) = sift known xs (insert fp true seen) in
      let (seen_without, kept_without, baselined_without) = sift known xs seen in
      if has_key fp known
      then (seen_with, kept_with, x ∷ baselined_with)
      else (seen_without, x ∷ kept_without, baselined_without)

  -- `File.Apply`
  unfoldable pub apply : (Bytes → Bytes) → File → RunResult → ℕ × RunResult
  apply canonical f res =
      let known = known_of canonical f.findings in
      let (seen, kept, baselined) = sift known res.findings [] in
      (
        length known - length seen,
        record res { findings = kept; baselined = res.baselined ++ baselined },
      )
