-- ===== src/Baseline/Known.antt =====
-- What `File.Apply` accepts as known.
use seta.Prelude.{
  ◌≡◌, refl, ap, ◌∙◌, Bool, true, not, ◌||◌, List, [], ◌∷◌, ◌++◌, map, arith, ◌==◌, ==_iff, Bytes,
  Map, lookup, insert, lookup-insert, has_key, any, keep, sort_by, insert_by, Ordering, All,
  All-imp, All-and,
}
use seta.Core.Finding.{Finding, fingerprint, fingerprint_of}
use seta.Engine.{RunResult}
use seta.Baseline.{
  Entry, File, entry_of, new_file, known_fp, known_of, sift, apply, compare_entries,
}

pub has_key-insert {ℓ} :
    {V : Type ℓ} (written key : Bytes) (new : V) (entries : Map V)
    → has_key key (insert written new entries) ≡ (written == key || has_key key entries)
unfolding has_key
has_key-insert written key new entries = ground (arith, lookup-insert written key new entries)

any-insert_by {ℓ} :
    {A : Type ℓ} (cmp : A → A → Ordering) (p : A → Bool) (x : A) (ys : List A)
    → any p (insert_by cmp x ys) ≡ (p x || any p ys)
unfolding insert_by
any-insert_by cmp p x [] = refl
any-insert_by cmp p x (y ∷ ys) = ground (arith, any-insert_by cmp p x ys)

any-sort_by {ℓ} :
    {A : Type ℓ} (cmp : A → A → Ordering) (p : A → Bool) (xs : List A)
    → any p (sort_by cmp xs) ≡ any p xs
unfolding sort_by
any-sort_by cmp p [] = refl
any-sort_by cmp p (x ∷ xs) =
    any-insert_by cmp p x (sort_by cmp xs) ∙ ap (λ b. p x || b) (any-sort_by cmp p xs)

module _ (digest : Bytes → Bytes) (canonical : Bytes → Bytes) where
  -- Some entry, under the current ID of its check, has the fingerprint of the finding.
  abbrev pub is_listed : List Entry → Finding → Bool
  is_listed entries x =
      any (λ (e : Entry). known_fp digest canonical e == fingerprint_of digest x) entries

  has_key-known_of :
      (entries : List Entry) (x : Finding)
      → has_key (fingerprint_of digest x) (known_of digest canonical entries) ≡ is_listed entries x
  unfolding known_of has_key lookup
  has_key-known_of [] x = refl
  has_key-known_of (e ∷ es) x =
      has_key-insert (known_fp digest canonical e) (fingerprint_of digest x) true
        (known_of digest canonical es)
      ∙ ap (λ b. known_fp digest canonical e == fingerprint_of digest x || b)
          (has_key-known_of es x)

  sift_lem :
      (entries : List Entry) (xs : List Finding) (seen : Map Bool)
      → ((sift digest (known_of digest canonical entries) xs seen).1
          ≡ keep (λ x. not (is_listed entries x)) xs)
        × ((sift digest (known_of digest canonical entries) xs seen).2
            ≡ keep (is_listed entries) xs)
  unfolding sift
  sift_lem entries [] seen = (refl, refl)
  sift_lem entries (x ∷ xs) seen =
      let same = has_key-known_of entries x in
      let stays = sift_lem entries xs seen in
      let goes = sift_lem entries xs (insert (fingerprint_of digest x) true seen) in
      (ground (arith, same, stays.0, goes.0), ground (arith, same, stays.1, goes.1))

  -- `Apply` keeps the findings that no entry lists and appends the others to the baselined ones, both
  -- in their order, whatever was baselined before.
  pub apply_lem :
      (f : File) (res : RunResult)
      → ((apply digest canonical f res).1.findings
          ≡ keep (λ x. not (is_listed f.findings x)) res.findings)
        × ((apply digest canonical f res).1.baselined
            ≡ res.baselined ++ keep (is_listed f.findings) res.findings)
  unfolding apply
  apply_lem f res =
      let parts = sift_lem f.findings res.findings [] in
      (parts.0, ap (λ (xs : List Finding). res.baselined ++ xs) parts.1)

module _ (digest : Bytes → Bytes) (canonical : Bytes → Bytes) where
  is_listed-entry_of :
      (xs : List Finding) (x : Finding)
      → canonical x.check_id ≡ x.check_id
      → (any (λ (y : Finding). fingerprint_of digest y == fingerprint_of digest x) xs ≡ true)
      → All (λ (y : Finding). canonical y.check_id ≡ y.check_id) xs
      → any
          (λ (e : Entry). known_fp digest canonical e == fingerprint_of digest x)
          (map (entry_of digest) xs)
        ≡ true
  unfolding fingerprint_of
  is_listed-entry_of [] x c h a = h
  is_listed-entry_of (y ∷ ys) x c h a = ground (
    arith,
    h,
    is_listed-entry_of ys x c,
    a.1,
    ap (λ id. fingerprint digest id y.target y.subject) a.0,
  )

  new_file-is_listed :
      (xs : List Finding) (x : Finding)
      → canonical x.check_id ≡ x.check_id
      → (any (λ (y : Finding). fingerprint_of digest y == fingerprint_of digest x) xs ≡ true)
      → All (λ (y : Finding). canonical y.check_id ≡ y.check_id) xs
      → is_listed digest canonical (new_file digest xs).findings x ≡ true
  unfolding new_file
  new_file-is_listed xs x c h a =
      any-sort_by compare_entries
        (λ (e : Entry). known_fp digest canonical e == fingerprint_of digest x)
        (map (entry_of digest) xs)
      ∙ is_listed-entry_of xs x c h a

  keep-listed :
      (entries : List Entry) (xs : List Finding)
      → All (λ x. is_listed digest canonical entries x ≡ true) xs
      → (keep (λ x. not (is_listed digest canonical entries x)) xs ≡ [])
        × (keep (is_listed digest canonical entries) xs ≡ xs)
  keep-listed entries [] h = (refl, refl)
  keep-listed entries (x ∷ xs) h =
      let rest = keep-listed entries xs h.1 in
      (ground (arith, h.0, rest.0), ground (arith, h.0, rest.1))

  any-itself :
      (xs : List Finding)
      → All
          (λ x. any (λ (y : Finding). fingerprint_of digest y == fingerprint_of digest x) xs ≡ true)
          xs
  any-itself [] = tt
  any-itself (x ∷ xs) = (
    ground (arith, ==_iff (fingerprint_of digest x) (fingerprint_of digest x)),
    All-imp _
        (λ z.
          any (λ (y : Finding). fingerprint_of digest y == fingerprint_of digest z) (x ∷ xs) ≡ true)
        (λ z h. ground (arith, h)) xs (any-itself xs),
  )

  -- A baseline that is made of a run's findings, under current check IDs, accepts all of them: no
  -- finding is left, and each is baselined.
  pub apply-new_file :
      (res : RunResult)
      → All (λ (y : Finding). canonical y.check_id ≡ y.check_id) res.findings
      → ((apply digest canonical (new_file digest res.findings) res).1.findings ≡ [])
        × ((apply digest canonical (new_file digest res.findings) res).1.baselined
            ≡ res.baselined ++ res.findings)
  apply-new_file res c =
      let f = new_file digest res.findings in
      let listed =
        All-imp _ (λ x. is_listed digest canonical f.findings x ≡ true)
          (λ x h. new_file-is_listed res.findings x h.0 h.1 c) res.findings
          (All-and (λ (y : Finding). canonical y.check_id ≡ y.check_id) _ res.findings c
            (any-itself res.findings)) in
      let both = keep-listed f.findings res.findings listed in
      let parts = apply_lem digest canonical f res in
      (parts.0 ∙ both.0, parts.1 ∙ ap (λ (xs : List Finding). res.baselined ++ xs) both.1)
