-- ===== src/Core/Target/Canonical.antt =====
-- What `ParseDomain` accepts is in canonical form, which `ParseDomain` leaves as it is.
use seta.Prelude.{
  ℕ, ◌≤◌, ◌≡◌, ◌≢◌, ◌↔◌, refl, Bool, true, false, not, ◌||◌, List, [], ◌∷◌, inl, inr, arith,
  Bool-cases, if◌then◌else◌, ◌=?◌, length, Bytes, codes, Result, ok, err, ◌>>=◌, ◌>>◌, trim_left,
  trim_right, trim_space, is_empty, contains_sub, contains_any, trim_suffix, lower_ascii, is_ascii,
  split_on, last_byte, bind-eq-ok, subst, All, All-imp, push_first,
}
use seta.Core.Target.{
  Target, Unicode, parse_domain, check_name, check_labels, valid_label, is_label_byte,
  all_label_bytes, domain_target, to_lower, ascii_name, DomainError,
}

-- The form that names have in fingerprints: at least two labels, each of 1 to 63 bytes from
-- a-z, 0-9, `-` and `_` with no hyphen at either end, and 253 bytes at most in all.
pub record IsLabel (l : Bytes) : Type 0 where
  pub not_empty : l ≢ []
  pub length_le : length l ≤ 63
  pub first : (c : ℕ) (s : Bytes) → l ≡ c ∷ s → (c ≢ b'-') × (last_byte c s ≢ b'-')
  pub bytes : all_label_bytes l ≡ true

pub record IsCanonical (name : Bytes) : Type 0 where
  pub length_le : length name ≤ 253
  pub two_labels : 2 ≤ length (split_on b'.' name)
  pub labels : All IsLabel (split_on b'.' name)

valid_label-IsLabel : (l : Bytes) → valid_label l ≡ ok tt → IsLabel l
unfolding valid_label
valid_label-IsLabel [] h = cc
valid_label-IsLabel (c ∷ s) h = record {
  not_empty = λ e. cc;
  length_le = ground arith;
  first = λ d t e. ground arith;
  bytes = ground arith;
}

check_labels-cons :
    (l : Bytes) (ls : List Bytes)
    → check_labels (l ∷ ls) ≡ ok tt
    → (valid_label l ≡ ok tt) × (check_labels ls ≡ ok tt)
unfolding check_labels
check_labels-cons l ls h = ground arith

check_labels-IsLabel : (ls : List Bytes) → check_labels ls ≡ ok tt → All IsLabel ls
check_labels-IsLabel [] h = tt
check_labels-IsLabel (l ∷ ls) h =
    let (first, rest) = check_labels-cons l ls h in
    (valid_label-IsLabel l first, check_labels-IsLabel ls rest)

check_name-IsCanonical : (n : Bytes) → check_name n ≡ ok tt → IsCanonical n
unfolding check_name
check_name-IsCanonical n h = record {
  length_le = ground arith;
  two_labels = ground arith;
  labels = check_labels-IsLabel (split_on b'.' n) (ground arith);
}

-- The bytes of a canonical name.
is_name_byte : ℕ → Bool
is_name_byte c = is_label_byte c || c =? b'.'

abbrev HasLabelBytes : Bytes → Type 0
HasLabelBytes l = all_label_bytes l ≡ true

push_first-HasLabelBytes :
    (c : ℕ) (ls : List Bytes)
    → All HasLabelBytes (push_first c ls)
    → (is_label_byte c ≡ true) × All HasLabelBytes ls
unfolding all_label_bytes
push_first-HasLabelBytes c [] h = (ground arith, tt)
push_first-HasLabelBytes c (l ∷ ls) h = (ground arith, (ground arith, h.1))

split_on-bytes :
    (n : Bytes) → All HasLabelBytes (split_on b'.' n) → All (λ c. is_name_byte c ≡ true) n
unfolding split_on is_name_byte
split_on-bytes [] h = tt
split_on-bytes (c ∷ n) h = elim (Bool-cases (c =? b'.')) [
  | inl dot ↦ (ground arith, split_on-bytes n (rw dot at h).1)
  | inr other ↦
      let (first, rest) = push_first-HasLabelBytes c (split_on b'.' n) (rw other at h) in
      (ground arith, split_on-bytes n rest)
]

trim_left_id : (n : Bytes) → All (λ c. is_name_byte c ≡ true) n → trim_left n ≡ n
unfolding trim_left is_name_byte is_label_byte
trim_left_id [] h = refl
trim_left_id (a ∷ []) h = ground arith
trim_left_id (a ∷ b ∷ []) h = ground arith
trim_left_id (a ∷ b ∷ c ∷ s) h = ground arith

trim_right_id : (n : Bytes) → All (λ c. is_name_byte c ≡ true) n → trim_right n ≡ n
unfolding trim_right
trim_right_id [] h = refl
trim_right_id (a ∷ n) h = ground (arith, trim_left_id (a ∷ n) h, trim_right_id n h.1)

trim_space_id : (n : Bytes) → All (λ c. is_name_byte c ≡ true) n → trim_space n ≡ n
unfolding trim_space
trim_space_id n h = rw (trim_left_id n h) (trim_right_id n h)

contains_sub_none :
    (n : Bytes) → All (λ c. is_name_byte c ≡ true) n → contains_sub (codes "://") n ≡ false
unfolding contains_sub is_name_byte is_label_byte
contains_sub_none [] h = refl
contains_sub_none (a ∷ n) h = ground (arith, contains_sub_none n h.1)

contains_any_none :
    (n : Bytes) → All (λ c. is_name_byte c ≡ true) n → contains_any (codes "/:@ ") n ≡ false
unfolding contains_any is_name_byte is_label_byte
contains_any_none [] h = refl
contains_any_none (a ∷ n) h = ground (arith, contains_any_none n h.1)

lower_ascii_id : (n : Bytes) → All (λ c. is_name_byte c ≡ true) n → lower_ascii n ≡ n
unfolding lower_ascii is_name_byte is_label_byte
lower_ascii_id [] h = refl
lower_ascii_id (a ∷ n) h = ground (arith, lower_ascii_id n h.1)

is_ascii-true : (n : Bytes) → All (λ c. is_name_byte c ≡ true) n → is_ascii n ≡ true
unfolding is_ascii is_name_byte is_label_byte
is_ascii-true [] h = refl
is_ascii-true (a ∷ n) h = ground (arith, is_ascii-true n h.1)

abbrev last_full : List Bytes → Bool
last_full [] = false
last_full (l ∷ []) = not (is_empty l)
last_full (l ∷ m ∷ ms) = last_full (m ∷ ms)

split_on-ne-nil : (sep : ℕ) (n : Bytes) → split_on sep n ≢ []
unfolding split_on
split_on-ne-nil sep [] h = cc
split_on-ne-nil sep (c ∷ n) h = ground (arith, split_on-ne-nil sep n)

-- The pieces of `d` in front of a text, and of `c` in front of that, by the text's own pieces.
abbrev before : ℕ → List Bytes → List Bytes
before d ls = if d =? b'.' then [] ∷ ls else push_first d ls

last_full-before :
    (c d : ℕ) (ls : List Bytes)
    → ls ≢ []
    → last_full (before c (before d ls)) ≡ true
    → last_full (before d ls) ≡ true
unfolding is_empty
last_full-before c d [] ne h = absurd (ne refl)
last_full-before c d (l ∷ []) ne h = ground arith
last_full-before c d (l ∷ m ∷ ms) ne h = ground arith

trim_suffix_id :
    (c : ℕ) (n : Bytes)
    → last_full (split_on b'.' (c ∷ n)) ≡ true
    → trim_suffix (codes ".") (c ∷ n) ≡ c ∷ n
unfolding trim_suffix split_on is_empty
trim_suffix_id c [] h = ground arith
trim_suffix_id c (d ∷ n) h =
    let whole : trim_suffix (codes ".") (d ∷ n) ≡ d ∷ n =
      trim_suffix_id d n (last_full-before c d (split_on b'.' n) (split_on-ne-nil b'.' n) h) in
    ground arith

All-last_full : (ls : List Bytes) → ls ≢ [] → All IsLabel ls → last_full ls ≡ true
unfolding is_empty
All-last_full [] ne h = absurd (ne refl)
All-last_full ([] ∷ []) ne h = absurd (h.0.not_empty refl)
All-last_full ((c ∷ l) ∷ []) ne h = refl
All-last_full (l ∷ m ∷ ms) ne h = All-last_full (m ∷ ms) (λ e. cc) h.1

check_labels-true : (ls : List Bytes) → All IsLabel ls → check_labels ls ≡ ok tt
unfolding check_labels valid_label
check_labels-true [] h = refl
check_labels-true ([] ∷ ls) h = absurd (h.0.not_empty refl)
check_labels-true ((c ∷ s) ∷ ls) h =
    let edge = h.0.first c s refl in
    let size = h.0.length_le in let bytes = h.0.bytes in ground (arith, check_labels-true ls h.1)

-- The checks of a name pass exactly for the canonical ones.
pub check_name_iff : (n : Bytes) → (check_name n ≡ ok tt) ↔ IsCanonical n
check_name_iff n = (check_name-IsCanonical n, go)
  where
    go : IsCanonical n → check_name n ≡ ok tt
    go h =
        let passed = check_labels-true (split_on b'.' n) h.labels in
        let size = h.length_le in let count = h.two_labels in unfold check_name in ground arith

accepted :
    (m : Result DomainError Bytes) {t : Target}
    → (do name ← m; check_name name; ok (domain_target name)) ≡ ok t
    → IsCanonical t.name × (t ≡ domain_target t.name)
accepted (err e) h = cc
accepted (ok n) {t} h =
    let (_, passed, made) = bind-eq-ok (check_name n) (λ _. ok (domain_target n)) h in
    let e : domain_target n ≡ t = cc in
    (
      subst (λ r. IsCanonical r.name) e ((check_name_iff n).0 passed),
      subst (λ r. r ≡ domain_target r.name) e refl,
    )

-- Whatever the case table and the IDNA conversion do, the name of a parsed target is canonical.
pub parse_domain-IsCanonical :
    (u : Unicode) (s : Bytes) {t : Target}
    → parse_domain u s ≡ ok t
    → IsCanonical t.name × (t ≡ domain_target t.name)
unfolding parse_domain
parse_domain-IsCanonical u s h =
    let raw = trim_space s in
    elim (Bool-cases (is_empty raw)) [
      | inl nothing ↦ absurd (cc (rw nothing at h))
      | inr there ↦
          elim (Bool-cases (contains_sub (codes "://") raw || contains_any (codes "/:@ ") raw)) [
            | inl bad ↦ absurd (cc (rw (there, bad) at h))
            | inr good ↦
                accepted (ascii_name u (to_lower u (trim_suffix (codes ".") raw)))
                  (rw (there, good) at h)
          ]
    ]

-- A canonical name is parsed as itself: parsing twice is parsing once.
pub parse_domain_idem :
    (u : Unicode) (n : Bytes) → IsCanonical n → parse_domain u n ≡ ok (domain_target n)
unfolding parse_domain ascii_name to_lower is_empty
parse_domain_idem u [] h = absurd (unfold split_on in omega (arith, h.two_labels))
parse_domain_idem u (c ∷ n) h =
    let bytes =
      split_on-bytes (c ∷ n) (All-imp IsLabel HasLabelBytes (λ l x. x.bytes) _ h.labels) in
    let full = All-last_full (split_on b'.' (c ∷ n)) (split_on-ne-nil _ _) h.labels in
    simp (
      trim_space_id (c ∷ n) bytes,
      contains_sub_none (c ∷ n) bytes,
      contains_any_none (c ∷ n) bytes,
      trim_suffix_id c n full,
      is_ascii-true (c ∷ n) bytes,
      lower_ascii_id (c ∷ n) bytes,
      (check_name_iff (c ∷ n)).1 h,
    )
