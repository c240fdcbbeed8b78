-- ===== src/Email/Mtasts/Matching.antt =====
-- `Match` of checks/email/internal/mtasts/mtasts.go and the hosts of a pattern.
use seta.Prelude.{
  ℕ, ◌≡◌, ◌≢◌, refl, sym, ap, ◌∙◌, true, false, [], ◌∷◌, ◌++◌, none, some, Option-cases, arith,
  ◌=?◌, =?_iff, ==_iff, Bytes, codes, is_empty, cut, cut-append, cut_prefix, All, ◌⊎◌, inl, inr,
  ◌↔◌, Bool-cases,
}
use seta.Core.Target.{Unicode}
use seta.Email.Mtasts.{host_name, matches_mx}

-- A host in lower case and without a dot at its end is the pattern, or, if the pattern begins with `*.`, one label that is not
-- empty in front of what follows.
abbrev pub IsCovered : Bytes → Bytes → Type 0
IsCovered pattern host =
    ((suffix : Bytes) × (label : Bytes) × (pattern ≡ codes "*." ++ suffix)
      × (label ≢ [])
      × All (λ c. c ≢ b'.') label
      × (host ≡ label ++ (b'.' ∷ suffix)))
    ⊎ (((suffix : Bytes) → pattern ≢ codes "*." ++ suffix) × (host ≡ pattern))

cut-found :
    (sep : ℕ) (s : Bytes)
    → (cut sep s).2 ≡ true
    → (s ≡ (cut sep s).0 ++ (sep ∷ (cut sep s).1)) × All (λ c. c ≢ sep) (cut sep s).0
unfolding cut
cut-found sep [] h = absurd (cc h)
cut-found sep (c ∷ s) h = elim (Bool-cases (c =? sep)) [
  | inl same ↦ rw same (ap (λ x. x ∷ s) ((=?_iff c sep).0 same), tt)
  | inr differ ↦
      let rest = cut-found sep s (ground (arith, h, differ)) in
      rw differ
        (ap (λ x. c ∷ x) rest.0, ((λ same. ground (arith, =?_iff c sep, same, differ)), rest.1))
]

cut_prefix-append : (p s : Bytes) → cut_prefix p (p ++ s) ≡ some s
unfolding cut_prefix
cut_prefix-append [] s = refl
cut_prefix-append (c ∷ p) s = ground (arith, =?_iff c c, cut_prefix-append p s)

cut_prefix-eq-some : (p s t : Bytes) → cut_prefix p s ≡ some t → s ≡ p ++ t
unfolding cut_prefix
cut_prefix-eq-some [] s t h = cc h
cut_prefix-eq-some (c ∷ p) [] t h = absurd (cc h)
cut_prefix-eq-some (c ∷ p) (d ∷ s) t h = ground (arith, =?_iff c d, h, cut_prefix-eq-some p s t)

not_empty : (s : Bytes) → s ≢ [] → is_empty s ≡ false
unfolding is_empty
not_empty [] h = absurd (h refl)
not_empty (c ∷ s) h = refl

module _ (u : Unicode) (pattern host : Bytes) where
  wildcard_lem :
      (suffix : Bytes)
      → cut_prefix (codes "*.") pattern ≡ some suffix
      → (matches_mx u pattern host ≡ true) ↔ IsCovered pattern (host_name u host)
  unfolding matches_mx is_empty cut_prefix
  wildcard_lem suffix h =
      let text = host_name u host in
      (
        λ m.
            let found : (cut b'.' text).2 ≡ true = ground (arith, h, m) in
            let full : is_empty (cut b'.' text).0 ≡ false = ground (arith, h, m) in
            let same : (cut b'.' text).1 ≡ suffix =
              (==_iff (cut b'.' text).1 suffix).0 (ground (arith, h, m)) in
            let parts = cut-found b'.' text found in
            inl (
              suffix,
              (cut b'.' text).0,
              cut_prefix-eq-some (codes "*.") pattern suffix h,
              (λ e. absurd (cc (ap is_empty e, full))),
              parts.1,
              parts.0 ∙ ap (λ x. (cut b'.' text).0 ++ (b'.' ∷ x)) same,
            ),
        λ covered. elim covered [
          | inr (other, _) ↦
              absurd (other suffix (cut_prefix-eq-some (codes "*.") pattern suffix h))
          | inl (rest, label, begins, full, plain, made) ↦
              let again : cut_prefix (codes "*.") pattern ≡ some rest =
                ap (cut_prefix (codes "*.")) begins ∙ cut_prefix-append (codes "*.") rest in
              let same : suffix ≡ rest = cc (h, again) in
              let cuts : cut b'.' text ≡ (label, rest, true) =
                ap (cut b'.') made ∙ cut-append b'.' label rest plain in
              rw (h, cuts, not_empty label full) ((==_iff rest suffix).1 (sym same))
        ],
      )

  exact_lem :
      cut_prefix (codes "*.") pattern ≡ none
      → (matches_mx u pattern host ≡ true) ↔ IsCovered pattern (host_name u host)
  unfolding matches_mx cut_prefix
  exact_lem h =
      let away : (suffix : Bytes) → pattern ≢ codes "*." ++ suffix = λ suffix e.
        absurd (cc (ap (cut_prefix (codes "*.")) e ∙ cut_prefix-append (codes "*.") suffix, h)) in
      (
        λ m. inr (away, (==_iff (host_name u host) pattern).0 (ground (arith, h, m))),
        λ covered. elim covered [
          | inl (suffix, _, begins, _, _, _) ↦ absurd (away suffix begins)
          | inr (_, same) ↦ rw h ((==_iff (host_name u host) pattern).1 same)
        ],
      )

  -- A host matches a pattern if and only if its name, in lower case and without a dot at its end, is the pattern, or the
  -- pattern begins with `*.` and the name is what follows behind one label, which is not empty, and a dot.
  pub matches_mx_iff : (matches_mx u pattern host ≡ true) ↔ IsCovered pattern (host_name u host)
  matches_mx_iff = elim (Option-cases (cut_prefix (codes "*.") pattern)) [
    | inl exact ↦ exact_lem exact
    | inr (suffix, h) ↦ wildcard_lem suffix h
  ]
