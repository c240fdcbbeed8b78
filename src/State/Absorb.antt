-- ===== src/State/Absorb.antt =====
-- The loop over the findings that are present, one fingerprint at a time.
use seta.Prelude.{
  ℕ, ◌≡◌, ◌≢◌, refl, sym, ap, ◌∙◌, map, List, [], ◌∷◌, ◌++◌, Option, none, some, arith,
  if◌then◌else◌, ◌==◌, ==_iff, Bytes, Map, lookup, insert, lookup-insert, IsUnique, insert-IsUnique,
  Bool-cases, inl, inr, All, Pairs, append_assoc, append-nil,
}
use seta.Core.Finding.{fingerprint_of}
use seta.State.{Row, Change}
use seta.State.Record.{Present, absorb, touch, classify}

module _ (digest : Bytes → Bytes) where
  abbrev pub fp_of : Present → Bytes
  fp_of p = fingerprint_of digest p.finding

  abbrev pub Distinct : Present → Present → Type 0
  Distinct p q = fp_of p ≢ fp_of q

  -- The present finding with a fingerprint.
  abbrev pub find_present : Bytes → List Present → Option Present
  find_present fp [] = none
  find_present fp (p ∷ ps) = if fp_of p == fp then some p else find_present fp ps

  find_present-other :
      (fp : Bytes) (ps : List Present) → All (λ q. fp ≢ fp_of q) ps → find_present fp ps ≡ none
  find_present-other fp [] h = refl
  find_present-other fp (q ∷ ps) h =
      ground (arith, h.0, ==_iff (fp_of q) fp, find_present-other fp ps h.1)

module _ (digest : Bytes → Bytes) (now : ℕ) where
  abbrev pub change_of : Map Row → Present → Change
  change_of rows p =
      let old = lookup (fp_of digest p) rows in
      record {
        kind = classify old p.suppressed;
        finding = p.finding;
        suppressed = p.suppressed;
        first_seen = (touch now (fp_of digest p) old p).first_seen;
      }

  abbrev absorbed : Bytes → List Present → Map Row → Option Row
  absorbed fp ps rows = elim (find_present digest fp ps) [
    | none ↦ lookup fp rows
    | some p ↦ some (touch now fp (lookup fp rows) p)
  ]

  pub lookup-absorb :
      (fp : Bytes) (ps : List Present) (rows : Map Row) (changes : List Change)
      → Pairs (Distinct digest) ps
      → lookup fp (absorb digest now ps rows changes).0 ≡ absorbed fp ps rows
  unfolding absorb
  lookup-absorb fp [] rows changes d = refl
  lookup-absorb fp (p ∷ ps) rows changes d =
      let old = lookup (fp_of digest p) rows in
      let written = touch now (fp_of digest p) old p in
      let rest =
        lookup-absorb fp ps (insert (fp_of digest p) written rows)
          (changes ++ (change_of rows p ∷ [])) d.1 in
      let found = lookup-insert (fp_of digest p) fp written rows in
      elim (Bool-cases (fp_of digest p == fp)) [
        | inl same ↦ ground (
          arith,
          (==_iff (fp_of digest p) fp).0 same,
          find_present-other digest (fp_of digest p) ps d.0,
        )
        | inr other ↦ ground arith
      ]

  pub absorb-IsUnique :
      (ps : List Present) (rows : Map Row) (changes : List Change)
      → IsUnique rows
      → IsUnique (absorb digest now ps rows changes).0
  unfolding absorb
  absorb-IsUnique [] rows changes u = u
  absorb-IsUnique (p ∷ ps) rows changes u = absorb-IsUnique ps _ _ (
      insert-IsUnique (fp_of digest p) (touch now (fp_of digest p) (lookup (fp_of digest p) rows) p)
        rows u)

  change_of-insert :
      (fp : Bytes) (r : Row) (rows : Map Row) (ps : List Present)
      → All (λ q. fp ≢ fp_of digest q) ps
      → map (change_of (insert fp r rows)) ps ≡ map (change_of rows) ps
  change_of-insert fp r rows [] h = refl
  change_of-insert fp r rows (q ∷ ps) h =
      let unchanged : lookup (fp_of digest q) (insert fp r rows) ≡ lookup (fp_of digest q) rows =
        ground (arith, lookup-insert fp (fp_of digest q) r rows, ==_iff fp (fp_of digest q), h.0) in
      cc (change_of-insert fp r rows ps h.1)

  -- The changes of the loop, each by the row that stood in the table when the run began.
  pub absorb-changes :
      (ps : List Present) (rows : Map Row) (changes : List Change)
      → Pairs (Distinct digest) ps
      → (absorb digest now ps rows changes).1 ≡ changes ++ map (change_of rows) ps
  unfolding absorb
  absorb-changes [] rows changes d = sym (append-nil changes)
  absorb-changes (p ∷ ps) rows changes d =
      let written = touch now (fp_of digest p) (lookup (fp_of digest p) rows) p in
      absorb-changes ps (insert (fp_of digest p) written rows) (changes ++ (change_of rows p ∷ []))
        d.1
      ∙ ap (λ cs. (changes ++ (change_of rows p ∷ [])) ++ cs)
          (change_of-insert (fp_of digest p) written rows ps d.0)
      ∙ append_assoc changes (change_of rows p ∷ []) (map (change_of rows) ps)
