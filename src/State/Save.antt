-- ===== src/State/Save.antt =====
-- `loadRows` and `saveRows` where no check was renamed, one fingerprint at a time.
use seta.Prelude.{
  ◌≡◌, refl, ap, ◌∙◌, not, [], ◌∷◌, Option, none, some, arith, if◌then◌else◌, ◌==◌, ==_iff, Bytes,
  Map, lookup, insert, lookup-insert, lookup-keep_keys, IsUnique, insert-IsUnique,
  keep_keys-IsUnique, Bool-cases, inl, inr, All,
}
use seta.State.{Row, EvidenceText, Stored}
use seta.State.Record.{
  scanned, renamed, load_onto, store_over, delete_fp, without, save_row, save_rows,
}

-- A row that stands under its own fingerprint and was not moved.
abbrev pub IsInPlace : Bytes × Row → Type 0
IsInPlace (fp, r) = (r.fp ≡ fp) × (r.old_fp ≡ [])

module _ (json : EvidenceText) where
  -- What `saveRows` leaves under a fingerprint whose row is `r`, where `old` stood.
  abbrev pub saved : Row → Option Stored → Option Stored
  saved r old = if r.gone then none else if not r.dirty then old else some (store_over json old r)

  abbrev pub stored : Option Row → Option Stored → Option Stored
  stored none old = old
  stored (some r) old = saved r old

  -- What `saveRows` does with a row, behind the deletion of its old fingerprint.
  abbrev written : Row → Map Stored → Map Stored
  written r kept =
      if r.gone
      then delete_fp r.fp kept
      else if not r.dirty
      then kept
      else insert r.fp (store_over json (lookup r.fp kept) r) kept

  save_row-written :
      (r : Row) (table : Map Stored) → r.old_fp ≡ [] → save_row json r table ≡ written r table
  unfolding save_row without
  save_row-written r table h = ap (λ (o : Bytes). written r (without o table)) h

  lookup-save_row :
      (key fp : Bytes) (r : Row) (table : Map Stored)
      → IsInPlace (fp, r)
      → lookup key (save_row json r table)
        ≡ (if fp == key then saved r (lookup key table) else lookup key table)
  unfolding delete_fp
  lookup-save_row key fp r table h =
      let shape = save_row-written r table h.1 in
      ground (
        arith,
        h.0,
        lookup-keep_keys (λ k. not (k == r.fp)) key table,
        lookup-insert r.fp key (store_over json (lookup r.fp table) r) table,
        ==_iff key r.fp,
        ==_iff r.fp key,
        ==_iff fp key,
      )

  pub lookup-save_rows :
      (key : Bytes) (rows : Map Row) (table : Map Stored)
      → All IsInPlace rows
      → IsUnique rows
      → lookup key (save_rows json rows table) ≡ stored (lookup key rows) (lookup key table)
  unfolding save_rows lookup
  lookup-save_rows key [] table h u = refl
  lookup-save_rows key ((fp, r) ∷ rest) table h u =
      let here = lookup-save_row key fp r table h.0 in
      let later = lookup-save_rows key rest (save_row json r table) h.1 u.1 in
      elim (Bool-cases (fp == key)) [
        | inl same ↦ ground (arith, (==_iff fp key).0 same, u.0)
        | inr other ↦ ground arith
      ]

  written-IsUnique : (r : Row) (kept : Map Stored) → IsUnique kept → IsUnique (written r kept)
  unfolding delete_fp store_over
  written-IsUnique r kept u = elim (Bool-cases r.gone) [
    | inl gone ↦ rw gone (keep_keys-IsUnique (λ k. not (k == r.fp)) kept u)
    | inr stays ↦ rw stays (elim (Bool-cases r.dirty) [
      | inl dirty ↦ rw dirty (insert-IsUnique r.fp (store_over json (lookup r.fp kept) r) kept u)
      | inr clean ↦ rw clean u
    ])
  ]

  without-IsUnique : (o : Bytes) (table : Map Stored) → IsUnique table → IsUnique (without o table)
  unfolding without delete_fp
  without-IsUnique [] table u = u
  without-IsUnique (c ∷ cs) table u = keep_keys-IsUnique (λ k. not (k == (c ∷ cs))) table u

  save_row-IsUnique :
      (r : Row) (table : Map Stored) → IsUnique table → IsUnique (save_row json r table)
  unfolding save_row
  save_row-IsUnique r table u =
      written-IsUnique r (without r.old_fp table) (without-IsUnique r.old_fp table u)

  pub save_rows-IsUnique :
      (rows : Map Row) (table : Map Stored) → IsUnique table → IsUnique (save_rows json rows table)
  unfolding save_rows
  save_rows-IsUnique [] table u = u
  save_rows-IsUnique ((fp, r) ∷ rest) table u =
      save_rows-IsUnique rest (save_row json r table) (save_row-IsUnique r table u)

-- A row whose check has its current ID.
abbrev pub IsCurrent : (Bytes → Bytes) → Bytes × Stored → Type 0
IsCurrent canonical (fp, s) = canonical s.check_id ≡ s.check_id

module _ (digest : Bytes → Bytes) (json : EvidenceText) (canonical : Bytes → Bytes) where
  renamed-current :
      (fp : Bytes) (s : Stored)
      → canonical s.check_id ≡ s.check_id
      → renamed digest canonical (scanned json fp s) ≡ scanned json fp s
  unfolding renamed scanned
  renamed-current fp s h = ground (arith, (==_iff (canonical s.check_id) s.check_id).1 h)

  pub load_onto-current :
      (fp : Bytes) (s : Stored) (rest : Map Stored) (rows : Map Row)
      → canonical s.check_id ≡ s.check_id
      → load_onto digest json canonical ((fp, s) ∷ rest) rows
        ≡ load_onto digest json canonical rest (insert fp (scanned json fp s) rows)
  unfolding load_onto scanned
  load_onto-current fp s rest rows h =
      ap (λ (r : Row). load_onto digest json canonical rest (insert r.fp r rows))
        (renamed-current fp s h)

  pub load_onto_lem :
      (key : Bytes) (table : Map Stored) (rows : Map Row)
      → All (IsCurrent canonical) table
      → IsUnique table
      → lookup key (load_onto digest json canonical table rows)
        ≡ (elim (lookup key table) [ none ↦ lookup key rows | some s ↦ some (scanned json key s) ])
  unfolding load_onto lookup scanned
  load_onto_lem key [] rows h u = refl
  load_onto_lem key ((fp, s) ∷ rest) rows h u =
      let step = load_onto-current fp s rest rows h.0 in
      let rest_lem = load_onto_lem key rest (insert fp (scanned json fp s) rows) h.1 u.1 in
      let written = lookup-insert fp key (scanned json fp s) rows in
      ap (lookup key) step ∙ rest_lem ∙ elim (Bool-cases (fp == key)) [
        | inl same ↦ ground (arith, (==_iff fp key).0 same, u.0)
        | inr other ↦ ground arith
      ]
