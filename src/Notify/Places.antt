-- ===== src/Notify/Places.antt =====
-- The places of changes in the output of `merge`, and the index that leads to them.
use seta.Prelude.{
  ℕ, zero, suc, ◌+◌, ◌≤◌, ◌≡◌, ◌≢◌, refl, sym, ap, map, List, [], ◌∷◌, ◌++◌, Option, none, some,
  arith, if◌then◌else◌, ◌==◌, ==_iff, Bytes, Map, lookup, insert, lookup-insert, length, All, Pairs,
  Bool-cases, inl, inr,
}
use seta.State.{Change}
use seta.State.Events.{change_fp, Apart}
use seta.Notify.{get_at, set_at, index_from}

module _ (digest : Bytes → Bytes) where
  -- The first change with a fingerprint, and its place.
  abbrev pub find_change : Bytes → List Change → Option Change
  find_change fp [] = none
  find_change fp (c ∷ cs) = if change_fp digest c == fp then some c else find_change fp cs

  abbrev pub position : ℕ → Bytes → List Change → Option ℕ
  position i fp [] = none
  position i fp (c ∷ cs) = if change_fp digest c == fp then some i else position (suc i) fp cs

  pub position-append :
      (i : ℕ) (fp : Bytes) (out : List Change) (c : Change)
      → position i fp (out ++ (c ∷ [])) ≡ (elim (position i fp out) [
        | none ↦ if change_fp digest c == fp then some (i + length out) else none
        | some j ↦ some j
      ])
  position-append i fp [] c = ground arith
  position-append i fp (o ∷ out) c = ground (arith, position-append (suc i) fp out c)

  pub find-append :
      (fp : Bytes) (out : List Change) (c : Change)
      → find_change fp (out ++ (c ∷ [])) ≡ (elim (find_change fp out) [
        | none ↦ if change_fp digest c == fp then some c else none
        | some o ↦ some o
      ])
  find-append fp [] c = ground arith
  find-append fp (o ∷ out) c = ground (arith, find-append fp out c)

  pub position-none :
      (i : ℕ) (fp : Bytes) (out : List Change)
      → position i fp out ≡ none
      → find_change fp out ≡ none
  position-none i fp [] h = refl
  position-none i fp (o ∷ out) h = ground (arith, h, position-none (suc i) fp out)

  pub find_change-other :
      (fp : Bytes) (out : List Change)
      → All (λ c. fp ≢ change_fp digest c) out
      → find_change fp out ≡ none
  find_change-other fp [] h = refl
  find_change-other fp (o ∷ out) h =
      ground (arith, ==_iff (change_fp digest o) fp, h.0, find_change-other fp out h.1)

  pub find_change-none :
      (fp : Bytes) (out : List Change)
      → find_change fp out ≡ none
      → All (λ c. change_fp digest c ≢ fp) out
  find_change-none fp [] h = tt
  find_change-none fp (o ∷ out) h = (
    ground (arith, ==_iff (change_fp digest o) fp, h),
    find_change-none fp out (ground (arith, h)),
  )

  position-other :
      (i : ℕ) (fp : Bytes) (out : List Change)
      → All (λ c. fp ≢ change_fp digest c) out
      → position i fp out ≡ none
  position-other i fp [] h = refl
  position-other i fp (o ∷ out) h =
      ground (arith, ==_iff (change_fp digest o) fp, h.0, position-other (suc i) fp out h.1)

  position-ge : (i at : ℕ) (fp : Bytes) (out : List Change) → position i fp out ≡ some at → i ≤ at
  position-ge i at fp [] h = absurd (cc h)
  position-ge i at fp (o ∷ out) h = elim (Bool-cases (change_fp digest o == fp)) [
    | inl same ↦ ground (arith, same, h)
    | inr other ↦
        let above = position-ge (suc i) at fp out (ground (arith, other, h)) in omega (arith, above)
  ]

  pub index_from_lem :
      (i : ℕ) (fp : Bytes) (cs : List Change) (index : Map ℕ)
      → Pairs (Apart digest) cs
      → lookup fp (index_from digest i cs index)
        ≡ (elim (position i fp cs) [ none ↦ lookup fp index | some j ↦ some j ])
  unfolding index_from
  index_from_lem i fp [] index d = refl
  index_from_lem i fp (c ∷ cs) index d =
      let rest = index_from_lem (suc i) fp cs (insert (change_fp digest c) i index) d.1 in
      let written = lookup-insert (change_fp digest c) fp i index in
      let others = position-other (suc i) (change_fp digest c) cs d.0 in
      elim (Bool-cases (change_fp digest c == fp)) [
        | inl same ↦ ground (arith, rest, written, others, (==_iff (change_fp digest c) fp).0 same)
        | inr other ↦ ground (arith, rest, written, other)
      ]

  -- A change that takes the place of one with its fingerprint.
  pub record Replaced (i : ℕ) (c : Change) (out : List Change) (at : ℕ) : Type 0 where
    pub gets : get_at at out ≡ find_change (change_fp digest c) out
    pub finds :
        (fp : Bytes)
        → find_change fp (set_at at c out)
          ≡ (if change_fp digest c == fp then some c else find_change fp out)
    pub places : (fp : Bytes) → position i fp (set_at at c out) ≡ position i fp out
    pub prints : map (change_fp digest) (set_at at c out) ≡ map (change_fp digest) out

  pub replaced :
      (i j : ℕ) (c : Change) (out : List Change)
      → position i (change_fp digest c) out ≡ some (i + j)
      → Replaced i c out j
  unfolding get_at set_at
  replaced i j c [] h = absurd (cc h)
  replaced i zero c (o ∷ out) h =
      let same : change_fp digest o ≡ change_fp digest c =
        elim (Bool-cases (change_fp digest o == change_fp digest c)) [
          | inl same ↦ (==_iff (change_fp digest o) (change_fp digest c)).0 same
          | inr other ↦
              let above =
                position-ge (suc i) (i + 0) (change_fp digest c) out (ground (arith, other, h)) in
              absurd (omega (arith, above))
        ] in
      record {
        gets = ground (arith, same, ==_iff (change_fp digest o) (change_fp digest c));
        finds = λ fp. ground (arith, same);
        places = λ fp. ground (arith, same);
        prints = ap (λ k. k ∷ map (change_fp digest) out) (sym same);
      }
  replaced i (suc j) c (o ∷ out) h = elim (Bool-cases (change_fp digest o == change_fp digest c)) [
    | inl same ↦ absurd (ground (arith, same, h))
    | inr other ↦
        let below : position (suc i) (change_fp digest c) out ≡ some (suc i + j) =
          ground (arith, other, h) in
        let inner = replaced (suc i) j c out below in
        record {
          gets = ground (arith, other, inner.gets);
          finds = λ fp. ground (
            arith,
            inner.finds fp,
            other,
            ==_iff (change_fp digest o) fp,
            ==_iff (change_fp digest c) fp,
            ==_iff (change_fp digest o) (change_fp digest c),
          );
          places = λ fp. ground (arith, inner.places fp);
          prints = ap (λ ks. change_fp digest o ∷ ks) inner.prints;
        }
  ]

  pub position-of_none :
      (i : ℕ) (fp : Bytes) (out : List Change)
      → find_change fp out ≡ none
      → position i fp out ≡ none
  position-of_none i fp [] h = refl
  position-of_none i fp (o ∷ out) h = ground (arith, h, position-of_none (suc i) fp out)
