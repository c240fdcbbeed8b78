-- ===== src/Engine/Normal.antt =====
-- What `normalize` lets through.
use seta.Prelude.{
  ◌≡◌, ◌≢◌, refl, sym, subst, true, false, List, [], ◌∷◌, map, inl, inr, arith, ◌==◌, ==_iff, Bytes,
  Bool-cases, ok, bind-eq-ok, any, All, All-imp, Pairs, Pairs-imp,
}
use seta.Core.Severity.{is_valid}
use seta.Core.Finding.{Finding, NoNul, fingerprint_input, fingerprint_input_injective}
use seta.Core.Target.{Target}
use seta.Core.Check.{Meta}
use seta.Engine.{normalize, normalize_from, normalize_one}

-- A finding that carries its check, its target and a severity of the five.
pub record IsNormal (m : Meta) (t : Target) (f : Finding) : Type 0 where
  pub check_id : f.check_id ≡ m.id
  pub target : f.target ≡ t.name
  pub severity : is_valid f.severity ≡ true

normalize_one-IsNormal :
    (m : Meta) (t : Target) (f : Finding) {g : Finding}
    → is_valid m.severity ≡ true
    → normalize_one m t f ≡ ok g
    → IsNormal m t g × (g.subject ≡ f.subject)
unfolding normalize_one
normalize_one-IsNormal m t f v h = (
  record {
    check_id = ground (arith, ==_iff f.check_id m.id);
    target = ground (arith, ==_iff f.target t.name);
    severity = ground arith;
  },
  ground arith,
)

abbrev pub Differ : Finding → Finding → Type 0
Differ f g = f.subject ≢ g.subject

abbrev pub Unseen : List Bytes → Finding → Type 0
Unseen seen f = any (λ s. s == f.subject) seen ≡ false

-- What a run of the loop has established, behind the subjects `seen` before it.
pub record Out (m : Meta) (t : Target) (seen : List Bytes) (fs out : List Finding) : Type 0 where
  pub each : All (IsNormal m t) out
  pub subjects : map (λ (f : Finding). f.subject) out ≡ map (λ (f : Finding). f.subject) fs
  pub distinct : Pairs Differ out
  pub unseen : All (Unseen seen) out

Unseen-cons : (s : Bytes) (seen : List Bytes) (f : Finding) → Unseen (s ∷ seen) f → Unseen seen f
Unseen-cons s seen f h = ground arith

Unseen-Differ :
    (g : Finding) (s : Bytes) (seen : List Bytes) (f : Finding)
    → g.subject ≡ s
    → Unseen (s ∷ seen) f
    → Differ g f
Unseen-Differ g s seen f e h = λ k. ground (arith, ==_iff s f.subject)

module _ (m : Meta) (t : Target) (v : is_valid m.severity ≡ true) where
  pub normalize_from-Out :
      (fs : List Finding) (seen : List Bytes) {out : List Finding}
      → normalize_from m t seen fs ≡ ok out
      → Out m t seen fs out
  unfolding normalize_from
  normalize_from-Out [] seen {out} h =
      let e : [] ≡ out = cc in
      subst (Out m t seen []) e (record { each = tt; subjects = refl; distinct = tt; unseen = tt })
  normalize_from-Out (f ∷ fs) seen {out} h = elim (Bool-cases (any (λ s. s == f.subject) seen)) [
    | inl old ↦ absurd (cc (rw old at h))
    | inr new ↦
        let (g, one, h₁) = bind-eq-ok (normalize_one m t f) _ (rw new at h) in
        let (rest, more, h₂) = bind-eq-ok (normalize_from m t (f.subject ∷ seen) fs) _ h₁ in
        let o = normalize_from-Out fs (f.subject ∷ seen) more in
        let (normal, same) = normalize_one-IsNormal m t f v one in
        let e : g ∷ rest ≡ out = cc in
        subst (Out m t seen (f ∷ fs)) e (record {
          each = (normal, o.each);
          subjects = ground (arith, o.subjects);
          distinct = (
            All-imp (Unseen (f.subject ∷ seen)) (Differ g)
                (λ x u. Unseen-Differ g f.subject seen x same u) rest o.unseen,
            o.distinct,
          );
          unseen = (
            rw same new,
            All-imp (Unseen (f.subject ∷ seen)) (Unseen seen)
                (λ x u. Unseen-cons f.subject seen x u) rest o.unseen,
          );
        })
  ]

abbrev SameInput : Finding → Finding → Type 0
SameInput f g =
    fingerprint_input f.check_id f.target f.subject
    ≡ fingerprint_input g.check_id g.target g.subject

-- Findings that pass carry the check's ID, the target's name and a valid severity; their subjects
-- are those given, in order, and no two of them are hashed from the same bytes, if the check's
-- metadata is valid and neither its ID nor the target's name holds a NUL byte.
pub normalize_lem :
    (m : Meta) (t : Target) (fs : List Finding) {out : List Finding}
    → is_valid m.severity ≡ true
    → NoNul m.id × NoNul t.name
    → normalize m t fs ≡ ok out
    → All (IsNormal m t) out
      × (map (λ (f : Finding). f.subject) out ≡ map (λ (f : Finding). f.subject) fs)
      × Pairs
          (λ f g. ¬ (
            fingerprint_input f.check_id f.target f.subject
            ≡ fingerprint_input g.check_id g.target g.subject))
          out
unfolding normalize
normalize_lem m t fs {out} v nul h =
    let o = normalize_from-Out m t v fs [] h in
    (
      o.each,
      o.subjects,
      Pairs-imp (IsNormal m t) Differ (λ f g. ¬ SameInput f g) distinct out o.each o.distinct,
    )
  where
    no_nul : (f : Finding) → IsNormal m t f → NoNul f.check_id × NoNul f.target
    no_nul f p = (subst NoNul (sym p.check_id) nul.0, subst NoNul (sym p.target) nul.1)

    distinct : (f g : Finding) → IsNormal m t f → IsNormal m t g → Differ f g → ¬ SameInput f g
    distinct f g p q d same =
        d
          (fingerprint_input_injective f.check_id f.target f.subject g.check_id g.target g.subject
            (no_nul f p) (no_nul g q) same).2
