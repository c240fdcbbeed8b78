-- ===== src/Baseline/Gone.antt =====
-- The number that `File.Apply` returns.
use seta.Prelude.{
  ℕ, suc, ◌+◌, ◌≡◌, refl, sym, Bool, true, false, not, ◌&&◌, ◌||◌, List, [], ◌∷◌, none, arith,
  if◌then◌else◌, ◌==◌, ==_iff, Bytes, Map, lookup, insert, has_key, IsUnique, insert-IsUnique,
  length, any, Bool-cases, inl, inr,
}
use seta.Core.Finding.{Finding, fingerprint_of}
use seta.Engine.{RunResult}
use seta.Baseline.{Entry, File, known_of, sift, apply}
use seta.Baseline.Known.{has_key-insert}

-- The number of keys that pass a test.
abbrev pub count : (Bytes → Bool) → Map Bool → ℕ
count p [] = 0
count p ((k, _) ∷ m) = (if p k then 1 else 0) + count p m

length-insert :
    (k : Bytes) (v : Bool) (m : Map Bool)
    → length (insert k v m) ≡ (if has_key k m then length m else suc (length m))
unfolding insert has_key lookup
length-insert k v [] = refl
length-insert k v ((j, w) ∷ m) = ground (arith, length-insert k v m)

count-other :
    (p : Bytes → Bool) (k : Bytes) (m : Map Bool)
    → lookup k m ≡ none
    → count (λ j. k == j || p j) m ≡ count p m
unfolding lookup
count-other p k [] h = refl
count-other p k ((j, v) ∷ m) h = ground (arith, h, ==_iff j k, ==_iff k j, count-other p k m)

count-one_more :
    (p : Bytes → Bool) (k : Bytes) (m : Map Bool)
    → IsUnique m
    → has_key k m ≡ true
    → p k ≡ false
    → count (λ j. k == j || p j) m ≡ suc (count p m)
unfolding lookup has_key
count-one_more p k [] u h n = absurd (cc h)
count-one_more p k ((j, v) ∷ m) u h n = elim (Bool-cases (j == k)) [
  | inl same ↦
      let e = (==_iff j k).0 same in ground (arith, e, n, ==_iff k j, count-other p k m, u.0)
  | inr other ↦ ground (arith, other, ==_iff j k, ==_iff k j, h, count-one_more p k m u.1, n)
]

count-not : (p : Bytes → Bool) (m : Map Bool) → count (λ j. not (p j)) m + count p m ≡ length m
count-not p [] = refl
count-not p ((k, v) ∷ m) = ground (arith, count-not p m)

count-cong :
    (p q : Bytes → Bool) (m : Map Bool)
    → ((k : Bytes) → has_key k m ≡ true → p k ≡ q k)
    → count p m ≡ count q m
unfolding has_key lookup
count-cong p q [] h = refl
count-cong p q ((k, v) ∷ m) h =
    ground
      (arith, h k (ground (arith, ==_iff k k)), count-cong p q m (λ j e. h j (ground (arith, e))))

count-none : (m : Map Bool) → count (λ _. false) m ≡ 0
count-none [] = refl
count-none ((k, v) ∷ m) = omega (arith, count-none m)

-- With the keys that have been seen, each of them known.
abbrev IsCounted : Map Bool → Map Bool → Type 0
IsCounted known seen = length seen ≡ count (λ k. has_key k seen) known

insert-IsCounted :
    (k : Bytes) (known seen : Map Bool)
    → IsUnique known
    → has_key k known ≡ true
    → IsCounted known seen
    → IsCounted known (insert k true seen)
insert-IsCounted k known seen u h c =
    let grown = length-insert k true seen in
    let same =
      count-cong (λ j. has_key j (insert k true seen)) (λ j. k == j || has_key j seen) known
        (λ j _. has_key-insert k j true seen) in
    elim (Bool-cases (has_key k seen)) [
      | inl old ↦
          let again =
            count-cong (λ j. k == j || has_key j seen) (λ j. has_key j seen) known
              (λ j _. ground (arith, ==_iff k j, old)) in
          ground (arith, grown, old, c, same, again)
      | inr new ↦
          ground (arith, grown, new, c, same, count-one_more (λ j. has_key j seen) k known u h new)
    ]

module _ (digest : Bytes → Bytes) where
  abbrev pub occurs : List Finding → Bytes → Bool
  occurs xs k = any (λ (x : Finding). fingerprint_of digest x == k) xs

  sift-IsCounted :
      (known : Map Bool) (xs : List Finding) (seen : Map Bool)
      → IsUnique known
      → IsCounted known seen
      → IsCounted known (sift digest known xs seen).0
        × ((k : Bytes)
            → has_key k (sift digest known xs seen).0
              ≡ (has_key k seen || has_key k known && occurs xs k))
  unfolding sift
  sift-IsCounted known [] seen u c = (c, λ k. ground arith)
  sift-IsCounted known (x ∷ xs) seen u c =
      let fp = fingerprint_of digest x in
      elim (Bool-cases (has_key fp known)) [
        | inl listed ↦
            let ih =
              sift-IsCounted known xs (insert fp true seen) u
                (insert-IsCounted fp known seen u listed c) in
            rw listed (
              ih.0,
              λ k. ground (arith, ih.1 k, has_key-insert fp k true seen, ==_iff fp k, listed),
            )
        | inr unlisted ↦
            let ih = sift-IsCounted known xs seen u c in
            rw unlisted (ih.0, λ k. ground (arith, ih.1 k, ==_iff fp k, unlisted))
      ]

  known_of-IsUnique :
      (canonical : Bytes → Bytes) (es : List Entry) → IsUnique (known_of digest canonical es)
  unfolding known_of
  known_of-IsUnique canonical [] = tt
  known_of-IsUnique canonical (e ∷ es) = insert-IsUnique _ true _ (known_of-IsUnique canonical es)

  -- `Apply` returns the number of known fingerprints that no finding of the run has, each counted
  -- once however often the file lists it.
  pub apply-gone :
      (canonical : Bytes → Bytes) (f : File) (res : RunResult)
      → (apply digest canonical f res).0
        ≡ count (λ k. not (occurs res.findings k)) (known_of digest canonical f.findings)
  unfolding apply has_key lookup
  apply-gone canonical f res =
      let known = known_of digest canonical f.findings in
      let empty : IsCounted known [] = sym (count-none known) in
      let (counted, found) =
        sift-IsCounted known res.findings [] (known_of-IsUnique canonical f.findings) empty in
      let seen = (sift digest known res.findings []).0 in
      let same =
        count-cong (λ k. not (has_key k seen)) (λ k. not (occurs res.findings k)) known
          (λ k h. ground (arith, found k, h)) in
      ground (arith, count-not (λ k. has_key k seen) known, same, counted)
