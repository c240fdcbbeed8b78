-- ===== src/Registry/Glob/Decides.antt =====
-- The single-star backtracking of `Match` decides the meaning of a glob, within its fuel.
use seta.Prelude.{
  ℕ, zero, suc, ◌+◌, ◌*◌, ◌≤◌, ◌<◌, ◌≡◌, ◌≢◌, refl, ap, sym, ◌∙◌, =?_iff, Bool, true, false, ◌&&◌,
  ◌||◌, [], ◌∷◌, none, some, inl, inr, arith, if◌then◌else◌, ◌=?◌, length, drop, Bytes, Bool-cases,
  All,
}
use seta.Registry.Glob.{Back, only_stars, accepts, match_loop, match}

-- What the documentation says of a glob: `*` takes any sequence, `?` one byte, and any other byte
-- itself.
unfoldable pub glob_means : Bytes → Bytes → Bool
glob_means [] [] = true
glob_means [] (c ∷ s) = false
glob_means (a ∷ p) [] = a =? b'*' && glob_means p []
glob_means (a ∷ p) (c ∷ s) =
    if a =? b'*'
    then glob_means p (c ∷ s) || glob_means (a ∷ p) s
    else (a =? b'?' || a =? c) && glob_means p s

abbrev star_of : Bytes → Bytes
star_of p = b'*' ∷ p

-- IDs have no star, which `Match` would take for itself.
abbrev pub NoStar : Bytes → Type 0
NoStar = All (λ c. c ≢ b'*')

star_drop :
    (p s : Bytes) → glob_means (star_of p) (drop 1 s) ≡ true → glob_means (star_of p) s ≡ true
unfolding glob_means
star_drop p [] h = h
star_drop p (c ∷ s) h = ground arith

star_here :
    (p s : Bytes) → glob_means (star_of p) s ≡ (glob_means p s || glob_means (star_of p) (drop 1 s))
unfolding glob_means
star_here [] [] = refl
star_here (a ∷ p) [] = ground arith
star_here p (c ∷ s) = refl

-- A star in front of a byte test may take what the test takes.
star_test :
    (a : ℕ) (p s : Bytes)
    → (a =? b'*') ≡ false
    → glob_means (star_of (a ∷ p)) s ≡ true
    → glob_means (star_of p) (drop 1 s) ≡ true
unfolding glob_means
star_test a p [] n h = ground arith
star_test a p (c ∷ s) n h = ground (arith, star_test a p s, star_drop p s, star_here p s)

only_stars-glob_means : (p : Bytes) → only_stars p ≡ glob_means p []
unfolding only_stars glob_means
only_stars-glob_means [] = refl
only_stars-glob_means (a ∷ p) = ground (arith, only_stars-glob_means p)

-- What is still to be had from the last star: it takes one byte more.
abbrev later : Back → Bool
later none = false
later (some (bp, bs)) = glob_means (star_of bp) (drop 1 bs)

-- `m` bounds the text that the last star may still give up, and `k` the patterns in play.
abbrev IsSaved : ℕ → ℕ → Bytes → Back → Type 0
IsSaved m k s none = Unit
IsSaved m k s (some (bp, bs)) =
    (length s ≤ length bs) × (length bs ≤ m) × (length bp < k) × NoStar bs

record Fits (fuel m k : ℕ) (p s : Bytes) (back : Back) : Type 0 where
  covers : later back ≡ true → glob_means (star_of p) s ≡ true
  text_le : length s ≤ m
  saved : IsSaved m k s back
  pattern_lt : length p < k
  fuel_lt : m * k + length p < fuel
  no_star : NoStar s

module _ {fuel m k : ℕ} where
  Fits-byte :
      (a c : ℕ) (p s : Bytes) (back : Back)
      → (a =? b'*') ≡ false
      → Fits (suc fuel) m k (a ∷ p) (c ∷ s) back
      → Fits fuel m k p s back
  Fits-byte a c p s none n f = record {
    covers = λ h. absurd (cc (h));
    text_le = omega arith;
    saved = tt;
    pattern_lt = omega arith;
    fuel_lt = omega arith;
    no_star = f.no_star.1;
  }
  Fits-byte a c p s (some (bp, bs)) n f = record {
    covers = λ h. star_test a p (c ∷ s) n (f.covers h);
    text_le = omega arith;
    saved = let (x, y, z, w) = f.saved in (omega arith, y, z, w);
    pattern_lt = omega arith;
    fuel_lt = omega arith;
    no_star = f.no_star.1;
  }

  Fits-star :
      (a c : ℕ) (p s : Bytes) (back : Back)
      → Fits (suc fuel) m k (a ∷ p) (c ∷ s) back
      → Fits fuel m k p (c ∷ s) (some (p, c ∷ s))
  Fits-star a c p s back f = record {
    covers = λ h. star_drop p (c ∷ s) h;
    text_le = f.text_le;
    saved = (omega arith, f.text_le, omega arith, f.no_star);
    pattern_lt = omega arith;
    fuel_lt = omega arith;
    no_star = f.no_star;
  }

-- Taking one byte back lowers the bound on the text, which pays for the pattern.
Fits-retry :
    {fuel m k : ℕ} (p : Bytes) (c : ℕ) (s bp bs : Bytes)
    → Fits (suc fuel) m k p (c ∷ s) (some (bp, bs))
    → Fits fuel (length (drop 1 bs)) k bp (drop 1 bs) (some (bp, drop 1 bs))
Fits-retry p c s bp [] f = absurd (let (x, y, z, w) = f.saved in omega arith)
Fits-retry {fuel} {m} {k} p c s bp (d ∷ bs) f = record {
  covers = λ h. star_drop bp bs h;
  text_le = omega arith;
  saved = let (x, y, z, w) = f.saved in (omega arith, omega arith, z, w.1);
  pattern_lt = f.saved.2;
  fuel_lt = let (x, y, z, w) = f.saved in let h = f.fuel_lt in grind arith;
  no_star = let (x, y, z, w) = f.saved in w.1;
}

star_end : (p : Bytes) → glob_means (star_of p) [] ≡ glob_means p []
unfolding glob_means
star_end p = refl

-- At the end of the ID only stars may be left.
match_loop_end :
    {fuel m k : ℕ} (p : Bytes) (back : Back)
    → Fits (suc fuel) m k p [] back
    → some (only_stars p) ≡ some (glob_means p [] || later back)
match_loop_end p none f = ground (arith, only_stars-glob_means p)
match_loop_end p (some (bp, bs)) f = ground (arith, only_stars-glob_means p, f.covers, star_end p)

-- What a retry answers is what was still to be had from the star.
again :
    (bp bs : Bytes)
    → some (glob_means bp (drop 1 bs) || later (some (bp, drop 1 bs)))
      ≡ some (later (some (bp, bs)))
again bp bs = ap some (sym (star_here bp (drop 1 bs)))

-- A byte test that accepts is no star, since the ID has none.
accepts-ne-star : (a c : ℕ) → c ≢ b'*' → accepts a c ≡ true → (a =? b'*') ≡ false
unfolding accepts
accepts-ne-star a c n h = ground arith

glob_means-byte :
    (a c : ℕ) (p s : Bytes)
    → (a =? b'*') ≡ false
    → glob_means (a ∷ p) (c ∷ s) ≡ (accepts a c && glob_means p s)
unfolding glob_means accepts
glob_means-byte a c p s n = rw n refl

glob_means-star :
    (a c : ℕ) (p s : Bytes)
    → (a =? b'*') ≡ true
    → glob_means (a ∷ p) (c ∷ s) ≡ (glob_means p (c ∷ s) || glob_means (star_of p) s)
unfolding glob_means
glob_means-star a c p s e = ground (arith, (=?_iff a b'*').0 e)

-- Two stars in a row are one.
star_star :
    (p s : Bytes) → glob_means (star_of (star_of p)) s ≡ true → glob_means (star_of p) s ≡ true
unfolding glob_means
star_star p [] h = ground arith
star_star p (c ∷ s) h = ground (arith, star_star p s)

glob_means-twice :
    (a c : ℕ) (p s : Bytes)
    → (a =? b'*') ≡ true
    → glob_means (star_of (a ∷ p)) (c ∷ s) ≡ true
    → glob_means (a ∷ p) (c ∷ s) ≡ true
glob_means-twice a c p s e h =
    let star : a ≡ b'*' = (=?_iff a b'*').0 e in rw star (star_star p (c ∷ s) (rw star at h))

match_loop_lem :
    (fuel m k : ℕ) (p s : Bytes) (back : Back)
    → Fits fuel m k p s back
    → match_loop fuel p s back ≡ some (glob_means p s || later back)
unfolding match_loop glob_means
match_loop_lem zero m k p s back f = absurd (let h = f.fuel_lt in omega arith)
match_loop_lem (suc fuel) m k [] [] back f = match_loop_end [] back f
match_loop_lem (suc fuel) m k (a ∷ p) [] back f = match_loop_end (a ∷ p) back f
match_loop_lem (suc fuel) m k [] (c ∷ s) none f = refl
match_loop_lem (suc fuel) m k [] (c ∷ s) (some (bp, bs)) f =
    match_loop_lem fuel (length (drop 1 bs)) k bp (drop 1 bs) (some (bp, drop 1 bs))
      (Fits-retry [] c s bp bs f)
    ∙ again bp bs
match_loop_lem (suc fuel) m k (a ∷ p) (c ∷ s) none f = elim (Bool-cases (accepts a c)) [
  | inl takes ↦
      let n = accepts-ne-star a c f.no_star.0 takes in
      let rest = match_loop_lem fuel m k p s none (Fits-byte a c p s none n f) in
      ground (arith, glob_means-byte a c p s n)
  | inr refuses ↦ elim (Bool-cases (a =? b'*')) [
    | inl star ↦
        let rest = match_loop_lem fuel m k p (c ∷ s) (some (p, c ∷ s)) (Fits-star a c p s none f) in
        ground (arith, glob_means-star a c p s star)
    | inr byte ↦ ground (arith, glob_means-byte a c p s byte)
  ]
]
match_loop_lem (suc fuel) m k (a ∷ p) (c ∷ s) (some (bp, bs)) f = elim (Bool-cases (accepts a c)) [
  | inl takes ↦
      let n = accepts-ne-star a c f.no_star.0 takes in
      let rest =
        match_loop_lem fuel m k p s (some (bp, bs)) (Fits-byte a c p s (some (bp, bs)) n f) in
      ground (arith, glob_means-byte a c p s n)
  | inr refuses ↦ elim (Bool-cases (a =? b'*')) [
    | inl star ↦
        let rest =
          match_loop_lem fuel m k p (c ∷ s) (some (p, c ∷ s))
            (Fits-star a c p s (some (bp, bs)) f) in
        ground (arith, glob_means-star a c p s star, f.covers, glob_means-twice a c p s star)
    | inr byte ↦
        let rest =
          match_loop_lem fuel (length (drop 1 bs)) k bp (drop 1 bs) (some (bp, drop 1 bs))
            (Fits-retry (a ∷ p) c s bp bs f) in
        ground (arith, glob_means-byte a c p s byte, again bp bs)
  ]
]

or_false : (b : Bool) → (b || false) ≡ b
or_false true = refl
or_false false = refl

-- `Match` always ends, and answers what the pattern means, for every ID without a star.
pub match-glob_means : (glob id : Bytes) → NoStar id → match glob id ≡ some (glob_means glob id)
unfolding match
match-glob_means glob id n =
    match_loop_lem ((length id + 1) * (length glob + 1)) (length id) (length glob + 1) glob id none
      (record {
        covers = λ h. absurd (cc h);
        text_le = omega arith;
        saved = tt;
        pattern_lt = omega arith;
        fuel_lt = omega arith;
        no_star = n;
      })
    ∙ ap some (or_false (glob_means glob id))
