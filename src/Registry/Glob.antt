-- ===== src/Registry/Glob.antt =====
-- `Match` of internal/registry/registry.go. The indices `p` and `s` of the loop stand here as what
-- is left of the pattern and of the ID from there on, `star` and `mark` as the pattern behind the
-- last star and the ID at the place where that star was met.
pub mod Decides
use seta.Prelude.{
  ℕ, zero, suc, ◌+◌, ◌*◌, ◌≤◌, ◌<◌, ◌≡◌, ◌≢◌, refl, ap, ◌∙◌, Bool, true, false, not, ◌&&◌, ◌||◌,
  List, [], ◌∷◌, Option, none, some, inl, inr, arith, if◌then◌else◌, ◌=?◌, length, drop, Bytes,
  Bool-cases,
}

abbrev pub Back : Type 0
Back = Option (Bytes × Bytes)

-- The loop behind the main loop: only stars are left.
unfoldable pub only_stars : Bytes → Bool
only_stars [] = true
only_stars (c ∷ p) = c =? b'*' && only_stars p

-- `pattern[p] == '?' || pattern[p] == id[s]`
unfoldable pub accepts : ℕ → ℕ → Bool
accepts a c = a =? b'?' || a =? c

-- The main loop; `none` means that the fuel ran out.
unfoldable pub match_loop : ℕ → Bytes → Bytes → Back → Option Bool
match_loop zero p s back = none
match_loop (suc fuel) p [] back = some (only_stars p)
match_loop (suc fuel) [] (c ∷ s) none = some false
match_loop (suc fuel) [] (c ∷ s) (some (bp, bs)) =
    match_loop fuel bp (drop 1 bs) (some (bp, drop 1 bs))
match_loop (suc fuel) (a ∷ p) (c ∷ s) none =
    let byte = match_loop fuel p s none in
    let star = match_loop fuel p (c ∷ s) (some (p, c ∷ s)) in
    if accepts a c then byte else if a =? b'*' then star else some false
match_loop (suc fuel) (a ∷ p) (c ∷ s) (some (bp, bs)) =
    let byte = match_loop fuel p s (some (bp, bs)) in
    let star = match_loop fuel p (c ∷ s) (some (p, c ∷ s)) in
    let retry = match_loop fuel bp (drop 1 bs) (some (bp, drop 1 bs)) in
    if accepts a c then byte else if a =? b'*' then star else retry

-- `Match`
unfoldable pub match : Bytes → Bytes → Option Bool
match glob id = match_loop ((length id + 1) * (length glob + 1)) glob id none
