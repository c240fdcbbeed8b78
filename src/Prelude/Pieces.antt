-- ===== src/Prelude/Pieces.antt =====
-- Text whose bytes are no spaces, and how it passes trimming, cutting and splitting.
use Prim.Native.Nat.{ℕ, ◌<◌}
use mathlib.Core.Path.{◌≡◌, refl, ap, ◌∙◌}
use mathlib.Core.Bool.{true, false}
use mathlib.Core.Logic.{◌≢◌}
use mathlib.Core.List.{List, [], ◌∷◌, ◌++◌}
use native.Mathlib.Omega.{arith}
use seta.Prelude.Tests.{=?_iff}
use seta.Prelude.Lists.{All}
use seta.Prelude.Text.{
  Bytes, is_space, is_space_pair, is_space_triple, trim_left, trim_right, is_empty, cut, split_on,
}

-- An ASCII byte that is not a space.
abbrev pub Solid : ℕ → Type 0
Solid c = (c < 0x80) × (is_space c ≡ false)

pub trim_left-Solid : (c : ℕ) (s : Bytes) → Solid c → trim_left (c ∷ s) ≡ c ∷ s
unfolding trim_left is_space_pair is_space_triple
trim_left-Solid c [] h = ground (arith, h.1)
trim_left-Solid c (d ∷ []) h = ground (arith, h.1, h.0)
trim_left-Solid c (d ∷ e ∷ s) h = ground (arith, h.1, h.0)

pub trim_right-Solid : (c : ℕ) (s : Bytes) → Solid c → trim_right (c ∷ s) ≡ c ∷ trim_right s
unfolding trim_right is_empty
trim_right-Solid c s h = ground (arith, trim_left-Solid c s h)

pub trim_right-append : (s t : Bytes) → All Solid s → trim_right (s ++ t) ≡ s ++ trim_right t
trim_right-append [] t h = refl
trim_right-append (c ∷ s) t h =
    trim_right-Solid c (s ++ t) h.0 ∙ ap (λ r. c ∷ r) (trim_right-append s t h.1)

pub cut-append :
    (sep : ℕ) (s t : Bytes) → All (λ c. c ≢ sep) s → cut sep (s ++ (sep ∷ t)) ≡ (s, t, true)
unfolding cut
cut-append sep [] t h = ground (arith, =?_iff sep sep)
cut-append sep (c ∷ s) t h = ground (arith, =?_iff c sep, h.0, cut-append sep s t h.1)

-- Pieces that do not hold the separator come back from a text that it joins.
abbrev pub join : ℕ → Bytes → List Bytes → Bytes
join sep first [] = first
join sep first (s ∷ rest) = first ++ (sep ∷ join sep s rest)

split_on-none : (sep : ℕ) (s : Bytes) → All (λ c. c ≢ sep) s → split_on sep s ≡ s ∷ []
unfolding split_on
split_on-none sep [] h = refl
split_on-none sep (c ∷ s) h = ground (arith, =?_iff c sep, h.0, split_on-none sep s h.1)

split_on-append :
    (sep : ℕ) (s t : Bytes)
    → All (λ c. c ≢ sep) s
    → split_on sep (s ++ (sep ∷ t)) ≡ s ∷ split_on sep t
unfolding split_on
split_on-append sep [] t h = ground (arith, =?_iff sep sep)
split_on-append sep (c ∷ s) t h = ground (arith, =?_iff c sep, h.0, split_on-append sep s t h.1)

pub split_on-join :
    (sep : ℕ) (first : Bytes) (rest : List Bytes)
    → All (λ c. c ≢ sep) first
    → All (All (λ c. c ≢ sep)) rest
    → split_on sep (join sep first rest) ≡ first ∷ rest
split_on-join sep first [] h k = split_on-none sep first h
split_on-join sep first (s ∷ rest) h k =
    split_on-append sep first (join sep s rest) h
    ∙ ap (λ ls. first ∷ ls) (split_on-join sep s rest k.0 k.1)
