-- ===== src/Prelude/Equality.antt =====
-- Go's comparison of two strings for equality.
use Prim.Native.Nat.{ℕ}
use mathlib.Core.Path.{◌≡◌, refl}
use mathlib.Core.Logic.{◌↔◌}
use mathlib.Core.Bool.{Bool, true, false, ◌&&◌}
use mathlib.Core.List.{List, [], ◌∷◌}
use native.Mathlib.Omega.{arith}
use seta.Prelude.Tests.{◌=?◌}

infix 50 ◌==◌
unfoldable pub ◌==◌ : List ℕ → List ℕ → Bool
[] == [] = true
[] == (y ∷ ys) = false
(x ∷ xs) == [] = false
(x ∷ xs) == (y ∷ ys) = x =? y && xs == ys

pub ==_iff : (a b : List ℕ) → ((a == b) ≡ true) ↔ (a ≡ b)
unfolding ◌==◌
==_iff [] [] = ground arith
==_iff [] (y ∷ b) = ground arith
==_iff (x ∷ a) [] = ground arith
==_iff (x ∷ a) (y ∷ b) = ground (arith, ==_iff a b)

pub ==_refl : (a : List ℕ) → (a == a) ≡ true
==_refl a = (==_iff a a).1 refl
