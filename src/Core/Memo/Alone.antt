-- ===== src/Core/Memo/Alone.antt =====
-- internal/core/memo.go: callers of the same name.
use seta.Prelude.{ℕ, ◌≡◌, ◌≢◌, refl, sym, ap, ◌∙◌, subst, some, Bytes, ok}
use seta.Core.Memo.{computing, left, System, Reach}
use seta.Core.Memo.Invariant.{Owns, Fits, Inv}
use seta.Core.Memo.Steps.{Reach-Inv}

module _ {A : Type 0} (s : System A) (reached : Reach s) (i j : ℕ) (k : Bytes) where
  abbrev inv : Inv s.memo s.pc
  inv = Reach-Inv s reached

  -- In every state that is reached, by any interleaving of the callers, two callers that are both in `fn` for
  -- one name are the same caller.
  pub computing-alone : (e f : ℕ) → s.pc i ≡ computing k e → s.pc j ≡ computing k f → i ≡ j
  computing-alone e f hi hj =
      let (_, at, _) : Fits s.memo (computing k e) = subst (λ q. Fits s.memo q) hi (inv.fits i) in
      let (_, at', _) : Fits s.memo (computing k f) = subst (λ q. Fits s.memo q) hj (inv.fits j) in
      let same : f ≡ e = cc (at, at') in
      inv.sole i j e (subst (λ q. Owns q e) (sym hi) refl) (subst (λ q. Owns q e) (sym hj) same)

  -- In every state that is reached, when one caller has left with a value for a name, every other caller that
  -- has left with a value for it has the same value, and no caller is in `fn` for it: the value is
  -- computed once.
  pub left-once :
      (a : A)
      → s.pc i ≡ left k (some (ok a))
      → ((b : A) → s.pc j ≡ left k (some (ok b)) → a ≡ b) × ((e : ℕ) → s.pc j ≢ computing k e)
  left-once a hi =
      let (e, made, out, settled) : Fits s.memo (left k (some (ok a))) =
        subst (λ q. Fits s.memo q) hi (inv.fits i) in
      let at = sym (ap s.memo.entries made.named) ∙ inv.ordered.tied e made.below settled in
      (
        λ b hj.
            let (f, made', out', settled') : Fits s.memo (left k (some (ok b))) =
              subst (λ q. Fits s.memo q) hj (inv.fits j) in
            let at' =
              sym (ap s.memo.entries made'.named) ∙ inv.ordered.tied f made'.below settled' in
            let same : f ≡ e = cc (at, at') in
            let outs : some (ok a) ≡ some (ok b) =
              sym out ∙ sym (ap (λ x. (s.memo.heap x).outcome) same) ∙ out' in
            cc outs,
        λ f hj.
            let (_, at', again) : Fits s.memo (computing k f) =
              subst (λ q. Fits s.memo q) hj (inv.fits j) in
            let same : f ≡ e = cc (at, at') in
            absurd (cc (ap (λ x. (s.memo.heap x).retry) same, again, settled)),
      )
