-- ===== src/Core/Memo/Progress.antt =====
-- internal/core/memo.go: how the callers inside of `Memoize` go on.
use seta.Prelude.{
  ℕ, ◌≡◌, ◌≢◌, refl, sym, ap, ◌∙◌, subst, Bool, true, false, Option, none, some, Option-cases,
  Bool-cases, inl, inr, Bytes, Result, ok,
}
use seta.Core.Memo.{
  Memo, Pc, idle, looking, computing, computed, cleared, waiting, left, canceled, make, wake, Move,
  enters, wakes, System, Reach,
}
use seta.Core.Memo.Invariant.{Owns, IsMade, Fits, Inv}
use seta.Core.Memo.Frames.{put-at}
use seta.Core.Memo.Fitted.{enter-free, enter-there}
use seta.Core.Memo.Steps.{step-Inv, Reach-Inv}
use seta.Core.Memo.Finish.{Runs, after, step, Runs-trans, owner-Finished}

-- A caller inside of `Memoize`.
abbrev pub IsCalling : {A : Type 0} → Pc A → Bytes → Type 0
IsCalling (looking k) name = k ≡ name
IsCalling (computing k e) name = k ≡ name
IsCalling (computed k e o) name = k ≡ name
IsCalling (cleared k e o) name = k ≡ name
IsCalling (waiting k e) name = k ≡ name
IsCalling _ name = ⊥

module _ {A : Type 0} where
  pub Leaves : System A → ℕ → Bytes → Type 0
  Leaves s i k = (t : System A) × Runs i s t × ((o : Option (Result Bytes A)) × (t.pc i ≡ left k o))

  Leaves-after : (s t : System A) (i : ℕ) (k : Bytes) → Runs i s t → Leaves t i k → Leaves s i k
  unfolding Leaves
  Leaves-after s t i k runs (u, later, out) = (u, Runs-trans i s t u runs later, out)

  module _ (i : ℕ) (k : Bytes) (o : Option (Result Bytes A)) where
    owner-Leaves :
        (s : System A) (e : ℕ) (p : Pc A)
        → Inv s.memo s.pc
        → s.pc i ≡ p
        → Owns p e
        → (s.memo.heap e).name ≡ k
        → Leaves s i k
    unfolding Leaves
    owner-Leaves s e p inv h own name =
        let (t, f) = owner-Finished s i i e o p inv h own (inl refl) in
        (t, f.runs, (f.outcome, f.gone ∙ ap (λ n. left n f.outcome) name))

    -- A caller at the head of the loop that finds nothing in the map fills an entry itself.
    free-Leaves :
        (s : System A)
        → Inv s.memo s.pc
        → s.pc i ≡ looking k
        → s.memo.entries k ≡ none
        → Leaves s i k
    free-Leaves s inv h free =
        let move =
          subst (λ (out : Memo A × Pc A). Move s.memo (looking k) out.0 out.1)
            (enter-free k s.memo free) enters in
        let u = after s i (make k s.memo) (computing k s.memo.next) in
        let inv' = step-Inv s.memo u.memo s.pc i (looking k) (computing k s.memo.next) inv h move in
        let here = put-at s.pc i (computing k s.memo.next) in
        let (live, _, _) : Fits u.memo (computing k s.memo.next) =
          subst (λ q. Fits u.memo q) here (inv'.fits i) in
        Leaves-after s u i k
          (step i s i u.memo (looking k) (computing k s.memo.next) (inl refl) h move)
          (owner-Leaves u s.memo.next (computing k s.memo.next) inv' here refl live.made.named)

    woken : Bool → Option (Result Bytes A) → Pc A
    woken true out = looking k
    woken false out = left k out

    wake-woken :
        (m : Memo A) (e : ℕ) (b : Bool)
        → (m.heap e).retry ≡ b
        → wake k e m ≡ woken b (m.heap e).outcome
    unfolding wake woken
    wake-woken m e true h = rw (h, wake) refl
    wake-woken m e false h = rw (h, wake) refl

    -- A caller that waits for an entry that is done: it leaves, or is back at the head of the loop.
    done-Leaves :
        (s : System A) (e : ℕ)
        → Inv s.memo s.pc
        → s.pc i ≡ waiting k e
        → (s.memo.heap e).done ≡ true
        → ((s.memo.heap e).retry ≡ true
            → (u : System A) → Inv u.memo u.pc
            → u.pc i ≡ looking k
            → u.memo ≡ s.memo
            → Leaves u i k)
        → Leaves s i k
    unfolding Leaves woken
    done-Leaves s e inv h done again = elim (Bool-cases (s.memo.heap e).retry) [
      | inr settled ↦
          let out = (s.memo.heap e).outcome in
          let move =
            subst (λ q. Move s.memo (waiting k e) s.memo q) (wake-woken s.memo e false settled)
              (wakes done) in
          (
            after s i s.memo (left k out),
            step i s i s.memo (waiting k e) (left k out) (inl refl) h move,
            (out, put-at s.pc i (left k out)),
          )
      | inl retry ↦
          let move =
            subst (λ q. Move s.memo (waiting k e) s.memo q) (wake-woken s.memo e true retry)
              (wakes done) in
          let u = after s i s.memo (looking k) in
          Leaves-after s u i k (step i s i s.memo (waiting k e) (looking k) (inl refl) h move) (
            again retry u (step-Inv s.memo s.memo s.pc i (waiting k e) (looking k) inv h move)
              (put-at s.pc i (looking k)) refl)
    ]

    -- A caller that waits for the entry of the map.
    current-Leaves :
        (s : System A) (e : ℕ)
        → Inv s.memo s.pc
        → s.pc i ≡ waiting k e
        → s.memo.entries k ≡ some e
        → Leaves s i k
    current-Leaves s e inv h there = elim (Bool-cases (s.memo.heap e).done) [
      | inl done ↦
          done-Leaves s e inv h done
            λ retry u inv' h' same. absurd (cc (inv.ordered.settled k e there done, retry))
      | inr open_still ↦
          let made = inv.ordered.known k e there in
          let (j, own) = inv.owned e made.below open_still in
          let (t, f) = owner-Finished s i j e o (s.pc j) inv refl own (inr (k, h)) in
          let differ : j ≢ i = λ same. subst (λ q. Owns q e) (ap s.pc same ∙ h) own in
          Leaves-after s t i k f.runs (
            done-Leaves t e f.inv (f.others i differ ∙ h) f.done λ retry u inv' h' same.
              elim (f.clean (ap s.memo.entries made.named ∙ there)) [
                | inl settled ↦ absurd (cc (settled, retry))
                | inr free ↦ free-Leaves u inv' h' (
                    ap (λ (m : Memo A). m.entries k) same
                    ∙ ap t.memo.entries (sym made.named)
                    ∙ free)
              ])
    ]

    looking-Leaves : (s : System A) → Inv s.memo s.pc → s.pc i ≡ looking k → Leaves s i k
    looking-Leaves s inv h = elim (Option-cases (s.memo.entries k)) [
      | inl free ↦ free-Leaves s inv h free
      | inr (e, there) ↦
          let move =
            subst (λ (out : Memo A × Pc A). Move s.memo (looking k) out.0 out.1)
              (enter-there k s.memo e there) enters in
          let u = after s i s.memo (waiting k e) in
          Leaves-after s u i k (step i s i s.memo (looking k) (waiting k e) (inl refl) h move) (
            current-Leaves u e (step-Inv s.memo s.memo s.pc i (looking k) (waiting k e) inv h move)
              (put-at s.pc i (waiting k e)) there)
    ]

    waiting-Leaves : (s : System A) (e : ℕ) → Inv s.memo s.pc → s.pc i ≡ waiting k e → Leaves s i k
    waiting-Leaves s e inv h = elim (Bool-cases (s.memo.heap e).done) [
      | inl done ↦ done-Leaves s e inv h done λ retry u inv' h' same. looking-Leaves u inv' h'
      | inr open_still ↦
          let made : IsMade s.memo k e = subst (λ q. Fits s.memo q) h (inv.fits i) in
          let (j, own) = inv.owned e made.below open_still in
          let (t, f) = owner-Finished s i j e o (s.pc j) inv refl own (inr (k, h)) in
          let differ : j ≢ i = λ same. subst (λ q. Owns q e) (ap s.pc same ∙ h) own in
          Leaves-after s t i k f.runs (
            done-Leaves t e f.inv (f.others i differ ∙ h) f.done
              λ retry u inv' h' same. looking-Leaves u inv' h')
    ]

    called-Leaves :
        (s : System A) (p : Pc A) → Inv s.memo s.pc → s.pc i ≡ p → IsCalling p k → Leaves s i k
    called-Leaves s idle inv h calling = elim calling [ ]
    called-Leaves s (left n out) inv h calling = elim calling [ ]
    called-Leaves s (canceled n) inv h calling = elim calling [ ]
    called-Leaves s (looking n) inv h calling =
        looking-Leaves s inv (h ∙ ap (λ x. looking x) calling)
    called-Leaves s (waiting n e) inv h calling =
        waiting-Leaves s e inv (h ∙ ap (λ x. waiting x e) calling)
    called-Leaves s (computing n e) inv h calling =
        let (live, _, _) : Fits s.memo (computing n e) =
          subst (λ q. Fits s.memo q) h (inv.fits i) in
        owner-Leaves s e (computing n e) inv h refl (live.made.named ∙ calling)
    called-Leaves s (computed n e out) inv h calling =
        let (live, _) : Fits s.memo (computed n e out) =
          subst (λ q. Fits s.memo q) h (inv.fits i) in
        owner-Leaves s e (computed n e out) inv h refl (live.made.named ∙ calling)
    called-Leaves s (cleared n e out) inv h calling =
        let (live, _) : Fits s.memo (cleared n e out) = subst (λ q. Fits s.memo q) h (inv.fits i) in
        owner-Leaves s e (cleared n e out) inv h refl (live.made.named ∙ calling)

  -- From every state that is reached, if `fn` can return a value at all, each caller inside of
  -- `Memoize` can go on until it has left with an outcome of its name, and not by its own cancellation,
  -- by steps that are its own or, while it waits for an entry, of the caller that fills this entry.
  pub calling-Leaves :
      (s : System A) (i : ℕ) (k : Bytes) (a : A) → Reach s → IsCalling (s.pc i) k → Leaves s i k
  calling-Leaves s i k a reached calling =
      called-Leaves i k (some (ok a)) s (s.pc i) (Reach-Inv s reached) refl calling
