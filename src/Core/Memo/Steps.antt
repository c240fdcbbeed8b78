-- ===== src/Core/Memo/Steps.antt =====
-- The steps of the callers of internal/core/memo.go and the invariant.
use seta.Prelude.{
  ℕ, ◌≡◌, ◌≢◌, refl, sym, ap, ◌∙◌, subst, true, false, Option, none, some, Option-cases, arith,
  Bool-cases, inl, inr, Bytes, Result, ok, err,
}
use seta.Core.Memo.{
  Entry, Memo, Pc, looking, computing, computed, cleared, waiting, left, canceled, put, make, store,
  clear, close, enter, wake, Move, calls, enters, computes, clears, closes, wakes, cancels, System,
  pick, Reach, start, later,
}
use seta.Core.Memo.Invariant.{Owns, IsMade, Fits, IsOrdered, Inv}
use seta.Core.Memo.Frames.{
  put-at, put-off, Frame, IsOther, make-Frame, store-Frame, close-Frame, clear-Frame,
}
use seta.Core.Memo.Kept.{
  make-IsOrdered, store-IsOrdered, close-IsOrdered, clear-IsOrdered, move-Inv,
}
use seta.Core.Memo.Fitted.{
  dec_eq, same-Frame, make-Fits, store-Fits, clear-Fits, close-Fits, enter-free, enter-there,
  make-opened, Owns-unique,
}

module _ {A : Type 0} where
  module _ (m : Memo A) (pc : ℕ → Pc A) (inv : Inv m pc) (i : ℕ) where
    -- A step that leaves the memo alone, of a caller that owns nothing.
    free-Inv :
        (p : Pc A)
        → Fits m p
        → ((e : ℕ) → Owns p e → ⊥)
        → ((e : ℕ) → Owns (pc i) e → ⊥)
        → Inv m (put pc i p)
    free-Inv p fits none_now none_before =
        move-Inv m m pc i p inv inv.ordered fits (λ j off. same-Frame m (pc j))
          (λ e o. absurd (none_now e o)) (λ e b d. inr (b, d, none_before e))

    other : (e : ℕ) → Owns (pc i) e → (j : ℕ) → i ≢ j → IsOther (pc j) e
    other e mine j off f o same = off (inv.sole i j f (subst (λ x. Owns (pc i) x) same mine) o)

    enters-Inv : (k : Bytes) → pc i ≡ looking k → Inv (enter k m).0 (put pc i (enter k m).1)
    enters-Inv k here = elim (Option-cases (m.entries k)) [
      | inl free ↦
          subst (λ (out : Memo A × Pc A). Inv out.0 (put pc i out.1)) (sym (enter-free k m free))
            (move-Inv m (make k m) pc i (computing k m.next) inv
              (make-IsOrdered k m free inv.ordered) (make-Fits k m)
              (λ j off. make-Frame k m (pc j) free) (λ e o. inr (sym o))
              (λ e b d. elim (make-opened k m e b d) [
                | inl last ↦ inl last
                | inr (old, opened) ↦ inr (old, opened, λ o. subst (λ q. Owns q e) here o)
              ]))
      | inr (e, there) ↦
          subst (λ (out : Memo A × Pc A). Inv out.0 (put pc i out.1))
            (sym (enter-there k m e there))
            (free-Inv (waiting k e) (inv.ordered.known k e there) (λ f o. o)
              (λ f o. subst (λ q. Owns q f) here o))
    ]

    -- A step of the owner of an entry, which changes no other entry.
    owner-Inv :
        (e : ℕ) (n : Memo A) (p : Pc A)
        → Owns (pc i) e
        → IsOrdered n
        → Fits n p
        → ((j : ℕ) → IsOther (pc j) e → Frame m n (pc j))
        → ((f : ℕ) → Owns p f → e ≡ f)
        → n.next ≡ m.next
        → ((f : ℕ) → e ≢ f → n.heap f ≡ m.heap f)
        → ((n.heap e).done ≡ false → Owns p e)
        → Inv n (put pc i p)
    owner-Inv e n p mine ordered fits frames own next off keeps =
        move-Inv m n pc i p inv ordered fits (λ j differ. frames j (other e mine j differ))
          (λ f o. inl (subst (λ x. Owns (pc i) x) (own f o) mine))
          (λ f b d. elim (dec_eq e f) [
            | inl same ↦
                inl (subst (λ x. Owns p x) same (keeps (ap (λ x. (n.heap x).done) same ∙ d)))
            | inr differ ↦ inr (
              omega (arith, b, next),
              sym (ap (λ (x : Entry A). x.done) (off f differ)) ∙ d,
              λ o. differ (Owns-unique (pc i) e f mine o),
            )
          ])

    wakes-Inv :
        (k : Bytes) (e : ℕ)
        → pc i ≡ waiting k e
        → Fits m (wake k e m)
        → ((f : ℕ) → Owns (wake k e m) f → ⊥)
        → Inv m (put pc i (wake k e m))
    wakes-Inv k e here fits nothing =
        free-Inv (wake k e m) fits nothing (λ f o. subst (λ q. Owns q f) here o)

  wake-Fits :
      (k : Bytes) (e : ℕ) (m : Memo A)
      → IsMade m k e
      → Fits m (wake k e m) × ((f : ℕ) → Owns (wake k e m) f → ⊥)
  unfolding wake
  wake-Fits k e m made = elim (Bool-cases (m.heap e).retry) [
    | inl again ↦ rw again (tt, λ f o. o)
    | inr settled ↦ rw settled (kept (m.heap e).outcome refl settled)
  ]
    where
      kept :
          (o : Option (Result Bytes A))
          → (m.heap e).outcome ≡ o
          → (m.heap e).retry ≡ false
          → Fits m (left k o) × ((f : ℕ) → ⊥ → ⊥)
      kept none out settled = (tt, λ f o. o)
      kept (some (err w)) out settled = (tt, λ f o. o)
      kept (some (ok a)) out settled = ((e, made, out, settled), λ f o. o)

  pub step-Inv :
      (m n : Memo A) (pc : ℕ → Pc A) (i : ℕ) (p q : Pc A)
      → Inv m pc
      → pc i ≡ p
      → Move m p n q
      → Inv n (put pc i q)
  unfolding store clear close
  step-Inv m n pc i p q inv here (calls k) =
      free-Inv m pc inv i (looking k) tt (λ e o. o) (λ e o. subst (λ q. Owns q e) here o)
  step-Inv m n pc i p q inv here (enters {k}) = enters-Inv m pc inv i k here
  step-Inv m n pc i p q inv here (cancels {k}) =
      free-Inv m pc inv i (canceled k) tt (λ e o. o) (λ e o. subst (λ q. Owns q e) here o)
  step-Inv m n pc i p q inv here (wakes {k} {e} done) =
      let made : IsMade m k e = subst (λ q. Fits m q) here (inv.fits i) in
      let (fits, nothing) = wake-Fits k e m made in wakes-Inv m pc inv i k e here fits nothing
  step-Inv m n pc i p q inv here (computes {k} {e} o ended) =
      let (live, there, again) : Fits m (computing k e) = subst (λ q. Fits m q) here (inv.fits i) in
      owner-Inv m pc inv i e (store e o ended m) (computed k e o)
        (subst (λ q. Owns q e) (sym here) refl)
        (store-IsOrdered k e o ended m live.made live.opened there inv.ordered)
        (store-Fits k e o ended m live.made live.opened there)
        (λ j other. store-Frame e o ended m (pc j) again other) (λ f o. o) refl
        (λ f differ. put-off m.heap e _ f differ) (λ _. refl)
  step-Inv m n pc i p q inv here (clears {k} {e} {outcome = o}) =
      let (live, there) : Fits m (computed k e o) = subst (λ q. Fits m q) here (inv.fits i) in
      owner-Inv m pc inv i e (clear k e m) (cleared k e o) (subst (λ q. Owns q e) (sym here) refl)
        (clear-IsOrdered k e m there inv.ordered) (clear-Fits k e o m live)
        (λ j other. clear-Frame k e m (pc j) there other) (λ f o. o) (ground arith)
        (λ f differ. ground arith) (λ _. refl)
  step-Inv m n pc i p q inv here (closes {k} {e} {outcome = o}) =
      let (live, away) : Fits m (cleared k e o) = subst (λ q. Fits m q) here (inv.fits i) in
      owner-Inv m pc inv i e (close e m) (left k o) (subst (λ q. Owns q e) (sym here) refl)
        (close-IsOrdered k e m live.made away inv.ordered) (close-Fits k e o m live)
        (λ j other. close-Frame e m (pc j) other) (λ f o. elim o [ ]) refl
        (λ f differ. put-off m.heap e _ f differ)
        (λ d. absurd (
          cc (
            ap (λ (x : Entry A). x.done) (put-at m.heap e (record (m.heap e) { done = true })),
            d,
          )))

  pub Reach-Inv : (s : System A) → Reach s → Inv s.memo s.pc
  Reach-Inv s start = record {
    ordered = record {
      known = λ k e h. absurd (cc h);
      settled = λ k e h d. absurd (cc h);
      tied = λ e b t. absurd (omega (arith, b));
    };
    fits = λ i. tt;
    sole = λ i j e o o'. elim o [ ];
    owned = λ e b d. absurd (omega (arith, b));
  }
  Reach-Inv _ (later {s = u} r (pick i {m} {p} move)) =
      step-Inv u.memo m u.pc i (u.pc i) p (Reach-Inv u r) refl move
