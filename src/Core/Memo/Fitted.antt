-- ===== src/Core/Memo/Fitted.antt =====
-- The operations of internal/core/memo.go, for the caller that takes the step.
use seta.Prelude.{
  ℕ, ◌<◌, ◌≡◌, ◌≢◌, refl, sym, ap, ◌∙◌, subst, Bool, true, false, Option, none, some, arith,
  Bool-cases, ◌⊎◌, inl, inr, Bytes, Result, ok, err,
}
use seta.Core.Memo.{
  Entry, Memo, Pc, idle, looking, computing, computed, cleared, waiting, left, canceled, rename,
  make, must_retry, store, clear, close, enter,
}
use seta.Core.Memo.Invariant.{Owns, IsMade, IsLive, IsKept, Fits}
use seta.Core.Memo.Frames.{put-at, put-off, rename-at, IsLive-same, Frame}
use seta.Core.Memo.Kept.{below_or_last}

pub dec_eq : (e f : ℕ) → (e ≡ f) ⊎ (e ≢ f)
dec_eq e f = ground arith

module _ {A : Type 0} where
  pub same-Frame : (m : Memo A) (p : Pc A) → Frame m m p
  same-Frame m p = record {
    grows = omega arith;
    names = λ e b. refl;
    own = λ e b o. refl;
    holds = λ k e o h. h;
    gone = λ k e b h. h;
    kept = λ e b h. (refl, h);
  }

  pub must_retry-IsKept :
      (o : Option (Result Bytes A)) (ended : Bool) → IsKept o (must_retry o ended)
  unfolding must_retry
  must_retry-IsKept none ended = tt
  must_retry-IsKept (some (ok a)) ended = refl
  must_retry-IsKept (some (err e)) ended = tt

  pub left-Fits :
      (m : Memo A) (k : Bytes) (e : ℕ) (o : Option (Result Bytes A))
      → IsMade m k e
      → (m.heap e).outcome ≡ o
      → IsKept o (m.heap e).retry
      → Fits m (left k o)
  left-Fits m k e none made out kept = tt
  left-Fits m k e (some (err w)) made out kept = tt
  left-Fits m k e (some (ok a)) made out kept = (e, made, out, kept)

  pub make-Fits : (k : Bytes) (m : Memo A) → Fits (make k m) (computing k m.next)
  unfolding make
  make-Fits k m =
      let r =
        put-at m.heap m.next (record { name = k; done = false; outcome = none; retry = true }) in
      (
        record {
          made = record { below = omega arith; named = ap (λ (x : Entry A). x.name) r };
          opened = ap (λ (x : Entry A). x.done) r;
          outcome = ap (λ (x : Entry A). x.outcome) r;
          value = tt;
        },
        rename-at m.entries k (some m.next),
        ap (λ (x : Entry A). x.retry) r,
      )

  pub store-Fits :
      (k : Bytes) (e : ℕ) (o : Option (Result Bytes A)) (ended : Bool) (m : Memo A)
      → IsMade m k e
      → (m.heap e).done ≡ false
      → m.entries k ≡ some e
      → Fits (store e o ended m) (computed k e o)
  unfolding store
  store-Fits k e o ended m made opened there =
      let r = put-at m.heap e (record (m.heap e) { outcome = o; retry = must_retry o ended }) in
      (
        record {
          made = record { below = made.below; named = ap (λ (x : Entry A). x.name) r ∙ made.named };
          opened = ap (λ (x : Entry A). x.done) r ∙ opened;
          outcome = ap (λ (x : Entry A). x.outcome) r;
          value = subst (λ (x : Entry A). IsKept o x.retry) (sym r) (must_retry-IsKept o ended);
        },
        there,
      )

  pub clear-Fits :
      (k : Bytes) (e : ℕ) (o : Option (Result Bytes A)) (m : Memo A)
      → IsLive m k e o
      → Fits (clear k e m) (cleared k e o)
  unfolding clear
  clear-Fits k e o m live = elim (Bool-cases (m.heap e).retry) [
    | inr keep ↦ rw keep (live, λ again. absurd (cc (keep, again)))
    | inl again ↦ rw again (
      IsLive-same m (record m { entries = rename m.entries k none }) k e o (omega arith) refl live,
      λ _ t. absurd (cc (rename-at m.entries k none, t)),
    )
  ]

  pub close-Fits :
      (k : Bytes) (e : ℕ) (o : Option (Result Bytes A)) (m : Memo A)
      → IsLive m k e o
      → Fits (close e m) (left k o)
  unfolding close
  close-Fits k e o m live =
      let r = put-at m.heap e (record (m.heap e) { done = true }) in
      left-Fits _ k e o
        (record {
          below = live.made.below;
          named = ap (λ (x : Entry A). x.name) r ∙ live.made.named;
        })
        (ap (λ (x : Entry A). x.outcome) r ∙ live.outcome)
        (subst (λ (x : Entry A). IsKept o x.retry) (sym r) live.value)

  pub enter-free :
      (k : Bytes) (m : Memo A) → m.entries k ≡ none → enter k m ≡ (make k m, computing k m.next)
  unfolding enter
  enter-free k m free = rw (free, enter) refl

  pub enter-there :
      (k : Bytes) (m : Memo A) (e : ℕ) → m.entries k ≡ some e → enter k m ≡ (m, waiting k e)
  unfolding enter
  enter-there k m e there = rw (there, enter) refl

  pub make-opened :
      (k : Bytes) (m : Memo A) (e : ℕ)
      → e < (make k m).next
      → ((make k m).heap e).done ≡ false
      → (m.next ≡ e) ⊎ ((e < m.next) × ((m.heap e).done ≡ false))
  unfolding make
  make-opened k m e b d = elim (below_or_last e m.next b) [
    | inr last ↦ inl (sym last)
    | inl old ↦ inr (
      old,
      sym (
            ap (λ (x : Entry A). x.done)
              (put-off m.heap m.next _ e (λ same. omega (arith, same, old))))
          ∙ d,
    )
  ]

  pub Owns-unique : (p : Pc A) (e f : ℕ) → Owns p e → Owns p f → e ≡ f
  Owns-unique (computing k g) e f a b = sym a ∙ b
  Owns-unique (computed k g o) e f a b = sym a ∙ b
  Owns-unique (cleared k g o) e f a b = sym a ∙ b
  Owns-unique idle e f a b = elim a [ ]
  Owns-unique (looking k) e f a b = elim a [ ]
  Owns-unique (waiting k g) e f a b = elim a [ ]
  Owns-unique (left k o) e f a b = elim a [ ]
  Owns-unique (canceled k) e f a b = elim a [ ]
