-- ===== src/Core/Memo/Finish.antt =====
-- internal/core/memo.go: the steps of the caller that fills an entry.
use seta.Prelude.{
  ℕ, ◌≡◌, ◌≢◌, refl, sym, ap, ◌∙◌, subst, true, false, Option, none, some, Bool-cases, ◌⊎◌, inl,
  inr, Bytes, Result,
}
use seta.Core.Memo.{
  Entry, Memo, Pc, idle, looking, computing, computed, cleared, waiting, left, canceled, put, store,
  clear, close, Move, computes, clears, closes, System,
}
use seta.Core.Memo.Invariant.{Owns, Fits, Inv}
use seta.Core.Memo.Frames.{put-at, put-off, rename-at}
use seta.Core.Memo.Fitted.{dec_eq}
use seta.Core.Memo.Steps.{step-Inv}

-- Whether `j` is caller `i` itself or the caller that fills the entry for which `i` waits.
abbrev pub IsTurn : {A : Type 0} → System A → ℕ → ℕ → Type 0
IsTurn s i j = (j ≡ i) ⊎ ((n : Bytes) × (e : ℕ) × (s.pc i ≡ waiting n e) × Owns (s.pc j) e)

-- Steps of caller `i`, and of the caller that fills the entry for which `i` waits at that moment.
pub data Runs {A : Type 0} (i : ℕ) (s : System A) : System A → Type 0 where
  still : Runs i s s
  more :
      {t : System A}
      → Runs i s t
      → (j : ℕ) {m : Memo A} {q : Pc A} → IsTurn t i j
      → Move t.memo (t.pc j) m q
      → Runs i s (record { memo = m; pc = put t.pc j q })

module _ {A : Type 0} where
  abbrev pub after : System A → ℕ → Memo A → Pc A → System A
  after s i m q = record { memo = m; pc = put s.pc i q }

  pub Runs-trans : (i : ℕ) (s t u : System A) → Runs i s t → Runs i t u → Runs i s u
  Runs-trans i s t u a still = a
  Runs-trans i s t u a (more {t = v} b j turn move) = more (Runs-trans i s t v a b) j turn move

  pub step :
      (i : ℕ) (s : System A) (j : ℕ) (m : Memo A) (p q : Pc A)
      → IsTurn s i j
      → s.pc j ≡ p
      → Move s.memo p m q
      → Runs i s (after s j m q)
  step i s j m p q turn h move = more still j turn (subst (λ x. Move s.memo x m q) (sym h) move)

  -- Whether `i` is the caller that fills the entry, or waits for it.
  abbrev pub IsConcerned : System A → ℕ → ℕ → ℕ → Type 0
  IsConcerned s i j e = (j ≡ i) ⊎ ((n : Bytes) × (s.pc i ≡ waiting n e))

  turn :
      (s : System A) (i j e : ℕ) (p : Pc A)
      → IsConcerned s i j e
      → s.pc j ≡ p
      → Owns p e
      → IsTurn s i j
  turn s i j e p (inl same) h own = inl same
  turn s i j e p (inr (n, w)) h own = inr (n, e, w, subst (λ q. Owns q e) (sym h) own)

  after-IsConcerned :
      (s : System A) (i j e : ℕ) (m : Memo A) (q : Pc A)
      → IsConcerned s i j e
      → IsConcerned (after s j m q) i j e
  after-IsConcerned s i j e m q (inl same) = inl same
  after-IsConcerned s i j e m q (inr (n, w)) = elim (dec_eq j i) [
    | inl same ↦ inl same
    | inr differ ↦ inr (n, put-off s.pc j q i differ ∙ w)
  ]

  -- In `t` caller `j` has left, and its entry is done: to be tried again only if it is out of the map.
  pub record Finished (s : System A) (i j : ℕ) (k : Bytes) (e : ℕ) (t : System A) : Type 0 where
    pub runs : Runs i s t
    pub inv : Inv t.memo t.pc
    pub outcome : Option (Result Bytes A)
    pub gone : t.pc j ≡ left k outcome
    pub done : (t.memo.heap e).done ≡ true
    pub others : (l : ℕ) → j ≢ l → t.pc l ≡ s.pc l
    pub clean :
        s.memo.entries k ≡ some e → ((t.memo.heap e).retry ≡ false) ⊎ (t.memo.entries k ≡ none)

  cleared-Finished :
      (s : System A) (i j : ℕ) (k : Bytes) (e : ℕ) (o : Option (Result Bytes A))
      → Inv s.memo s.pc
      → s.pc j ≡ cleared k e o
      → IsConcerned s i j e
      → Finished s i j k e (after s j (close e s.memo) (left k o))
  unfolding close
  cleared-Finished s i j k e o inv h why =
      let r = put-at s.memo.heap e (record (s.memo.heap e) { done = true }) in
      record {
        runs =
            step i s j (close e s.memo) (cleared k e o) (left k o)
              (turn s i j e (cleared k e o) why h refl) h closes;
        inv = step-Inv s.memo (close e s.memo) s.pc j (cleared k e o) (left k o) inv h closes;
        outcome = o;
        gone = put-at s.pc j (left k o);
        done = ap (λ (x : Entry A). x.done) r;
        others = λ l off. put-off s.pc j (left k o) l off;
        clean = λ there. elim (Bool-cases (s.memo.heap e).retry) [
          | inr settled ↦ inl (ap (λ (x : Entry A). x.retry) r ∙ settled)
          | inl again ↦
              let (_, away) : Fits s.memo (cleared k e o) =
                subst (λ q. Fits s.memo q) h (inv.fits j) in
              absurd (away again there)
        ];
      }

  computed-Finished :
      (s : System A) (i j : ℕ) (k : Bytes) (e : ℕ) (o : Option (Result Bytes A))
      → Inv s.memo s.pc
      → s.pc j ≡ computed k e o
      → IsConcerned s i j e
      → (t : System A) × Finished s i j k e t
  unfolding clear close
  computed-Finished s i j k e o inv h why =
      let u = after s j (clear k e s.memo) (cleared k e o) in
      let here = put-at s.pc j (cleared k e o) in
      let t = after u j (close e u.memo) (left k o) in
      let f =
        cleared-Finished u i j k e o
          (step-Inv s.memo u.memo s.pc j (computed k e o) (cleared k e o) inv h clears) here
          (after-IsConcerned s i j e u.memo (cleared k e o) why) in
      (
        t,
        record {
          runs =
              Runs-trans i s u t
                (step i s j u.memo (computed k e o) (cleared k e o)
                  (turn s i j e (computed k e o) why h refl) h clears)
                f.runs;
          inv = f.inv;
          outcome = f.outcome;
          gone = f.gone;
          done = f.done;
          others = λ l off. f.others l off ∙ put-off s.pc j (cleared k e o) l off;
          clean = λ there. elim (Bool-cases (s.memo.heap e).retry) [
            | inr settled ↦ f.clean (rw settled there)
            | inl again ↦ inr (rw again (rename-at s.memo.entries k none))
          ];
        },
      )

  computing-Finished :
      (s : System A) (i j : ℕ) (k : Bytes) (e : ℕ) (o : Option (Result Bytes A))
      → Inv s.memo s.pc
      → s.pc j ≡ computing k e
      → IsConcerned s i j e
      → (t : System A) × Finished s i j k e t
  unfolding store
  computing-Finished s i j k e o inv h why =
      let u = after s j (store e o false s.memo) (computed k e o) in
      let (t, f) =
        computed-Finished u i j k e o
          (step-Inv s.memo u.memo s.pc j (computing k e) (computed k e o) inv h (computes o false))
          (put-at s.pc j (computed k e o))
          (after-IsConcerned s i j e u.memo (computed k e o) why) in
      (
        t,
        record {
          runs =
              Runs-trans i s u t
                (step i s j u.memo (computing k e) (computed k e o)
                  (turn s i j e (computing k e) why h refl) h (computes o false))
                f.runs;
          inv = f.inv;
          outcome = f.outcome;
          gone = f.gone;
          done = f.done;
          others = λ l off. f.others l off ∙ put-off s.pc j (computed k e o) l off;
          clean = f.clean;
        },
      )

  named :
      (s : System A) (i j : ℕ) (k : Bytes) (f e : ℕ)
      → f ≡ e
      → (s.memo.heap f).name ≡ k
      → (t : System A) × Finished s i j k f t
      → (t : System A) × Finished s i j (s.memo.heap e).name e t
  named s i j k f e same name (t, finished) = (
    t,
    subst (λ x. Finished s i j (s.memo.heap x).name x t) same
        (subst (λ x. Finished s i j x f t) (sym name) finished),
  )

  -- Whoever fills the entry can finish, whatever `fn` returns if it is still in it.
  pub owner-Finished :
      (s : System A) (i j e : ℕ) (o : Option (Result Bytes A)) (p : Pc A)
      → Inv s.memo s.pc
      → s.pc j ≡ p
      → Owns p e
      → IsConcerned s i j e
      → (t : System A) × Finished s i j (s.memo.heap e).name e t
  owner-Finished s i j e o idle inv h own why = elim own [ ]
  owner-Finished s i j e o (looking k) inv h own why = elim own [ ]
  owner-Finished s i j e o (waiting k f) inv h own why = elim own [ ]
  owner-Finished s i j e o (left k out) inv h own why = elim own [ ]
  owner-Finished s i j e o (canceled k) inv h own why = elim own [ ]
  owner-Finished s i j e o (computing k f) inv h own why =
      let (live, _, _) : Fits s.memo (computing k f) = subst (λ q. Fits s.memo q) h (inv.fits j) in
      named s i j k f e own live.made.named
        (computing-Finished s i j k f o inv h (subst (λ x. IsConcerned s i j x) (sym own) why))
  owner-Finished s i j e o (computed k f out) inv h own why =
      let (live, _) : Fits s.memo (computed k f out) = subst (λ q. Fits s.memo q) h (inv.fits j) in
      named s i j k f e own live.made.named
        (computed-Finished s i j k f out inv h (subst (λ x. IsConcerned s i j x) (sym own) why))
  owner-Finished s i j e o (cleared k f out) inv h own why =
      let (live, _) : Fits s.memo (cleared k f out) = subst (λ q. Fits s.memo q) h (inv.fits j) in
      named s i j k f e own live.made.named
        (_, cleared-Finished s i j k f out inv h (subst (λ x. IsConcerned s i j x) (sym own) why))
