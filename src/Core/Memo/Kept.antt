-- ===== src/Core/Memo/Kept.antt =====
-- The operations of internal/core/memo.go and the order of the memo.
use seta.Prelude.{
  ℕ, ◌+◌, ◌<◌, ◌≡◌, ◌≢◌, refl, sym, ap, ◌∙◌, subst, Bool, true, false, Option, none, some, arith,
  Bool-cases, ◌⊎◌, inl, inr, Bytes, Result,
}
use seta.Core.Memo.{
  Entry, Memo, Pc, idle, looking, computing, computed, cleared, waiting, left, canceled, put,
  rename, make, store, clear, close,
}
use seta.Core.Memo.Invariant.{Owns, IsMade, Fits, IsOrdered, Inv}
use seta.Core.Memo.Frames.{
  put-at, put-off, put-cases, rename-off, rename-cases, IsMade-same, Frame, Fits-Frame,
}

pub below_or_last : (e n : ℕ) → e < n + 1 → (e < n) ⊎ (e ≡ n)
below_or_last e n h = ground (arith, h)

module _ {A : Type 0} where
  pub make-IsOrdered :
      (k : Bytes) (m : Memo A) → m.entries k ≡ none → IsOrdered m → IsOrdered (make k m)
  unfolding make
  make-IsOrdered k m free h = record {
    known = λ j e t. elim (rename-cases m.entries k (some m.next) j) [
      | inl (same, r) ↦
          let last : m.next ≡ e = cc (r, t) in
          record {
            below = omega (arith, last);
            named =
                ap (λ i. (put m.heap m.next new i).name) (sym last)
                ∙ ap (λ (x : Entry A). x.name) (put-at m.heap m.next new)
                ∙ same;
          }
      | inr (_, r) ↦
          let made = h.known j e (sym r ∙ t) in
          IsMade-same m (make k m) j e (omega arith)
            (ap (λ (x : Entry A). x.name) (off e made.below)) made
    ];
    settled = λ j e t d. elim (rename-cases m.entries k (some m.next) j) [
      | inl (same, r) ↦
          let last : m.next ≡ e = cc (r, t) in
          let fresh =
            ap (λ i. (put m.heap m.next new i).done) (sym last)
            ∙ ap (λ (x : Entry A). x.done) (put-at m.heap m.next new) in
          absurd (cc (fresh, d))
      | inr (_, r) ↦
          let before = sym r ∙ t in
          let same = off e (h.known j e before).below in
          ap (λ (x : Entry A). x.retry) same
          ∙ h.settled j e before (sym (ap (λ (x : Entry A). x.done) same) ∙ d)
    ];
    tied = λ e b t. elim (below_or_last e m.next b) [
      | inr last ↦
          let fresh =
            ap (λ i. (put m.heap m.next new i).retry) last
            ∙ ap (λ (x : Entry A). x.retry) (put-at m.heap m.next new) in
          absurd (cc (fresh, t))
      | inl old ↦
          let same = off e old in
          let there = h.tied e old (sym (ap (λ (x : Entry A). x.retry) same) ∙ t) in
          ap (λ (x : Entry A). rename m.entries k (some m.next) x.name) same
          ∙ rename-off m.entries k (some m.next) (m.heap e).name (λ e. absurd (cc (e, there, free)))
          ∙ there
    ];
  }
    where
      new : Entry A
      new = record { name = k; done = false; outcome = none; retry = true }

      off :
          (e : ℕ)
          → e < m.next
          → put m.heap m.next (record { name = k; done = false; outcome = none; retry = true }) e
            ≡ m.heap e
      off e b = put-off m.heap m.next _ e (λ same. omega (arith, same, b))

  -- An operation that changes one entry, which its caller has not closed.
  change-IsOrdered :
      (e : ℕ) (new : Entry A) (m : Memo A)
      → new.name ≡ (m.heap e).name
      → ((j : Bytes) → m.entries j ≡ some e → new.done ≡ true → new.retry ≡ false)
      → (new.retry ≡ false → m.entries new.name ≡ some e)
      → IsOrdered m
      → IsOrdered (record m { heap = put m.heap e new })
  change-IsOrdered e new m same settled tied h = record {
    known = λ j f t.
        let made = h.known j f t in
        record {
          below = made.below;
          named = elim (put-cases m.heap e new f) [
            | inl (at, r) ↦
                ap (λ (x : Entry A). x.name) r ∙ same ∙ ap (λ i. (m.heap i).name) at ∙ made.named
            | inr (_, r) ↦ ap (λ (x : Entry A). x.name) r ∙ made.named
          ];
        };
    settled = λ j f t d. elim (put-cases m.heap e new f) [
      | inl (at, r) ↦
          ap (λ (x : Entry A). x.retry) r
          ∙ settled j (t ∙ ap (λ i. some i) (sym at)) (sym (ap (λ (x : Entry A). x.done) r) ∙ d)
      | inr (_, r) ↦
          ap (λ (x : Entry A). x.retry) r
          ∙ h.settled j f t (sym (ap (λ (x : Entry A). x.done) r) ∙ d)
    ];
    tied = λ f b t. elim (put-cases m.heap e new f) [
      | inl (at, r) ↦
          ap (λ (x : Entry A). m.entries x.name) r
          ∙ tied (sym (ap (λ (x : Entry A). x.retry) r) ∙ t)
          ∙ ap (λ i. some i) at
      | inr (_, r) ↦
          ap (λ (x : Entry A). m.entries x.name) r
          ∙ h.tied f b (sym (ap (λ (x : Entry A). x.retry) r) ∙ t)
    ];
  }

  pub store-IsOrdered :
      (k : Bytes) (e : ℕ) (o : Option (Result Bytes A)) (ended : Bool) (m : Memo A)
      → IsMade m k e
      → (m.heap e).done ≡ false
      → m.entries k ≡ some e
      → IsOrdered m
      → IsOrdered (store e o ended m)
  unfolding store
  store-IsOrdered k e o ended m made opened there h =
      change-IsOrdered e _ m refl (λ j t d. absurd (cc (opened, d)))
        (λ t. ap m.entries made.named ∙ there) h

  pub close-IsOrdered :
      (k : Bytes) (e : ℕ) (m : Memo A)
      → IsMade m k e
      → ((m.heap e).retry ≡ true → m.entries k ≢ some e)
      → IsOrdered m
      → IsOrdered (close e m)
  unfolding close
  close-IsOrdered k e m made away h =
      change-IsOrdered e _ m refl
        (λ j t d. elim (Bool-cases (m.heap e).retry) [
          | inr still ↦ still
          | inl again ↦
              absurd (away again (ap m.entries (sym made.named ∙ (h.known j e t).named) ∙ t))
        ])
        (λ t. h.tied e made.below t) h

  pub clear-IsOrdered :
      (k : Bytes) (e : ℕ) (m : Memo A)
      → m.entries k ≡ some e
      → IsOrdered m
      → IsOrdered (clear k e m)
  unfolding clear
  clear-IsOrdered k e m there h = elim (Bool-cases (m.heap e).retry) [
    | inr keep ↦ rw keep h
    | inl again ↦ rw again (record {
      known = λ j f t. old j f t (λ u. IsMade-same m _ j f (omega arith) refl (h.known j f u));
      settled = λ j f t d. old j f t (λ u. h.settled j f u d);
      tied = λ f b t.
          let at = h.tied f b t in
          rename-off m.entries k none (m.heap f).name (λ same.
            let one : e ≡ f = cc (there, same, at) in
            absurd (cc (ap (λ i. (m.heap i).retry) one, again, t)))
          ∙ at;
    })
  ]
    where
      old :
          {P : Type 0} (j : Bytes) (f : ℕ)
          → rename m.entries k none j ≡ some f
          → (m.entries j ≡ some f → P)
          → P
      old j f t next = elim (rename-cases m.entries k none j) [
        | inl (_, r) ↦ absurd (cc (r, t))
        | inr (_, r) ↦ next (sym r ∙ t)
      ]

  owner-below : (m : Memo A) (p : Pc A) (e : ℕ) → Fits m p → Owns p e → e < m.next
  owner-below m idle e h o = elim o [ ]
  owner-below m (looking k) e h o = elim o [ ]
  owner-below m (waiting k f) e h o = elim o [ ]
  owner-below m (left k out) e h o = elim o [ ]
  owner-below m (canceled k) e h o = elim o [ ]
  owner-below m (computing k f) e h o = omega (arith, h.0.made.below, o)
  owner-below m (computed k f out) e h o = omega (arith, h.0.made.below, o)
  owner-below m (cleared k f out) e h o = omega (arith, h.0.made.below, o)

  -- A step of caller `i` to `p`, from what it does to the memo and to the owners of entries.
  pub move-Inv :
      (m n : Memo A) (pc : ℕ → Pc A) (i : ℕ) (p : Pc A)
      → Inv m pc
      → IsOrdered n
      → Fits n p
      → ((j : ℕ) → i ≢ j → Frame m n (pc j))
      → ((e : ℕ) → Owns p e → Owns (pc i) e ⊎ (e ≡ m.next))
      → ((e : ℕ)
          → e < n.next
          → (n.heap e).done ≡ false
          → Owns p e ⊎ ((e < m.next) × ((m.heap e).done ≡ false) × (Owns (pc i) e → ⊥)))
      → Inv n (put pc i p)
  move-Inv m n pc i p inv ordered fits frames mine others = record {
    ordered = ordered;
    fits = λ j. elim (put-cases pc i p j) [
      | inl (_, r) ↦ subst (λ (q : Pc A). Fits n q) (sym r) fits
      | inr (off, r) ↦
          subst (λ (q : Pc A). Fits n q) (sym r) (Fits-Frame m n (pc j) (frames j off) (inv.fits j))
    ];
    sole = λ a b e oa ob. elim (put-cases pc i p a) [
      | inl (ea, ra) ↦ elim (put-cases pc i p b) [
        | inl (eb, _) ↦ sym ea ∙ eb
        | inr (nb, rb) ↦ absurd (apart b e nb (at e oa ra) (at e ob rb))
      ]
      | inr (na, ra) ↦ elim (put-cases pc i p b) [
        | inl (eb, rb) ↦ absurd (apart a e na (at e ob rb) (at e oa ra))
        | inr (_, rb) ↦ inv.sole a b e (at e oa ra) (at e ob rb)
      ]
    ];
    owned = λ e b d. elim (others e b d) [
      | inl o ↦ (i, at e o (sym (put-at pc i p)))
      | inr (before, opened, notmine) ↦
          let (j, o) = inv.owned e before opened in
          (
            j,
            at e o (
                sym (
                  put-off pc i p j
                    (λ same. notmine (subst (λ (x : ℕ). Owns (pc x) e) (sym same) o)))),
          )
    ];
  }
    where
      at : {q r : Pc A} (e : ℕ) → Owns q e → q ≡ r → Owns r e
      at e o same = subst (λ (x : Pc A). Owns x e) same o

      apart : (j e : ℕ) → i ≢ j → Owns p e → Owns (pc j) e → ⊥
      apart j e off o o' = elim (mine e o) [
        | inl before ↦ off (inv.sole i j e before o')
        | inr last ↦ omega (arith, owner-below m (pc j) e (inv.fits j) o', last)
      ]
