-- ===== src/Core/Memo/Frames.antt =====
-- The operations of internal/core/memo.go, for the callers that do not take the step.
use seta.Prelude.{
  ℕ, ◌<◌, ◌≤◌, ◌≡◌, ◌≢◌, refl, sym, ap, ◌∙◌, subst, Bool, true, false, Option, none, some, arith,
  ◌==◌, ==_iff, Bool-cases, ◌⊎◌, inl, inr, Bytes, Result, ok, err,
}
use seta.Core.Memo.{
  Entry, Memo, Pc, idle, looking, computing, computed, cleared, waiting, left, canceled, put,
  rename, make, must_retry, store, clear, close,
}
use seta.Core.Memo.Invariant.{Owns, IsMade, IsLive, IsKept, Fits}

pub put-at {ℓ} : {A : Type ℓ} (f : ℕ → A) (i : ℕ) (a : A) → put f i a i ≡ a
put-at f i a = ground arith

pub put-off {ℓ} : {A : Type ℓ} (f : ℕ → A) (i : ℕ) (a : A) (j : ℕ) → i ≢ j → put f i a j ≡ f j
put-off f i a j h = ground (arith, h)

pub put-cases :
    {A : Type 0} (f : ℕ → A) (i : ℕ) (a : A) (j : ℕ)
    → ((i ≡ j) × (put f i a j ≡ a)) ⊎ ((i ≢ j) × (put f i a j ≡ f j))
put-cases f i a j = ground arith

pub rename-at : (f : Bytes → Option ℕ) (k : Bytes) (o : Option ℕ) → rename f k o k ≡ o
rename-at f k o = ground (arith, ==_iff k k)

pub rename-off :
    (f : Bytes → Option ℕ) (k : Bytes) (o : Option ℕ) (j : Bytes) → k ≢ j → rename f k o j ≡ f j
rename-off f k o j h = ground (arith, ==_iff k j, h)

pub rename-cases :
    (f : Bytes → Option ℕ) (k : Bytes) (o : Option ℕ) (j : Bytes)
    → ((k ≡ j) × (rename f k o j ≡ o)) ⊎ ((k ≢ j) × (rename f k o j ≡ f j))
rename-cases f k o j = elim (Bool-cases (k == j)) [
  | inl same ↦
      let e = (==_iff k j).0 same in
      inl (e, subst (λ (x : Bytes). rename f k o x ≡ o) e (rename-at f k o))
  | inr differ ↦
      let n : k ≢ j = λ e. ground (arith, ==_iff k j, e, differ) in inr (n, rename-off f k o j n)
]

module _ {A : Type 0} where
  -- An entry with the same name in a memo that made no fewer.
  pub IsMade-same :
      (m n : Memo A) (k : Bytes) (e : ℕ)
      → m.next ≤ n.next
      → (n.heap e).name ≡ (m.heap e).name
      → IsMade m k e
      → IsMade n k e
  IsMade-same m n k e le same made = record {
    below = omega (arith, made.below, le);
    named = same ∙ made.named;
  }

  pub IsLive-same :
      (m n : Memo A) (k : Bytes) (e : ℕ) (o : Option (Result Bytes A))
      → m.next ≤ n.next
      → n.heap e ≡ m.heap e
      → IsLive m k e o
      → IsLive n k e o
  IsLive-same m n k e o le same live = record {
    made = IsMade-same m n k e le (ap (λ (x : Entry A). x.name) same) live.made;
    opened = ap (λ (x : Entry A). x.done) same ∙ live.opened;
    outcome = ap (λ (x : Entry A). x.outcome) same ∙ live.outcome;
    value = subst (λ (x : Entry A). IsKept o x.retry) (sym same) live.value;
  }

  -- A step that keeps the entry of a caller, the name of every entry, the outcomes that are kept, and what the
  -- map has for the caller.
  pub record Frame (m n : Memo A) (p : Pc A) : Type 0 where
    pub grows : m.next ≤ n.next
    pub names : (e : ℕ) → e < m.next → (n.heap e).name ≡ (m.heap e).name
    pub own : (e : ℕ) → e < m.next → Owns p e → n.heap e ≡ m.heap e
    pub holds : (k : Bytes) (e : ℕ) → Owns p e → m.entries k ≡ some e → n.entries k ≡ some e
    pub gone : (k : Bytes) (e : ℕ) → e < m.next → m.entries k ≢ some e → n.entries k ≢ some e
    pub kept :
        (e : ℕ)
        → e < m.next
        → (m.heap e).retry ≡ false
        → ((n.heap e).outcome ≡ (m.heap e).outcome) × ((n.heap e).retry ≡ false)

  pub Fits-Frame : (m n : Memo A) (p : Pc A) → Frame m n p → Fits m p → Fits n p
  Fits-Frame m n idle f h = tt
  Fits-Frame m n (looking k) f h = tt
  Fits-Frame m n (computing k e) f (live, there, again) =
      let same = f.own e live.made.below refl in
      (
        IsLive-same m n k e none f.grows same live,
        f.holds k e refl there,
        ap (λ (x : Entry A). x.retry) same ∙ again,
      )
  Fits-Frame m n (computed k e o) f (live, there) =
      (IsLive-same m n k e o f.grows (f.own e live.made.below refl) live, f.holds k e refl there)
  Fits-Frame m n (cleared k e o) f (live, away) =
      let same = f.own e live.made.below refl in
      (
        IsLive-same m n k e o f.grows same live,
        λ again.
            f.gone k e live.made.below (away (ap (λ (x : Entry A). x.retry) (sym same) ∙ again)),
      )
  Fits-Frame m n (waiting k e) f made = IsMade-same m n k e f.grows (f.names e made.below) made
  Fits-Frame m n (left k (some (ok a))) f (e, made, out, settled) =
      let (same, still) = f.kept e made.below settled in
      (e, IsMade-same m n k e f.grows (f.names e made.below) made, same ∙ out, still)
  Fits-Frame m n (left k (some (err e))) f h = tt
  Fits-Frame m n (left k none) f h = tt
  Fits-Frame m n (canceled k) f h = tt

  -- Another caller than the owner of an entry.
  abbrev pub IsOther : Pc A → ℕ → Type 0
  IsOther p e = (f : ℕ) → Owns p f → e ≢ f

  pub make-Frame : (k : Bytes) (m : Memo A) (p : Pc A) → m.entries k ≡ none → Frame m (make k m) p
  unfolding make
  make-Frame k m p free = record {
    grows = omega arith;
    names = λ e b. ap (λ (x : Entry A). x.name) (off e b);
    own = λ e b o. off e b;
    holds = λ j e o h. elim (rename-cases m.entries k (some m.next) j) [
      | inl (same, _) ↦ absurd (cc (same, free, h))
      | inr (_, r) ↦ r ∙ h
    ];
    gone = λ j e b h t. elim (rename-cases m.entries k (some m.next) j) [
      | inl (_, r) ↦ let same : m.next ≡ e = cc (r, t) in omega (arith, b, same)
      | inr (_, r) ↦ h (sym r ∙ t)
    ];
    kept = λ e b h.
        (ap (λ (x : Entry A). x.outcome) (off e b), ap (λ (x : Entry A). x.retry) (off e b) ∙ h);
  }
    where
      off :
          (e : ℕ)
          → e < m.next
          → put m.heap m.next (record { name = k; done = false; outcome = none; retry = true }) e
            ≡ m.heap e
      off e b = put-off m.heap m.next _ e (λ same. omega (arith, same, b))

  pub store-Frame :
      (e : ℕ) (o : Option (Result Bytes A)) (ended : Bool) (m : Memo A) (p : Pc A)
      → (m.heap e).retry ≡ true
      → IsOther p e
      → Frame m (store e o ended m) p
  unfolding store
  store-Frame e o ended m p again other = record {
    grows = omega arith;
    names = λ f b. elim (put-cases m.heap e new f) [
      | inl (same, r) ↦ ap (λ (x : Entry A). x.name) (r) ∙ ap (λ i. (m.heap i).name) same
      | inr (_, r) ↦ ap (λ (x : Entry A). x.name) r
    ];
    own = λ f b h. put-off m.heap e new f (other f h);
    holds = λ j f h t. t;
    gone = λ j f b h. h;
    kept = λ f b h. elim (put-cases m.heap e new f) [
      | inl (same, r) ↦ absurd (cc (again, ap (λ i. (m.heap i).retry) same, h))
      | inr (_, r) ↦ (ap (λ (x : Entry A). x.outcome) r, ap (λ (x : Entry A). x.retry) r ∙ h)
    ];
  }
    where
      new : Entry A
      new = record (m.heap e) { outcome = o; retry = must_retry o ended }

  pub close-Frame : (e : ℕ) (m : Memo A) (p : Pc A) → IsOther p e → Frame m (close e m) p
  unfolding close
  close-Frame e m p other = record {
    grows = omega arith;
    names = λ f b. elim (put-cases m.heap e new f) [
      | inl (same, r) ↦ ap (λ (x : Entry A). x.name) (r) ∙ ap (λ i. (m.heap i).name) same
      | inr (_, r) ↦ ap (λ (x : Entry A). x.name) r
    ];
    own = λ f b h. put-off m.heap e new f (other f h);
    holds = λ j f h t. t;
    gone = λ j f b h. h;
    kept = λ f b h. elim (put-cases m.heap e new f) [
      | inl (same, r) ↦ (
        ap (λ (x : Entry A). x.outcome) r ∙ ap (λ i. (m.heap i).outcome) same,
        ap (λ (x : Entry A). x.retry) r ∙ ap (λ i. (m.heap i).retry) same ∙ h,
      )
      | inr (_, r) ↦ (ap (λ (x : Entry A). x.outcome) r, ap (λ (x : Entry A). x.retry) r ∙ h)
    ];
  }
    where
      new : Entry A
      new = record (m.heap e) { done = true }

  pub clear-Frame :
      (k : Bytes) (e : ℕ) (m : Memo A) (p : Pc A)
      → m.entries k ≡ some e
      → IsOther p e
      → Frame m (clear k e m) p
  unfolding clear
  clear-Frame k e m p there other = elim (Bool-cases (m.heap e).retry) [
    | inr keep ↦ rw keep (record {
      grows = omega arith;
      names = λ f b. refl;
      own = λ f b h. refl;
      holds = λ j f h t. t;
      gone = λ j f b h. h;
      kept = λ f b h. (refl, h);
    })
    | inl again ↦ rw again (record {
      grows = omega arith;
      names = λ f b. refl;
      own = λ f b h. refl;
      holds = λ j f h t. elim (rename-cases m.entries k none j) [
        | inl (same, _) ↦ absurd (other f h (cc (same, there, t)))
        | inr (_, r) ↦ r ∙ t
      ];
      gone = λ j f b h t. elim (rename-cases m.entries k none j) [
        | inl (_, r) ↦ absurd (cc (r, t))
        | inr (_, r) ↦ h (sym r ∙ t)
      ];
      kept = λ f b h. (refl, h);
    })
  ]
