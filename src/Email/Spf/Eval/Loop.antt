-- ===== src/Email/Spf/Eval/Loop.antt =====
-- The walk over a record: its loop over the mechanisms, its redirect, and the walk at each depth.
use seta.Prelude.{
  ℕ, suc, ◌-◌, ◌≤◌, ◌≡◌, refl, sym, ◌∙◌, subst, Bool, true, false, List, [], ◌∷◌, Option, arith,
  if◌then◌else◌, Bytes, Yields, Yields-bind, Yields-elim, Yields-imp,
}
use seta.Email.Spf.{Mechanism, show_mechanism, counts_lookup}
use seta.Email.Spf.Eval.{
  World, Walker, Walk, TermCost, set_incomplete, push_cost, set_last, update_last, must_stop,
}
use seta.Email.Spf.Eval.Walk.{is_root, mechanism, charged, mechanisms_loop}
use seta.Email.Spf.Eval.Invariant.{
  IsTidy, IsPaid, Steps, CostKept, CostKept-same, Steps-same, total, total-update_last,
}
use seta.Email.Spf.Eval.Follow.{IsInner}
use seta.Email.Spf.Eval.Charge.{retidy, mechanism-Yields}

CostKept-trans :
    (root : Bool) (u v w : Walker) → CostKept root u v → CostKept root v w → CostKept root u w
CostKept-trans true u v w k l = λ h. l (k h)
CostKept-trans false u v w k l = l ∙ k

-- What a step that began within a bound, and one behind it within the same bound, make together.
pub Steps-trans :
    (root : Bool) (bound n : ℕ) (u v w : Walker)
    → Steps root bound n u v
    → Steps root bound n v w
    → Steps root bound n u w
Steps-trans root bound n u v w s t = record {
  at_most = t.at_most;
  grows = omega (arith, s.grows, t.grows);
  costs = CostKept-trans root u v w s.costs t.costs;
  tidy = t.tidy;
  paid = t.paid;
}

-- A mechanism with its cost at the root.
charged-Steps :
    (root : Bool) (bound n : ℕ) (term : Bytes) (w done : Walker)
    → Steps false bound n (if root then push_cost term 0 w else w) done
    → Steps root bound n w (
        if root
        then set_last (done.ev.lookups - (if root then push_cost term 0 w else w).ev.lookups) done
        else done)
unfolding push_cost set_last
charged-Steps false bound n term w done s = s
charged-Steps true bound n term w done s = record {
  at_most = s.at_most;
  grows = s.grows;
  costs = λ h.
      subst
        (λ cs.
          total (
            update_last (λ (c : TermCost). record c { lookups = done.ev.lookups - w.ev.lookups })
              cs)
          ≡ done.ev.lookups)
        (sym s.costs)
        (omega (
          arith,
          h,
          s.grows,
          total-update_last (λ c. record c { lookups = done.ev.lookups - w.ev.lookups }) w.ev.cost
              (record { term = term; lookups = 0 }),
        ));
  tidy = retidy done _ refl refl refl s.tidy;
  paid = s.paid;
}

begun :
    (root : Bool) (term : Bytes) (w : Walker) (bound : ℕ)
    → w.ev.lookups ≤ bound
    → IsTidy w
    → IsPaid 0 w
    → let w' = if root then push_cost term 0 w else w in
      (w'.ev.lookups ≤ bound) × IsTidy w' × IsPaid 0 w'
unfolding push_cost
begun true term w bound le tidy paid = (le, retidy w _ refl refl refl tidy, paid)
begun false term w bound le tidy paid = (le, tidy, paid)

stopped-Steps :
    (root : Bool) (bound n : ℕ) (w v : Walker)
    → Steps root bound n w v
    → Steps root bound n w (set_incomplete v)
unfolding set_incomplete
stopped-Steps root bound n w v s = record {
  at_most = s.at_most;
  grows = s.grows;
  costs = CostKept-trans root w v _ s.costs (CostKept-same root v _ refl refl);
  tidy = retidy v _ refl refl refl s.tidy;
  paid = s.paid;
}

goes_on : (w : Walker) (bound : ℕ) → must_stop w ≡ false → 50 ≤ bound → w.ev.lookups ≤ bound
unfolding must_stop
goes_on w bound h big = ground (arith, h, big)

-- What the loop of a walk yields: the walker, and whether it stopped.
abbrev pub IsLooped : Bool → ℕ → ℕ → Walker → Walker × Bool → Type 0
IsLooped root bound n w (done, stopped) =
    Steps root bound n w done × (stopped ≡ false → done.ev.lookups ≤ bound)

module _ (x : World) (n : ℕ) where
  charged-Yields :
      (inner : Option Walk) (domain at : Bytes) (top : Bool) (stack : List Bytes) (m : Mechanism)
      (w : Walker) (bound : ℕ)
      → IsInner inner n
      → 50 ≤ bound
      → w.ev.lookups ≤ bound
      → IsTidy w
      → IsPaid 0 w
      → Yields (Steps (is_root top at) bound (suc n) w) (charged x inner domain at top stack m w)
  unfolding charged
  charged-Yields inner domain at top stack m w bound b big le tidy paid =
      let root = is_root top at in
      let term = show_mechanism x.net m in
      let first = if root then push_cost term 0 w else w in
      let (le', tidy', paid') = begun root term w bound le tidy paid in
      Yields-bind (Steps false bound (suc n) first) (Steps root bound (suc n) w)
        (mechanism x inner domain m at stack first) _
        (mechanism-Yields x n inner domain m at stack first bound b big le' tidy' paid')
        λ done s. charged-Steps root bound (suc n) term w done s

  pub loop-Yields :
      (inner : Option Walk) (domain at : Bytes) (top : Bool) (stack : List Bytes)
      (ms : List Mechanism) (w : Walker) (bound : ℕ)
      → IsInner inner n
      → 50 ≤ bound
      → w.ev.lookups ≤ bound
      → IsTidy w
      → IsPaid 0 w
      → Yields
          (IsLooped (is_root top at) bound (suc n) w)
          (mechanisms_loop x inner domain at top stack ms w)
  unfolding mechanisms_loop
  loop-Yields inner domain at top stack [] w bound b big le tidy paid =
      (Steps-same (is_root top at) bound (suc n) w w (refl, refl, refl) tidy le paid, λ _. le)
  loop-Yields inner domain at top stack (m ∷ ms) w bound b big le tidy paid =
      let root = is_root top at in
      Yields-elim (IsLooped root bound (suc n) w) (counts_lookup m) _ _
        (λ _.
          Yields-bind (Steps root bound (suc n) w) (IsLooped root bound (suc n) w)
            (charged x inner domain at top stack m w) _
            (charged-Yields inner domain at top stack m w bound b big le tidy paid)
            λ done s.
              Yields-elim (IsLooped root bound (suc n) w) (must_stop done) _ _
                (λ _. (stopped-Steps root bound (suc n) w done s, λ e. absurd (cc e)))
                λ go.
                  Yields-imp (IsLooped root bound (suc n) done) (IsLooped root bound (suc n) w)
                    (mechanisms_loop x inner domain at top stack ms done)
                    (loop-Yields inner domain at top stack ms done bound b big
                      (goes_on done bound go big) s.tidy s.paid)
                    λ out h. (Steps-trans root bound (suc n) w done out.0 s h.0, h.1))
        (λ _. loop-Yields inner domain at top stack ms w bound b big le tidy paid)
