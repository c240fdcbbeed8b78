-- ===== src/Email/Spf/Eval/Redirect.antt =====
-- What a walk does behind its loop: the redirect and its cost, and the walk at each depth.
use seta.Prelude.{
  ℕ, zero, suc, ◌+◌, ◌-◌, ◌≤◌, ◌≡◌, refl, sym, ap, subst, Bool, true, false, List, [], ◌∷◌, ◌++◌,
  Option, none, some, arith, if◌then◌else◌, Bytes, codes, is_empty, ok, Yields, Yields-bind,
  Yields-if, Yields-option, Yields-imp,
}
use seta.Email.Spf.{Mechanism, Record, all_of}
use seta.Email.Spf.Macro.{has_macro}
use seta.Email.Spf.Eval.{
  World, Walker, Walk, TermCost, add_unexpanded, set_effective, count_lookup, push_cost, add_last,
  update_last,
}
use seta.Email.Spf.Eval.Walk.{
  target_of, is_root, follow, mechanisms_loop, redirect_step, finish, walk_with, walk,
}
use seta.Email.Spf.Eval.Invariant.{
  IsTidy, IsPaid, Steps, Steps-same, total, total-update_last, total-append,
}
use seta.Email.Spf.Eval.Follow.{IsBounded, IsInner, follow-Yields}
use seta.Email.Spf.Eval.Charge.{retidy, unexpanded-Steps}
use seta.Email.Spf.Eval.Loop.{IsLooped, loop-Yields, Steps-trans}

-- A redirect that was counted, with its cost at the root.
entry : Bool → Bytes → Walker → Walker
entry root term w = if root then push_cost term 1 (count_lookup w) else count_lookup w

entry_lem :
    (root : Bool) (term : Bytes) (w : Walker) (bound : ℕ)
    → w.ev.lookups ≤ bound
    → IsTidy w
    → IsPaid 0 w
    → ((entry root term w).ev.lookups ≤ bound + 1)
      × IsTidy (entry root term w)
      × IsPaid 1 (entry root term w)
unfolding entry push_cost count_lookup
entry_lem true term w bound le tidy paid =
    (omega (arith, le), retidy w _ refl refl refl tidy, omega (arith, paid))
entry_lem false term w bound le tidy paid =
    (omega (arith, le), retidy w _ refl refl refl tidy, omega (arith, paid))

-- A redirect to a name with a macro.
stays-Steps :
    (root : Bool) (bound n : ℕ) (term : Bytes) (w done : Walker)
    → Steps false (bound + 1) n (entry root term w) done
    → done.ev.lookups ≡ (entry root term w).ev.lookups
    → Steps root bound (suc n) w done
unfolding entry push_cost count_lookup
stays-Steps true bound n term w done s same = record {
  at_most = omega (arith, s.at_most);
  grows = omega (arith, s.grows);
  costs = λ h. omega (
    arith,
    h,
    same,
    ap total s.costs,
    total-append w.ev.cost (record { term = term; lookups = 1 } ∷ []),
  );
  tidy = s.tidy;
  paid = s.paid;
}
stays-Steps false bound n term w done s same = record {
  at_most = omega (arith, s.at_most);
  grows = omega (arith, s.grows);
  costs = s.costs;
  tidy = s.tidy;
  paid = s.paid;
}

-- A redirect that was followed.
followed-Steps :
    (root : Bool) (bound n : ℕ) (term : Bytes) (w done : Walker)
    → Steps false (bound + 1) n (entry root term w) done
    → Steps root bound
        (suc n)
        w
        (if root then add_last (done.ev.lookups - (entry root term w).ev.lookups) done else done)
unfolding entry push_cost count_lookup add_last
followed-Steps true bound n term w done s =
    let more = done.ev.lookups - (w.ev.lookups + 1) in
    record {
      at_most = omega (arith, s.at_most);
      grows = omega (arith, s.grows);
      costs = λ h.
          subst
            (λ cs.
              total (update_last (λ (c : TermCost). record c { lookups = c.lookups + more }) cs)
              ≡ done.ev.lookups)
            (sym s.costs)
            (omega (
              arith,
              h,
              s.grows,
              total-update_last (λ c. record c { lookups = c.lookups + more }) w.ev.cost
                  (record { term = term; lookups = 1 }),
            ));
      tidy = retidy done _ refl refl refl s.tidy;
      paid = s.paid;
    }
followed-Steps false bound n term w done s = record {
  at_most = omega (arith, s.at_most);
  grows = omega (arith, s.grows);
  costs = s.costs;
  tidy = s.tidy;
  paid = s.paid;
}

effective-Steps :
    (root top : Bool) (bound n : ℕ) (a : Mechanism) (w : Walker)
    → w.ev.lookups ≤ bound
    → IsTidy w
    → IsPaid 0 w
    → Steps root bound n w (if top then set_effective a w else w)
unfolding set_effective
effective-Steps root true bound n a w le tidy paid =
    Steps-same root bound n w _ (refl, refl, refl) (retidy w _ refl refl refl tidy) le paid
effective-Steps root false bound n a w le tidy paid =
    Steps-same root bound n w w (refl, refl, refl) tidy le paid

module _ (x : World) (n : ℕ) where
  redirect_step-Yields :
      (inner : Option Walk) (rec : Record) (at : Bytes) (top : Bool) (stack : List Bytes)
      (w : Walker) (bound : ℕ)
      → IsInner inner n
      → 50 ≤ bound
      → w.ev.lookups ≤ bound
      → IsTidy w
      → IsPaid 0 w
      → Yields (Steps (is_root top at) bound (suc n) w) (redirect_step x inner rec at top stack w)
  unfolding redirect_step entry is_empty add_unexpanded
  redirect_step-Yields inner rec at top stack w bound b big le tidy paid =
      let root = is_root top at in
      let term = codes "redirect=" ++ rec.redirect in
      let begun = entry root term w in
      let target = target_of x rec.redirect in
      let (le', tidy', paid') = entry_lem root term w bound le tidy paid in
      Yields-if (Steps root bound (suc n) w) (has_macro rec.redirect) _ _
        (λ _.
          stays-Steps root bound n term w (add_unexpanded term begun)
            (unexpanded-Steps (bound + 1) n term begun le' tidy' (omega (arith, paid'))) refl)
        λ _.
          Yields-bind (Steps false (bound + 1) n begun) (Steps root bound (suc n) w)
            (follow x inner target (codes "redirect:" ++ target) top stack begun) _
            (follow-Yields x n inner target (codes "redirect:" ++ target) top stack begun
              (bound + 1) b refl (omega (arith, big)) le' tidy' paid')
            λ done s. followed-Steps root bound n term w done s

  finish-Yields :
      (inner : Option Walk) (rec : Record) (at : Bytes) (top : Bool) (stack : List Bytes)
      (w : Walker) (bound : ℕ)
      → IsInner inner n
      → 50 ≤ bound
      → w.ev.lookups ≤ bound
      → IsTidy w
      → IsPaid 0 w
      → Yields (Steps (is_root top at) bound (suc n) w) (finish x inner rec at top stack w)
  unfolding finish
  finish-Yields inner rec at top stack w bound b big le tidy paid =
      let root = is_root top at in
      Yields-option (Steps root bound (suc n) w) (all_of rec.mechanisms) _ _
        (Yields-if (Steps root bound (suc n) w) (is_empty rec.redirect) (ok w) _
          (λ _. Steps-same root bound (suc n) w w (refl, refl, refl) tidy le paid)
          λ _. redirect_step-Yields inner rec at top stack w bound b big le tidy paid)
        λ a _. effective-Steps root top bound (suc n) a w le tidy paid

  walk_with-IsBounded :
      (inner : Option Walk) → IsInner inner n → IsBounded (walk_with x inner) (suc n)
  unfolding walk_with
  walk_with-IsBounded inner b domain rec at top stack w bound big le tidy paid =
      let root = is_root top at in
      Yields-bind (IsLooped root bound (suc n) w) (Steps root bound (suc n) w)
        (mechanisms_loop x inner domain at top stack rec.mechanisms w) _
        (loop-Yields x n inner domain at top stack rec.mechanisms w bound b big le tidy paid)
        λ looped h.
          Yields-if (Steps root bound (suc n) w) looped.1 (ok looped.0) _ (λ _. h.0)
            λ go.
              Yields-imp (Steps root bound (suc n) looped.0) (Steps root bound (suc n) w)
                (finish x inner rec at top stack looped.0)
                (finish-Yields inner rec at top stack looped.0 bound b big (h.1 go) h.0.tidy
                  h.0.paid)
                λ done s. Steps-trans root bound (suc n) w looped.0 done h.0 s

pub walk-IsBounded : (x : World) (depth : ℕ) → IsBounded (walk x depth) (suc depth)
unfolding walk
walk-IsBounded x zero = walk_with-IsBounded x 0 none tt
walk-IsBounded x (suc depth) =
    walk_with-IsBounded x (suc depth) (some (walk x depth)) (walk-IsBounded x depth)
