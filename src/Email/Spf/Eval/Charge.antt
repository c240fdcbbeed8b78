-- ===== src/Email/Spf/Eval/Charge.antt =====
-- One term of a record in checks/email/internal/spf/eval.go: the cases of `mechanism`.
use seta.Prelude.{
  ℕ, suc, ◌+◌, ◌≤◌, ◌≡◌, refl, sym, ap, ◌∙◌, subst, Bool, true, false, ◌&&◌, ◌||◌, List, ◌++◌,
  Option, arith, if◌then◌else◌, ltb, ◌=?◌, ◌==◌, length, Bytes, codes, is_empty, Result, ok, Yields,
  Yields-bind, Yields-if, Yields-imp, Yields-any, Pairs,
}
use seta.Dns.{Response, type_a, type_aaaa, type_mx, records, mx_in}
use seta.Email.Spf.{Mechanism, show_mechanism}
use seta.Email.Spf.Macro.{has_macro}
use seta.Email.Spf.Eval.{
  World, Walker, Walk, max_mx_names, add_void, add_problem, add_unexpanded, count_lookup,
  count_queries,
}
use seta.Email.Spf.Eval.Walk.{target_of, is_nil, address_lookups, mx_lookup, dispatch, mechanism}
use seta.Email.Spf.Eval.Invariant.{
  Differ, IsTidy, IsPaid, Steps, Steps-same, add_void-IsTidy, add_problem-IsTidy, add_problem_lem,
}
use seta.Email.Spf.Eval.Follow.{IsInner, follow-Yields}

pub retidy :
    (w w' : Walker)
    → w'.ev.voids ≡ w.ev.voids
    → w'.ev.void_lookups ≡ w.ev.void_lookups
    → w'.ev.problems ≡ w.ev.problems
    → IsTidy w
    → IsTidy w'
retidy w w' v l p tidy = record {
  voids_listed = ap length v ∙ tidy.voids_listed ∙ sym l;
  problems_differ = subst (λ ps. Pairs Differ ps) (sym p) tidy.problems_differ;
}

void-Steps :
    (bound n k : ℕ) (b : Bool) (term : Bytes) (w : Walker)
    → w.ev.lookups ≤ bound
    → IsTidy w
    → IsPaid k w
    → Steps false bound n w (if b then add_void term (count_queries k w) else count_queries k w)
unfolding add_void count_queries
void-Steps bound n k true term w le tidy paid = record {
  at_most = omega (arith, le);
  grows = omega arith;
  costs = refl;
  tidy = add_void-IsTidy term (count_queries k w) (retidy w _ refl refl refl tidy);
  paid = omega (arith, paid);
}
void-Steps bound n k false term w le tidy paid = record {
  at_most = omega (arith, le);
  grows = omega arith;
  costs = refl;
  tidy = retidy w _ refl refl refl tidy;
  paid = omega (arith, paid);
}

problem-Steps :
    (bound n : ℕ) (b : Bool) (at msg : Bytes) (w v : Walker)
    → Steps false bound n w v
    → Steps false bound n w (if b then add_problem at msg v else v)
problem-Steps bound n false at msg w v s = s
problem-Steps bound n true at msg w v s =
    let same = add_problem_lem at msg v in
    record {
      at_most = omega (arith, same.0, s.at_most);
      grows = omega (arith, same.0, s.grows);
      costs = same.1 ∙ s.costs;
      tidy = add_problem-IsTidy at msg v s.tidy;
      paid = omega (arith, same.0, same.2, s.paid);
    }

pub unexpanded-Steps :
    (bound n : ℕ) (term : Bytes) (w : Walker)
    → w.ev.lookups ≤ bound
    → IsTidy w
    → IsPaid 0 w
    → Steps false bound n w (add_unexpanded term w)
unfolding add_unexpanded
unexpanded-Steps bound n term w le tidy paid = record {
  at_most = omega (arith, le);
  grows = omega arith;
  costs = refl;
  tidy = retidy w _ refl refl refl tidy;
  paid = paid;
}

-- One lookup pays for two queries.
pub counted :
    (w : Walker) (bound : ℕ)
    → w.ev.lookups ≤ bound
    → IsTidy w
    → IsPaid 0 w
    → ((count_lookup w).ev.lookups ≤ bound + 1)
      × IsTidy (count_lookup w)
      × IsPaid 2 (count_lookup w)
unfolding count_lookup
counted w bound le tidy paid =
    (omega (arith, le), retidy w _ refl refl refl tidy, omega (arith, paid))

pub uncount :
    (bound n : ℕ) (w w' : Walker)
    → Steps false (bound + 1) n (count_lookup w) w'
    → Steps false bound (suc n) w w'
unfolding count_lookup
uncount bound n w w' s = record {
  at_most = omega (arith, s.at_most);
  grows = omega (arith, s.grows);
  costs = s.costs;
  tidy = s.tidy;
  paid = s.paid;
}

module _ (x : World) (n : ℕ) where
  address_lookups-Yields :
      (m : Mechanism) (target : Bytes) (w : Walker) (bound : ℕ)
      → w.ev.lookups ≤ bound
      → IsTidy w
      → IsPaid 2 w
      → Yields (Steps false bound n w) (address_lookups x m target w)
  unfolding address_lookups
  address_lookups-Yields m target w bound le tidy paid =
      Yields-bind (λ (_ : Response). Unit {0}) (Steps false bound n w) (x.resolver target type_a) _
        (Yields-any (x.resolver target type_a))
        λ one _.
          Yields-if (Steps false bound n w) (m.kind == codes "exists") _ _
            (λ _.
              void-Steps bound n 1 (is_nil (records one)) (show_mechanism x.net m) w le tidy
                (omega (arith, paid)))
            λ _.
              Yields-bind (λ (_ : Response). Unit {0}) (Steps false bound n w)
                (x.resolver target type_aaaa) _ (Yields-any (x.resolver target type_aaaa))
                λ two _.
                  void-Steps bound n 2 (is_nil (records one) && is_nil (records two))
                    (show_mechanism x.net m) w le tidy paid

  mx_lookup-Yields :
      (m : Mechanism) (target at : Bytes) (w : Walker) (bound : ℕ)
      → w.ev.lookups ≤ bound
      → IsTidy w
      → IsPaid 2 w
      → Yields (Steps false bound n w) (mx_lookup x m target at w)
  unfolding mx_lookup
  mx_lookup-Yields m target at w bound le tidy paid =
      Yields-bind (λ (_ : Response). Unit {0}) (Steps false bound n w) (x.resolver target type_mx) _
        (Yields-any (x.resolver target type_mx))
        λ resp _. problem-Steps bound n (ltb max_mx_names (length (mx_in resp.answer))) at _ w _ (
          void-Steps bound n 1 (length (mx_in resp.answer) =? 0) (show_mechanism x.net m) w le tidy
            (omega (arith, paid)))

  dispatch-Yields :
      (inner : Option Walk) (m : Mechanism) (target at : Bytes) (stack : List Bytes) (w : Walker)
      (bound : ℕ)
      → IsInner inner n
      → 50 ≤ bound
      → w.ev.lookups ≤ bound
      → IsTidy w
      → IsPaid 2 w
      → Yields (Steps false bound n w) (dispatch x inner m target at stack w)
  unfolding dispatch is_empty
  dispatch-Yields inner m target at stack w bound b big le tidy paid =
      Yields-if (Steps false bound n w) (m.kind == codes "include") _ _
        (λ _.
          follow-Yields x n inner target (codes "include:" ++ target) false stack w bound b refl big
            le tidy (omega (arith, paid)))
        λ _.
          Yields-if (Steps false bound n w) (m.kind == codes "a" || m.kind == codes "exists") _ _
            (λ _. address_lookups-Yields m target w bound le tidy paid)
            λ _.
              Yields-if (Steps false bound n w) (m.kind == codes "mx") _ _
                (λ _. mx_lookup-Yields m target at w bound le tidy paid)
                λ _. Steps-same false bound n w w (refl, refl, refl) tidy le (omega (arith, paid))

  pub mechanism-Yields :
      (inner : Option Walk) (domain : Bytes) (m : Mechanism) (at : Bytes) (stack : List Bytes)
      (w : Walker) (bound : ℕ)
      → IsInner inner n
      → 50 ≤ bound
      → w.ev.lookups ≤ bound
      → IsTidy w
      → IsPaid 0 w
      → Yields (Steps false bound (suc n) w) (mechanism x inner domain m at stack w)
  unfolding mechanism
  mechanism-Yields inner domain m at stack w bound b big le tidy paid =
      let (more, tidied, paid_for) = counted w bound le tidy paid in
      let rebased : (r : Result Bytes Walker)
          → Yields (Steps false (bound + 1) n (count_lookup w)) r
          → Yields (Steps false bound (suc n) w) r =
        λ r s.
          Yields-imp (Steps false (bound + 1) n (count_lookup w)) (Steps false bound (suc n) w) r s
            (λ w' t. uncount bound n w w' t) in
      Yields-if (Steps false bound (suc n) w) (is_empty m.domain) _ _
        (λ _. rebased _ (
          dispatch-Yields inner m domain at stack (count_lookup w) (bound + 1) b
            (omega (arith, big)) more tidied paid_for))
        λ _.
          Yields-if (Steps false bound (suc n) w) (has_macro m.domain) _ _
            (λ _. rebased (ok (add_unexpanded (show_mechanism x.net m) (count_lookup w))) (
              unexpanded-Steps (bound + 1) n (show_mechanism x.net m) (count_lookup w) more tidied
                (omega (arith, paid_for))))
            λ _. rebased _ (
              dispatch-Yields inner m (target_of x m.domain) at stack (count_lookup w) (bound + 1) b
                (omega (arith, big)) more tidied paid_for)
