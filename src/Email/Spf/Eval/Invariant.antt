-- ===== src/Email/Spf/Eval/Invariant.antt =====
-- The state of an evaluation of checks/email/internal/spf/eval.go from step to step.
use seta.Prelude.{
  ℕ, ◌+◌, ◌*◌, ◌≤◌, ◌≡◌, sym, ap, ◌∙◌, Bool, true, false, ◌&&◌, List, [], ◌∷◌, ◌++◌, arith, ◌==◌,
  ==_iff, length, length-append, Bytes, any, Bool-cases, inl, inr, All, Pairs, Pairs-append,
  All-imp,
}
use seta.Email.Spf.Eval.{Problem, TermCost, Walker, add_void, add_problem, update_last}

abbrev pub Differ : Problem → Problem → Type 0
Differ p q = ¬ ((p.at ≡ q.at) × (p.msg ≡ q.msg))

-- Each void lookup is listed, and no problem is listed twice.
pub record IsTidy (w : Walker) : Type 0 where
  pub voids_listed : length w.ev.voids ≡ w.ev.void_lookups
  pub problems_differ : Pairs Differ w.ev.problems

-- The queries are at most two for each lookup that is counted.
abbrev pub IsPaid : ℕ → Walker → Type 0
IsPaid n w = w.queries + n ≤ 2 * w.ev.lookups

abbrev pub total : List TermCost → ℕ
total [] = 0
total (c ∷ cs) = c.lookups + total cs

pub add_void-IsTidy : (term : Bytes) (w : Walker) → IsTidy w → IsTidy (add_void term w)
unfolding add_void
add_void-IsTidy term w h = record {
  voids_listed = omega (arith, length-append w.ev.voids (term ∷ []), h.voids_listed);
  problems_differ = h.problems_differ;
}

any-none :
    (at msg : Bytes) (ps : List Problem)
    → any (λ (p : Problem). p.at == at && p.msg == msg) ps ≡ false
    → All (λ p. Differ p (record { at = at; msg = msg })) ps
any-none at msg [] h = tt
any-none at msg (p ∷ ps) h = (
  (λ (e, f). ground (arith, h, ==_iff p.at at, ==_iff p.msg msg, e, f)),
  any-none at msg ps (ground (arith, h)),
)

pub add_problem-IsTidy : (at msg : Bytes) (w : Walker) → IsTidy w → IsTidy (add_problem at msg w)
unfolding add_problem
add_problem-IsTidy at msg w h =
    elim (Bool-cases (any (λ (p : Problem). p.at == at && p.msg == msg) w.ev.problems)) [
      | inl old ↦ rw old h
      | inr new ↦ rw new (record {
        voids_listed = h.voids_listed;
        problems_differ =
            Pairs-append Differ w.ev.problems (record { at = at; msg = msg } ∷ []) h.problems_differ
              (tt, tt)
              (All-imp _ (λ p. All (Differ p) (record { at = at; msg = msg } ∷ [])) (λ p d. (d, tt))
                w.ev.problems (any-none at msg w.ev.problems new));
      })
    ]

-- What a problem leaves alone.
pub add_problem_lem :
    (at msg : Bytes) (w : Walker)
    → ((add_problem at msg w).ev.lookups ≡ w.ev.lookups)
      × ((add_problem at msg w).ev.cost ≡ w.ev.cost)
      × ((add_problem at msg w).queries ≡ w.queries)
unfolding add_problem
add_problem_lem at msg w = (ground arith, ground arith, ground arith)

pub total-append : (cs ds : List TermCost) → total (cs ++ ds) ≡ total cs + total ds
total-append [] ds = omega arith
total-append (c ∷ cs) ds = omega (arith, total-append cs ds)

pub total-update_last :
    (f : TermCost → TermCost) (cs : List TermCost) (c : TermCost)
    → total (update_last f (cs ++ (c ∷ []))) ≡ total cs + (f c).lookups
unfolding update_last
total-update_last f [] c = omega arith
total-update_last f (d ∷ []) c = omega arith
total-update_last f (d ∷ e ∷ cs) c = omega (arith, total-update_last f (e ∷ cs) c)

-- What a step does to the costs: at the root the costs stay the number of lookups, and elsewhere they
-- are left alone.
abbrev pub CostKept : Bool → Walker → Walker → Type 0
CostKept true w w' = total w.ev.cost ≡ w.ev.lookups → total w'.ev.cost ≡ w'.ev.lookups
CostKept false w w' = w'.ev.cost ≡ w.ev.cost

-- A walk from a walker with at most `bound` lookups, in `n` more of them.
pub record Steps (root : Bool) (bound n : ℕ) (w w' : Walker) : Type 0 where
  pub at_most : w'.ev.lookups ≤ bound + n
  pub grows : w.ev.lookups ≤ w'.ev.lookups
  pub costs : CostKept root w w'
  pub tidy : IsTidy w'
  pub paid : IsPaid 0 w'

pub CostKept-same :
    (root : Bool) (w w' : Walker)
    → w'.ev.lookups ≡ w.ev.lookups
    → w'.ev.cost ≡ w.ev.cost
    → CostKept root w w'
CostKept-same true w w' l c = λ h. ap total c ∙ h ∙ sym l
CostKept-same false w w' l c = c

-- A step that counts nothing.
pub Steps-same :
    (root : Bool) (bound n : ℕ) (w w' : Walker)
    → (w'.ev.lookups ≡ w.ev.lookups) × (w'.ev.cost ≡ w.ev.cost) × (w'.queries ≡ w.queries)
    → IsTidy w'
    → w.ev.lookups ≤ bound
    → IsPaid 0 w
    → Steps root bound n w w'
Steps-same root bound n w w' same tidy le paid = record {
  at_most = omega (arith, same.0, le);
  grows = omega (arith, same.0);
  costs = CostKept-same root w w' same.0 same.1;
  tidy = tidy;
  paid = omega (arith, same.0, same.2, paid);
}

pub CostKept-rebase :
    (root : Bool) (v w w' : Walker)
    → v.ev.lookups ≡ w.ev.lookups
    → v.ev.cost ≡ w.ev.cost
    → CostKept root v w'
    → CostKept root w w'
CostKept-rebase true v w w' l c k = λ h. k (ap total c ∙ h ∙ sym l)
CostKept-rebase false v w w' l c k = k ∙ c

-- What begins at a walker that counts as another does.
pub Steps-rebase :
    (root : Bool) (bound n : ℕ) (v w w' : Walker)
    → v.ev.lookups ≡ w.ev.lookups
    → v.ev.cost ≡ w.ev.cost
    → Steps root bound n v w'
    → Steps root bound n w w'
Steps-rebase root bound n v w w' l c s = record {
  at_most = s.at_most;
  grows = omega (arith, l, s.grows);
  costs = CostKept-rebase root v w w' l c s.costs;
  tidy = s.tidy;
  paid = s.paid;
}
