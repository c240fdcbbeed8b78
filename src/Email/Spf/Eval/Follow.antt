-- ===== src/Email/Spf/Eval/Follow.antt =====
-- `follow` of checks/email/internal/spf/eval.go, and what each step of an evaluation adds.
use seta.Prelude.{
  ℕ, ◌≤◌, ◌≡◌, refl, subst, Bool, true, false, not, ◌&&◌, List, [], ◌∷◌, Option, none, some, arith,
  if◌then◌else◌, ◌==◌, Bytes, is_empty, any, ok, Yields, Yields-bind, Yields-if, Yields-result,
  Yields-imp, Yields-any,
}
use seta.Dns.{canonical_name}
use seta.Email.Spf.{Record}
use seta.Email.Spf.Parse.{parse_spf}
use seta.Email.Spf.Eval.{
  World, Walker, Walk, add_void, add_problem, add_permissive, set_incomplete, count_queries,
}
use seta.Email.Spf.Eval.Walk.{is_root, passes_all, fetch, descend, looping, deeper, follow}
use seta.Email.Spf.Eval.Invariant.{
  IsTidy, IsPaid, Steps, Steps-same, Steps-rebase, add_void-IsTidy, add_problem-IsTidy,
  add_problem_lem,
}

-- A walk adds at most `n` lookups to a bound of at least 50.
abbrev pub IsBounded : Walk → ℕ → Type 0
IsBounded walk n =
    (domain : Bytes) (rec : Record) (at : Bytes) (top : Bool) (stack : List Bytes) (w : Walker)
    (bound : ℕ)
    → 50 ≤ bound
    → w.ev.lookups ≤ bound
    → IsTidy w
    → IsPaid 0 w
    → Yields (Steps (is_root top at) bound n w) (walk domain rec at top stack w)

abbrev pub IsInner : Option Walk → ℕ → Type 0
IsInner none n = Unit
IsInner (some walk) n = IsBounded walk n

not_root : (top : Bool) (at : Bytes) → is_empty at ≡ false → is_root top at ≡ false
not_root top at h = ground (arith, h)

entered :
    (p : Bool) (via : Bytes) (w : Walker)
    → IsTidy w
    → let w' = if p then add_permissive via w else w in
      ((w'.ev.lookups ≡ w.ev.lookups) × (w'.ev.cost ≡ w.ev.cost) × (w'.queries ≡ w.queries))
      × IsTidy w'
unfolding add_permissive
entered true via w h = (
  (refl, refl, refl),
  record { voids_listed = h.voids_listed; problems_differ = h.problems_differ },
)
entered false via w h = ((refl, refl, refl), h)

module _ (x : World) (n : ℕ) where
  descend-Yields :
      (walk : Walk) (target via : Bytes) (top : Bool) (stack : List Bytes)
      (fetched : List Bytes × Bool) (w : Walker) (bound : ℕ)
      → IsBounded walk n
      → is_empty via ≡ false
      → 50 ≤ bound
      → w.ev.lookups ≤ bound
      → IsTidy w
      → IsPaid 0 w
      → Yields (Steps false bound n w) (descend x walk target via top stack fetched w)
  unfolding descend add_void add_permissive
  descend-Yields walk target via top stack ([], true) w bound b v big le tidy paid =
      Steps-same false bound n w _ (add_problem_lem via _ (add_void via w))
        (add_problem-IsTidy via _ _ (add_void-IsTidy via w tidy)) le paid
  descend-Yields walk target via top stack ([], false) w bound b v big le tidy paid =
      Steps-same false bound n w _ (add_problem_lem via _ w) (add_problem-IsTidy via _ _ tidy) le
        paid
  descend-Yields walk target via top stack (r ∷ s ∷ rest, void) w bound b v big le tidy paid =
      Steps-same false bound n w _ (add_problem_lem via _ w) (add_problem-IsTidy via _ _ tidy) le
        paid
  descend-Yields walk target via top stack (r ∷ [], void) w bound b v big le tidy paid =
      Yields-result (Steps false bound n w) (parse_spf x.unicode x.net r) _ _
        (λ sub _.
          let (same, kept) = entered (not top && passes_all sub) via w tidy in
          let within_it = if not top && passes_all sub then add_permissive via w else w in
          let inside = canonical_name x.unicode x.fqdn target ∷ stack in
          Yields-imp (Steps (is_root top via) bound n within_it) (Steps false bound n w)
            (walk target sub via top inside within_it)
            (b target sub via top inside within_it bound big (omega (arith, same.0, le)) kept
              (omega (arith, same.0, same.2, paid)))
            λ w' steps.
              Steps-rebase false bound n within_it w w' same.0 same.1
                (subst (λ root. Steps root bound n within_it w') (not_root top via v) steps))
        (λ e.
          Steps-same false bound n w _ (add_problem_lem via _ w) (add_problem-IsTidy via _ _ tidy)
            le paid)

  deeper-Yields :
      (inner : Option Walk) (target via : Bytes) (top : Bool) (stack : List Bytes) (w : Walker)
      (bound : ℕ)
      → IsInner inner n
      → is_empty via ≡ false
      → 50 ≤ bound
      → w.ev.lookups ≤ bound
      → IsTidy w
      → IsPaid 1 w
      → Yields (Steps false bound n w) (deeper x inner target via top stack w)
  unfolding deeper set_incomplete count_queries
  deeper-Yields none target via top stack w bound b v big le tidy paid =
      Steps-same false bound n w _ (refl, refl, refl)
        (record { voids_listed = tidy.voids_listed; problems_differ = tidy.problems_differ }) le
        (omega (arith, paid))
  deeper-Yields (some walk) target via top stack w bound b v big le tidy paid =
      Yields-bind (λ (_ : List Bytes × Bool). Unit {0}) (Steps false bound n w) (fetch x target)
        (λ fetched. descend x walk target via top stack fetched (count_queries 1 w))
        (Yields-any (fetch x target))
        λ fetched _.
          Yields-imp (Steps false bound n (count_queries 1 w)) (Steps false bound n w)
            (descend x walk target via top stack fetched (count_queries 1 w))
            (descend-Yields walk target via top stack fetched (count_queries 1 w) bound b v big le
              (record { voids_listed = tidy.voids_listed; problems_differ = tidy.problems_differ })
              (omega (arith, paid)))
            λ w' steps. Steps-rebase false bound n (count_queries 1 w) w w' refl refl steps

  pub follow-Yields :
      (inner : Option Walk) (target via : Bytes) (top : Bool) (stack : List Bytes) (w : Walker)
      (bound : ℕ)
      → IsInner inner n
      → is_empty via ≡ false
      → 50 ≤ bound
      → w.ev.lookups ≤ bound
      → IsTidy w
      → IsPaid 1 w
      → Yields (Steps false bound n w) (follow x inner target via top stack w)
  unfolding follow
  follow-Yields inner target via top stack w bound b v big le tidy paid =
      Yields-if (Steps false bound n w)
        (any (λ (s : Bytes). s == canonical_name x.unicode x.fqdn target) stack)
        (ok (add_problem via (looping via) w)) (deeper x inner target via top stack w)
        (λ _.
          Steps-same false bound n w (add_problem via (looping via) w)
            (add_problem_lem via (looping via) w) (add_problem-IsTidy via (looping via) w tidy) le
            (omega (arith, paid)))
        (λ _. deeper-Yields inner target via top stack w bound b v big le tidy paid)
