-- ===== src/Email/Spf/Eval/Walk.antt =====
-- `walk`, `mechanism` and `follow` of checks/email/internal/spf/eval.go. The stack is an argument:
-- `follow` puts a name on it that was not there, and takes it off again.
use seta.Prelude.{
  ℕ, zero, suc, ◌-◌, Bool, true, false, not, ◌&&◌, ◌||◌, List, [], ◌∷◌, ◌++◌, Option, none, some,
  if◌then◌else◌, ltb, ◌=?◌, ◌==◌, length, Bytes, codes, trim_suffix, is_empty, any, keep, Result,
  ok, err, ◌>>=◌,
}
use seta.Core.Severity.{decimal}
use seta.Core.Target.{to_lower}
use seta.Dns.{type_a, type_mx, type_txt, type_aaaa, records, mx_in, txt_in, canonical_name}
use seta.Email.Spf.Macro.{has_macro}
use seta.Email.Spf.{Mechanism, Record, show_mechanism, counts_lookup, all_of, is_spf, pass}
use seta.Email.Spf.Parse.{parse_spf}
use seta.Email.Spf.Eval.{
  World, Evaluation, Walker, Walk, max_depth, max_mx_names, add_void, add_problem, add_unexpanded,
  add_permissive, set_incomplete, set_effective, count_lookup, count_queries, push_cost, set_last,
  add_last, must_stop, fresh,
}

-- `strings.TrimSuffix(strings.ToLower(name), ".")`
unfoldable pub target_of : World → Bytes → Bytes
target_of x name = trim_suffix (codes ".") (to_lower x.unicode name)

-- `Fetch`: the records that are SPF, and whether there is no TXT record at all
unfoldable pub fetch : World → Bytes → Result Bytes (List Bytes × Bool)
fetch x domain = do
  resp ← x.resolver domain type_txt
  ok (keep is_spf (txt_in resp.answer), elim (txt_in resp.answer) [ [] ↦ true | _ ∷ _ ↦ false ])

-- Where `top` and `where == ""` hold, costs are kept.
abbrev pub is_root : Bool → Bytes → Bool
is_root top at = top && is_empty at

-- Whether the record ends in `+all`.
unfoldable pub passes_all : Record → Bool
passes_all rec = elim (all_of rec.mechanisms) [ none ↦ false | some a ↦ a.qualifier =? pass ]

-- `len(…) == 0`
unfoldable pub is_nil {ℓ} : {A : Type ℓ} → List A → Bool
is_nil [] = true
is_nil (_ ∷ _) = false

abbrev pub looping : Bytes → Bytes
looping via = via ++ codes " loops back to a record already being evaluated (permerror)"

module _ (x : World) where
  -- What `follow` does with the records that it fetched.
  unfoldable pub descend :
      Walk → Bytes → Bytes → Bool → List Bytes → List Bytes × Bool → Walker → Result Bytes Walker
  descend walk target via top stack ([], void) w = ok (
      add_problem via
        (target ++ codes " has no SPF record, so every evaluation through it ends in permerror")
        (if void then add_void via w else w))
  descend walk target via top stack (r ∷ s ∷ rest, void) w = ok (
      add_problem via
        (target
          ++ (codes " publishes "
              ++ (decimal (length (r ∷ s ∷ rest)) ++ codes " SPF records (permerror)")))
        w)
  descend walk target via top stack (r ∷ [], void) w = elim (parse_spf x.unicode x.net r) [
    | err e ↦ ok (
        add_problem via
          (codes "SPF record at " ++ (target ++ (codes " is invalid: " ++ x.describe e))) w)
    | ok sub ↦
        walk target sub via top (canonical_name x.unicode x.fqdn target ∷ stack)
          (if not top && passes_all sub then add_permissive via w else w)
  ]

  -- What `follow` does with a name that is not on the stack; `inner` is the walk with one level less, if a
  -- level is left.
  unfoldable pub deeper :
      Option Walk → Bytes → Bytes → Bool → List Bytes → Walker → Result Bytes Walker
  deeper none target via top stack w = ok (set_incomplete w)
  deeper (some walk) target via top stack w = do
    fetched ← fetch x target
    descend walk target via top stack fetched (count_queries 1 w)

  -- `follow`
  unfoldable pub follow :
      Option Walk → Bytes → Bytes → Bool → List Bytes → Walker → Result Bytes Walker
  follow inner target via top stack w =
      if any (λ (s : Bytes). s == canonical_name x.unicode x.fqdn target) stack
      then ok (add_problem via (looping via) w)
      else deeper inner target via top stack w

  -- The case of `a` and `exists`; `exists` only asks for A.
  unfoldable pub address_lookups : Mechanism → Bytes → Walker → Result Bytes Walker
  address_lookups m target w = do
    one ← x.resolver target type_a
    let four = records one
    if m.kind == codes "exists"
        then ok (
            if is_nil four
            then add_void (show_mechanism x.net m) (count_queries 1 w)
            else count_queries 1 w)
        else do
          two ← x.resolver target type_aaaa
          ok (
              if is_nil four && is_nil (records two)
              then add_void (show_mechanism x.net m) (count_queries 2 w)
              else count_queries 2 w)

  -- The case of `mx`.
  unfoldable pub mx_lookup : Mechanism → Bytes → Bytes → Walker → Result Bytes Walker
  mx_lookup m target at w = do
    resp ← x.resolver target type_mx
    let n = length (mx_in resp.answer)
    let asked = count_queries 1 w
    let voided = if n =? 0 then add_void (show_mechanism x.net m) asked else asked
    ok (
        if ltb max_mx_names n
        then add_problem at
            (show_mechanism x.net m
              ++ (codes ": "
                  ++ (target
                      ++ (codes " has "
                          ++ (decimal n
                              ++ codes " MX records; SPF allows at most 10 (permerror)")))))
            voided
        else voided)

  -- The `switch` of `mechanism`.
  unfoldable pub dispatch :
      Option Walk → Mechanism → Bytes → Bytes → List Bytes → Walker → Result Bytes Walker
  dispatch inner m target at stack w =
      if m.kind == codes "include"
      then follow inner target (codes "include:" ++ target) false stack w
      else if m.kind == codes "a" || m.kind == codes "exists"
      then address_lookups m target w
      else if m.kind == codes "mx"
      then mx_lookup m target at w
      else ok w

  -- `mechanism`
  unfoldable pub mechanism :
      Option Walk → Bytes → Mechanism → Bytes → List Bytes → Walker → Result Bytes Walker
  mechanism inner domain m at stack w =
      let counted = count_lookup w in
      if is_empty m.domain
      then dispatch inner m domain at stack counted
      else if has_macro m.domain
      then ok (add_unexpanded (show_mechanism x.net m) counted)
      else dispatch inner m (target_of x m.domain) at stack counted

  -- A mechanism that counts in the loop of `walk`, and its cost at the root.
  unfoldable pub charged :
      Option Walk → Bytes → Bytes → Bool → List Bytes → Mechanism → Walker → Result Bytes Walker
  charged inner domain at top stack m w = do
    let begun = if is_root top at then push_cost (show_mechanism x.net m) 0 w else w
    done ← mechanism inner domain m at stack begun
    ok (if is_root top at then set_last (done.ev.lookups - begun.ev.lookups) done else done)

  -- The loop of `walk` over the mechanisms, and whether it stopped the walk.
  unfoldable pub mechanisms_loop :
      Option Walk
      → Bytes
      → Bytes
      → Bool
      → List Bytes
      → List Mechanism
      → Walker
      → Result Bytes (Walker × Bool)
  mechanisms_loop inner domain at top stack [] w = ok (w, false)
  mechanisms_loop inner domain at top stack (m ∷ ms) w = elim (counts_lookup m) [
    | false ↦ mechanisms_loop inner domain at top stack ms w
    | true ↦ do
      done ← charged inner domain at top stack m w
      elim (must_stop done) [
        | true ↦ ok (set_incomplete done, true)
        | false ↦ mechanisms_loop inner domain at top stack ms done
      ]
  ]

  -- The redirect at the end of `walk`.
  unfoldable pub redirect_step :
      Option Walk → Record → Bytes → Bool → List Bytes → Walker → Result Bytes Walker
  redirect_step inner rec at top stack w =
      let term = codes "redirect=" ++ rec.redirect in
      let counted = count_lookup w in
      let begun = if is_root top at then push_cost term 1 counted else counted in
      if has_macro rec.redirect then ok (add_unexpanded term begun) else do
        done ←
            follow inner (target_of x rec.redirect) (codes "redirect:" ++ target_of x rec.redirect)
              top stack begun
        ok (if is_root top at then add_last (done.ev.lookups - begun.ev.lookups) done else done)

  -- What `walk` does behind the loop.
  unfoldable pub finish :
      Option Walk → Record → Bytes → Bool → List Bytes → Walker → Result Bytes Walker
  finish inner rec at top stack w = elim (all_of rec.mechanisms) [
    | some a ↦ ok (if top then set_effective a w else w)
    | none ↦ if is_empty rec.redirect then ok w else redirect_step inner rec at top stack w
  ]

  -- `walk`, by the walk with one level less
  unfoldable pub walk_with : Option Walk → Walk
  walk_with inner domain rec at top stack w = do
    looped ← mechanisms_loop inner domain at top stack rec.mechanisms w
    if looped.1 then ok looped.0 else finish inner rec at top stack looped.0

  -- `walk` with `depth` levels left
  unfoldable pub walk : ℕ → Walk
  walk zero = walk_with none
  walk (suc depth) = walk_with (some (walk depth))

  -- `Evaluate`
  unfoldable pub evaluate : Bytes → Record → Result Bytes Evaluation
  evaluate domain rec = do
    w ← walk max_depth domain rec [] true (canonical_name x.unicode x.fqdn domain ∷ []) fresh
    ok w.ev
