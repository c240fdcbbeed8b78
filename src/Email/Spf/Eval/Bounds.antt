-- ===== src/Email/Spf/Eval/Bounds.antt =====
-- The result of `Evaluate` of checks/email/internal/spf/eval.go.
use seta.Prelude.{
  ◌≤◌, ◌≡◌, refl, true, [], ◌∷◌, arith, length, Bytes, is_empty, ok, Pairs, Yields, Yields-bind,
  Yields-ok,
}
use seta.Dns.{canonical_name}
use seta.Email.Spf.{Record}
use seta.Email.Spf.Eval.{World, Evaluation, max_depth, fresh}
use seta.Email.Spf.Eval.Walk.{walk, evaluate}
use seta.Email.Spf.Eval.Invariant.{Differ, Steps, total}
use seta.Email.Spf.Eval.Redirect.{walk-IsBounded}

-- What holds of the result: the lookups are bounded, charged to terms, the voids are listed, and no problem is
-- listed twice.
record IsSound (ev : Evaluation) : Type 0 where
  at_most : ev.lookups ≤ 61
  charged : total ev.cost ≡ ev.lookups
  voids_listed : length ev.voids ≡ ev.void_lookups
  problems_differ : Pairs Differ ev.problems

evaluate-IsSound :
    (x : World) (domain : Bytes) (rec : Record) → Yields IsSound (evaluate x domain rec)
unfolding evaluate is_empty
evaluate-IsSound x domain rec =
    Yields-bind (Steps true 50 11 fresh) IsSound
      (walk x max_depth domain rec [] true (canonical_name x.unicode x.fqdn domain ∷ []) fresh) _
      (walk-IsBounded x 10 domain rec [] true (canonical_name x.unicode x.fqdn domain ∷ []) fresh 50
        (omega arith) (omega arith) (record { voids_listed = refl; problems_differ = tt })
        (omega arith))
      λ w s. record {
        at_most = s.at_most;
        charged = s.costs refl;
        voids_listed = s.tidy.voids_listed;
        problems_differ = s.tidy.problems_differ;
      }

sound :
    (x : World) (domain : Bytes) (rec : Record) (ev : Evaluation)
    → evaluate x domain rec ≡ ok ev
    → IsSound ev
sound x domain rec ev e =
    Yields-ok IsSound (evaluate x domain rec) ev (evaluate-IsSound x domain rec) e

-- However the records in the DNS include and redirect each other, an evaluation that succeeds has counted
-- at most 61 lookups: the 50 up to which it goes on, and one more at each of the eleven levels.
pub lookups-evaluate :
    (x : World) (domain : Bytes) (rec : Record) (ev : Evaluation)
    → evaluate x domain rec ≡ ok ev
    → ev.lookups ≤ 61
lookups-evaluate x domain rec ev e = (sound x domain rec ev e).at_most

-- The costs of the terms of the record at the root, each with the lookups of all that it includes or
-- redirects to, add up to the lookups of the whole evaluation, if it succeeds.
pub total-evaluate :
    (x : World) (domain : Bytes) (rec : Record) (ev : Evaluation)
    → evaluate x domain rec ≡ ok ev
    → total ev.cost ≡ ev.lookups
total-evaluate x domain rec ev e = (sound x domain rec ev e).charged

-- In an evaluation that succeeds the void lookups are as many as the terms listed for them, and no
-- problem stands twice in the list of the problems.
pub voids-evaluate :
    (x : World) (domain : Bytes) (rec : Record) (ev : Evaluation)
    → evaluate x domain rec ≡ ok ev
    → (length ev.voids ≡ ev.void_lookups) × Pairs Differ ev.problems
voids-evaluate x domain rec ev e =
    ((sound x domain rec ev e).voids_listed, (sound x domain rec ev e).problems_differ)
