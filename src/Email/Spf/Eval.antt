-- ===== src/Email/Spf/Eval.antt =====
-- checks/email/internal/spf/eval.go: the state of an evaluation; the walk is in Eval/Walk. `depth` is the number of levels that are left of `maxDepth`, on
-- which the walk recurs. `prefetch` fills a cache and has no other effect; it is left out. The text of
-- a parse error is a parameter.
pub mod Walk
pub mod Invariant
pub mod Follow
pub mod Charge
pub mod Loop
pub mod Redirect
pub mod Bounds
use seta.Prelude.{
  ℕ, zero, suc, ◌+◌, ◌-◌, ◌*◌, Bool, true, false, not, ◌&&◌, ◌||◌, List, [], ◌∷◌, ◌++◌, Option,
  none, some, if◌then◌else◌, leb, ltb, ◌=?◌, ◌==◌, length, Bytes, codes, trim_suffix, is_empty, any,
  keep, Result, ok, err, ◌>>=◌,
}
use seta.Core.Severity.{decimal}
use seta.Core.Target.{Unicode, to_lower}
use seta.Dns.{
  Response, Resolver, type_a, type_mx, type_txt, type_aaaa, records, mx_in, txt_in, canonical_name,
}
use seta.Email.Spf.Macro.{has_macro}
use seta.Email.Spf.{
  Addresses, Mechanism, Record, SpfError, show_mechanism, counts_lookup, all_of, is_spf, pass,
}
use seta.Email.Spf.Parse.{parse_spf}

abbrev pub max_lookups : ℕ
max_lookups = 10

abbrev pub max_mx_names : ℕ
max_mx_names = 10

abbrev pub max_depth : ℕ
max_depth = 10

abbrev pub max_queries : ℕ
max_queries = 100

-- What is not of this repository.
pub record World : Type 0 where
  pub unicode : Unicode
  pub net : Addresses
  pub fqdn : Bytes → Bytes
  pub describe : SpfError → Bytes
  pub resolver : Resolver

pub record Problem : Type 0 where
  pub at : Bytes
  pub msg : Bytes

pub record TermCost : Type 0 where
  pub term : Bytes
  pub lookups : ℕ

pub record Evaluation : Type 0 where
  pub lookups : ℕ
  pub void_lookups : ℕ
  pub cost : List TermCost
  pub voids : List Bytes
  pub problems : List Problem
  pub permissive_includes : List Bytes
  -- `none` where `HasEffective` is false
  pub effective : Option Mechanism
  pub unexpanded : List Bytes
  pub incomplete : Bool

-- `walker`, without the resolver and the stack
pub record Walker : Type 0 where
  pub ev : Evaluation
  pub queries : ℕ

-- The walker with which `Evaluate` begins.
abbrev pub fresh : Walker
fresh = record {
  ev = record {
    lookups = 0;
    void_lookups = 0;
    cost = [];
    voids = [];
    problems = [];
    permissive_includes = [];
    effective = none;
    unexpanded = [];
    incomplete = false;
  };
  queries = 0;
}

-- `walk` at the levels that are left: domain, record, where, top, the stack, the walker.
abbrev pub Walk : Type 0
Walk = Bytes → Record → Bytes → Bool → List Bytes → Walker → Result Bytes Walker

unfoldable pub add_void : Bytes → Walker → Walker
add_void term w = record w {
  ev = record w.ev { void_lookups = w.ev.void_lookups + 1; voids = w.ev.voids ++ (term ∷ []) };
}

unfoldable pub add_problem : Bytes → Bytes → Walker → Walker
add_problem at msg w =
    if any (λ (p : Problem). p.at == at && p.msg == msg) w.ev.problems then w else record w {
      ev = record w.ev { problems = w.ev.problems ++ (record { at = at; msg = msg } ∷ []) };
    }

unfoldable pub add_unexpanded : Bytes → Walker → Walker
add_unexpanded term w = record w {
  ev = record w.ev { unexpanded = w.ev.unexpanded ++ (term ∷ []) };
}

unfoldable pub add_permissive : Bytes → Walker → Walker
add_permissive via w = record w {
  ev = record w.ev { permissive_includes = w.ev.permissive_includes ++ (via ∷ []) };
}

unfoldable pub set_incomplete : Walker → Walker
set_incomplete w = record w { ev = record w.ev { incomplete = true } }

unfoldable pub set_effective : Mechanism → Walker → Walker
set_effective m w = record w { ev = record w.ev { effective = some m } }

-- `w.ev.Lookups++`
unfoldable pub count_lookup : Walker → Walker
count_lookup w = record w { ev = record w.ev { lookups = w.ev.lookups + 1 } }

-- `w.queries++`
unfoldable pub count_queries : ℕ → Walker → Walker
count_queries n w = record w { queries = w.queries + n }

unfoldable pub push_cost : Bytes → ℕ → Walker → Walker
push_cost term n w = record w {
  ev = record w.ev { cost = w.ev.cost ++ (record { term = term; lookups = n } ∷ []) };
}

-- The last element, where there is one.
unfoldable pub update_last {ℓ} : {A : Type ℓ} → (A → A) → List A → List A
update_last f [] = []
update_last f (c ∷ []) = f c ∷ []
update_last f (c ∷ d ∷ cs) = c ∷ update_last f (d ∷ cs)

-- `Cost[len(Cost)-1].Lookups = n`, and `+= n`
unfoldable pub set_last : ℕ → Walker → Walker
set_last n w = record w {
  ev = record w.ev { cost = update_last (λ (c : TermCost). record c { lookups = n }) w.ev.cost };
}

unfoldable pub add_last : ℕ → Walker → Walker
add_last n w = record w {
  ev = record w.ev {
    cost = update_last (λ (c : TermCost). record c { lookups = c.lookups + n }) w.ev.cost;
  };
}

-- The test of `stop`.
unfoldable pub must_stop : Walker → Bool
must_stop w = leb max_queries w.queries || ltb (5 * max_lookups) w.ev.lookups
