-- ===== src/Email/Dmarc/Records.antt =====
-- The records of `Parse` of checks/email/internal/dmarc/dmarc.go.
use seta.Prelude.{
  ℕ, ◌≤◌, ◌≡◌, ◌≢◌, refl, ap, ◌∙◌, Bool, true, false, not, List, [], ◌∷◌, Option, none, some, arith,
  ◌==◌, Bytes, codes, trim_space, split_on, all, parse_uint, Result, ok, err, ◌>>=◌, ◌>>◌, check,
  Yields, Yields-bind, Yields-check, Yields-if, Yields-ok, Yields-option, Yields-any,
}
use Prim.Native.Nat.{◌^◌}
use seta.Core.Target.{Unicode}
use seta.Email.Tags.{Tag, TagError, parse_tags}
use seta.Email.Dmarc.{
  Policy, no_action, Uri, Record, DmarcError, is_dmarc, ParseAddress, is_alignment, is_fo,
  parse_pct, is_absent, parse_policy, parse_uris, set_policy, set_tag, set_tags, default_policy,
  blank, parse_dmarc, bad_alignment, bad_fo, bad_ri, bad_tags, out_of_range, missing_policy,
}

parse_pct-le : (v : Bytes) (n : ℕ) → parse_pct v ≡ some n → n ≤ 100
unfolding parse_pct
parse_pct-le v n h = ground (arith, h)

-- What the loop keeps.
record IsInBounds (r : Record) : Type 0 where
  pct : r.pct ≤ 100
  adkim : is_alignment r.adkim ≡ true
  aspf : is_alignment r.aspf ≡ true
  explicit : r.implicit_p ≡ false

-- What holds of the result.
pub record IsValidRecord (r : Record) : Type 0 where
  pub pct : r.pct ≤ 100
  pub adkim : is_alignment r.adkim ≡ true
  pub aspf : is_alignment r.aspf ≡ true
  pub policy : r.p ≢ none
  pub implied : r.implicit_p ≡ true → (r.p ≡ some no_action) × (r.rua ≢ [])

module _ (u : Unicode) (mail : ParseAddress) where
  set_policy-Yields :
      (v : Bytes) (next : Policy → Record)
      → ((p : Policy) → IsInBounds (next p))
      → Yields IsInBounds (set_policy u mail v next)
  unfolding set_policy
  set_policy-Yields v next h = Yields-option IsInBounds (parse_policy u mail v) _ _ tt λ p _. h p

  guarded :
      (b : Bool) (e : DmarcError) (r : Record)
      → (b ≡ true → IsInBounds r)
      → Yields IsInBounds (check b e >> ok r)
  guarded b e r h =
      Yields-bind (λ (_ : Unit {0}). b ≡ true) IsInBounds (check b e) _
        (Yields-check (λ (_ : Unit {0}). b ≡ true) b e (λ t. t)) λ _ t. h t

  set_uris :
      (v : Bytes) (next : List Uri → Record)
      → ((us : List Uri) → IsInBounds (next us))
      → Yields IsInBounds (parse_uris u mail (split_on b',' v) >>= λ uris. ok (next uris))
  set_uris v next h =
      Yields-bind (λ (_ : List Uri). Unit {0}) IsInBounds (parse_uris u mail (split_on b',' v)) _
        (Yields-any (parse_uris u mail (split_on b',' v))) λ us _. h us

  set_tag-Yields :
      (name v : Bytes) (r : Record) → IsInBounds r → Yields IsInBounds (set_tag u mail name v r)
  unfolding set_tag
  set_tag-Yields name v r h =
      Yields-if IsInBounds (name == codes "p") _ _
        (λ _.
          set_policy-Yields v (λ p. record r { p = some p }) (λ _. again r h _ refl refl refl refl))
        λ _.
          Yields-if IsInBounds (name == codes "sp") _ _
            (λ _.
              set_policy-Yields v (λ p. record r { sp = some p })
                (λ _. again r h _ refl refl refl refl))
            λ _.
              Yields-if IsInBounds (name == codes "pct") _ _
                (λ _. Yields-option IsInBounds (parse_pct v) _ _ tt λ n read. record {
                  pct = parse_pct-le v n read;
                  adkim = h.adkim;
                  aspf = h.aspf;
                  explicit = h.explicit;
                })
                λ _.
                  Yields-if IsInBounds (name == codes "rua") _ _
                    (λ _.
                      set_uris v (λ us. record r { rua = us })
                        (λ _. again r h _ refl refl refl refl))
                    λ _.
                      Yields-if IsInBounds (name == codes "ruf") _ _
                        (λ _.
                          set_uris v (λ us. record r { ruf = us })
                            (λ _. again r h _ refl refl refl refl))
                        λ _.
                          Yields-if IsInBounds (name == codes "adkim") _ _
                            (λ _.
                              guarded (is_alignment v) (bad_alignment v) (record r { adkim = v })
                                (λ t. record {
                                  pct = h.pct;
                                  adkim = t;
                                  aspf = h.aspf;
                                  explicit = h.explicit;
                                }))
                            λ _.
                              Yields-if IsInBounds (name == codes "aspf") _ _
                                (λ _.
                                  guarded (is_alignment v) (bad_alignment v) (record r { aspf = v })
                                    (λ t. record {
                                      pct = h.pct;
                                      adkim = h.adkim;
                                      aspf = t;
                                      explicit = h.explicit;
                                    }))
                                λ _.
                                  Yields-if IsInBounds (name == codes "fo") _ _
                                    (λ _.
                                      guarded (all (λ o. is_fo (trim_space o)) (split_on b':' v))
                                        (bad_fo v) r (λ _. h))
                                    λ _.
                                      Yields-if IsInBounds (name == codes "ri") _ _
                                        (λ _.
                                          guarded (not (is_absent (parse_uint (2 ^ 32) v)))
                                            (bad_ri v) r (λ _. h))
                                        λ _.
                                          Yields-if IsInBounds (name == codes "v") _ _ (λ _. tt)
                                            (λ _. h)
    where
      again :
          (q : Record)
          → IsInBounds q
          → (s : Record) → s.pct ≡ q.pct
          → s.adkim ≡ q.adkim
          → s.aspf ≡ q.aspf
          → s.implicit_p ≡ q.implicit_p
          → IsInBounds s
      again q k s a b c d = record {
        pct = omega (arith, a, k.pct);
        adkim = ap is_alignment b ∙ k.adkim;
        aspf = ap is_alignment c ∙ k.aspf;
        explicit = d ∙ k.explicit;
      }

  set_tags-Yields :
      (ts : List Tag) (r : Record) → IsInBounds r → Yields IsInBounds (set_tags u mail ts r)
  unfolding set_tags
  set_tags-Yields [] r h = h
  set_tags-Yields (t ∷ ts) r h =
      Yields-bind IsInBounds IsInBounds (set_tag u mail t.name t.value r) _
        (set_tag-Yields t.name t.value r h) λ r' h'. set_tags-Yields ts r' h'

  default_policy-Yields :
      (r : Record) → IsInBounds r → Yields IsValidRecord (default_policy u mail r)
  unfolding default_policy
  default_policy-Yields r h = policies r.p refl
    where
      policies :
          (o : Option Policy)
          → r.p ≡ o
          → Yields IsValidRecord (elim o [
            | some _ ↦ ok r
            | none ↦ elim r.rua [
              | [] ↦ err missing_policy
              | _ ∷ _ ↦ ok (record r { p = some no_action; implicit_p = true })
            ]
          ])
      policies (some p) e = record {
        pct = h.pct;
        adkim = h.adkim;
        aspf = h.aspf;
        policy = λ t. absurd (cc (e, t));
        implied = λ t. absurd (cc (h.explicit, t));
      }
      policies none e = addresses r.rua refl
        where
          addresses :
              (us : List Uri)
              → r.rua ≡ us
              → Yields IsValidRecord (elim us [
                | [] ↦ err missing_policy
                | _ ∷ _ ↦ ok (record r { p = some no_action; implicit_p = true })
              ])
          addresses [] f = tt
          addresses (a ∷ us) f = record {
            pct = h.pct;
            adkim = h.adkim;
            aspf = h.aspf;
            policy = λ t. absurd (cc t);
            implied = λ t. (refl, λ g. absurd (cc (f, g)));
          }

  -- A record that is returned has a percentage of at most 100, alignments that are `r` or `s`, and a
  -- policy; where the policy is not the record's own it is `none`, and the record has addresses for reports.
  pub parse_dmarc-IsValidRecord :
      (txt : Bytes) (r : Record) → parse_dmarc u mail txt ≡ ok r → IsValidRecord r
  unfolding parse_dmarc is_alignment ◌==◌
  parse_dmarc-IsValidRecord txt r e =
      Yields-ok IsValidRecord (parse_dmarc u mail txt) r
        (Yields-if IsValidRecord (not (is_dmarc txt)) _ _ (λ _. tt) λ _. read (parse_tags true txt))
        e
    where
      read :
          (list : Result TagError (List Tag))
          → Yields IsValidRecord (elim list [
            | err e ↦ err (bad_tags e)
            | ok [] ↦ err out_of_range
            | ok (_ ∷ ts) ↦ set_tags u mail ts (blank u mail txt) >>= default_policy u mail
          ])
      read (err e) = tt
      read (ok []) = tt
      read (ok (t ∷ ts)) =
          Yields-bind IsInBounds IsValidRecord (set_tags u mail ts (blank u mail txt)) _
            (set_tags-Yields ts (blank u mail txt)
              (record { pct = omega arith; adkim = refl; aspf = refl; explicit = refl }))
            λ r' h'. default_policy-Yields r' h'
