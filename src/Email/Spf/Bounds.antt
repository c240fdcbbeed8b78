-- ===== src/Email/Spf/Bounds.antt =====
-- The mechanisms of `Parse` of checks/email/internal/spf/parse.go.
use seta.Prelude.{
  ℕ, ◌≤◌, ◌≡◌, refl, ap, ◌∙◌, Bool, true, false, not, ◌||◌, List, [], ◌∷◌, Option, none, some,
  arith, if◌then◌else◌, ◌==◌, ==_iff, Bytes, codes, is_empty, trim_prefix, has_prefix, cut, ℤ, pos,
  negsuc, Result, ok, err, ◌>>◌, check, Yields, Yields-bind, Yields-check, Yields-if, Yields-ok,
  Yields-option, Yields-result, drop, lower_ascii, All, All-append,
}
use seta.Core.Target.{Unicode}
use seta.Email.Spf.Macro.{validate_domain_spec, parse_macro_string}
use seta.Email.Spf.{
  Addr, bit_len, Addresses, Mechanism, Record, SpfError, bad_address, wrong_family, ptr_takes_none,
  all_takes_none, is_qualifier, pass, is_spf, repeated,
}
use seta.Email.Spf.Parse.{
  domain_spec, parse_cidr_len, parse_dual_cidr, cut_slashes, parse_network, parse_named,
  parse_optional, parse_host_term, parse_address_term, parse_kind_term, behind_colon, split_slash,
  split_kind, parse_unqualified, parse_mechanism, parse_terms, parse_spf, fields, add_modifier,
  split_modifier,
}

-- A length that is left out, or one up to a bound.
abbrev pub IsCidr : ℕ → ℤ → Type 0
IsCidr max (pos n) = n ≤ max
IsCidr max (negsuc n) = n ≡ 0

abbrev pub IsNetwork : Option (Addr × ℕ) → Type 0
IsNetwork none = Unit
IsNetwork (some (a, bits)) = bits ≤ bit_len a

abbrev pub IsSized : Mechanism → Type 0
IsSized m = IsCidr 32 m.cidr4 × IsCidr 128 m.cidr6 × IsNetwork m.network

-- A mechanism within bounds that keeps the kind and the qualifier of another.
abbrev Refines : Mechanism → Mechanism → Type 0
Refines m m' = IsSized m' × (m'.kind ≡ m.kind) × (m'.qualifier ≡ m.qualifier)

parse_cidr_len-le : (s : Bytes) (max n : ℕ) → parse_cidr_len s max ≡ some n → n ≤ max
unfolding parse_cidr_len
parse_cidr_len-le [] max n h = absurd (cc h)
parse_cidr_len-le (c ∷ s) max n h = ground (arith, h)

abbrev InRange : Addr × ℕ → Type 0
InRange (a, bits) = bits ≤ bit_len a

le_refl : (n : ℕ) → n ≤ n
le_refl n = omega arith

parse_network-Yields :
    (net : Addresses) (s : Bytes) (v4 : Bool) → Yields InRange (parse_network net s v4)
unfolding parse_network
parse_network-Yields net s v4 =
    let (addr, len, has_len) = cut b'/' s in
    Yields-option InRange (net.parse_addr addr) _ _ tt λ a _.
      Yields-bind (λ _. Unit {0}) InRange (check (is_empty a.zone) (bad_address addr)) _
        (Yields-check (λ _. Unit {0}) _ _ (λ _. tt))
        λ _ _.
          Yields-bind (λ _. Unit {0}) InRange
            (check (if v4 then a.is4 else not a.is4) (wrong_family addr)) _
            (Yields-check (λ _. Unit {0}) _ _ (λ _. tt))
            λ _ _.
              Yields-if InRange has_len _ _
                (λ _.
                  Yields-option InRange (parse_cidr_len len (bit_len a)) _ _ tt
                    λ n e. parse_cidr_len-le len (bit_len a) n e)
                (λ _. le_refl (bit_len a))

parse_dual_cidr-Yields :
    (s : Bytes) (m : Mechanism) → IsSized m → Yields (Refines m) (parse_dual_cidr s m)
unfolding parse_dual_cidr
parse_dual_cidr-Yields s m h =
    let (v4, v6, dual) = cut_slashes s in
    Yields-bind (Refines m) (Refines m) _ _
      (Yields-if (Refines m) (is_empty v4) _ _ (λ _. (h, refl, refl))
        λ _.
          Yields-option (Refines m) (parse_cidr_len (trim_prefix (codes "/") v4) 32) _ _ tt λ n e.
            Yields-if (Refines m) (has_prefix (codes "/") v4) _ _
              (λ _. ((parse_cidr_len-le _ 32 n e, h.1, h.2), refl, refl)) (λ _. tt))
      λ one (sized, kind, qualifier).
        Yields-if (Refines m) dual _ _
          (λ _.
            Yields-option (Refines m) (parse_cidr_len v6 128) _ _ tt
              λ n e. ((sized.0, parse_cidr_len-le v6 128 n e, sized.2), kind, qualifier))
          (λ _. (sized, kind, qualifier))

-- A term that takes a domain without a default has one.
abbrev pub is_named : Bytes → Bool
is_named kind = kind == codes "include" || kind == codes "exists"

abbrev HasDomain : Mechanism → Type 0
HasDomain m = is_named m.kind ≡ true → is_empty m.domain ≡ false

behind_colon-some : (arg ds : Bytes) → behind_colon arg ≡ some ds → is_empty ds ≡ false
unfolding behind_colon is_empty
behind_colon-some [] ds h = absurd (cc h)
behind_colon-some (c ∷ []) ds h = absurd (cc h)
behind_colon-some (c ∷ d ∷ s) ds h = ground (arith, h)

domain_spec-Yields : (ds : Bytes) (exp : Bool) → Yields (λ _. Unit {0}) (domain_spec ds exp)
unfolding domain_spec
domain_spec-Yields ds exp =
    Yields-result (λ _. Unit {0}) (validate_domain_spec ds exp) _ _ (λ _ _. tt) (λ _. tt)

parse_named-Yields :
    (arg : Bytes) (m : Mechanism)
    → IsSized m
    → Yields (λ m'. Refines m m' × HasDomain m') (parse_named arg m)
unfolding parse_named
parse_named-Yields arg m h =
    let Good = λ (m' : Mechanism). Refines m m' × HasDomain m' in
    Yields-option Good (behind_colon arg) _ _ tt λ ds e.
      Yields-bind (λ _. Unit {0}) Good (domain_spec ds false) _ (domain_spec-Yields ds false)
        λ _ _. ((h, refl, refl), λ _. behind_colon-some arg ds e)

parse_optional-Yields :
    (arg : Bytes) (m : Mechanism) → IsSized m → Yields (Refines m) (parse_optional arg m)
unfolding parse_optional
parse_optional-Yields [] m h = (h, refl, refl)
parse_optional-Yields (c ∷ s) m h = Yields-option (Refines m) (behind_colon (c ∷ s)) _ _ tt λ ds e.
    Yields-bind (λ _. Unit {0}) (Refines m) (domain_spec ds false) _ (domain_spec-Yields ds false)
      λ _ _. (h, refl, refl)

parse_host_term-Yields :
    (arg : Bytes) (m : Mechanism) → IsSized m → Yields (Refines m) (parse_host_term arg m)
unfolding parse_host_term
parse_host_term-Yields arg m h =
    Yields-bind (Refines m) (Refines m) _ _ (parse_optional-Yields (split_slash arg).0 m h)
      λ one (sized, kind, qualifier).
        Yields-if (Refines m) (is_empty (split_slash arg).1) _ _ (λ _. (sized, kind, qualifier))
          λ _.
            Yields-bind (λ _. Unit {0}) (Refines m)
              (check (not (m.kind == codes "ptr")) (ptr_takes_none m.kind)) _
              (Yields-check (λ _. Unit {0}) _ _ (λ _. tt))
              λ _ _.
                Refines_trans one kind qualifier (parse_dual_cidr (split_slash arg).1 one)
                  (parse_dual_cidr-Yields (split_slash arg).1 one sized)
  where
    Refines_trans :
        (one : Mechanism)
        → one.kind ≡ m.kind
        → one.qualifier ≡ m.qualifier
        → (r : Result SpfError Mechanism) → Yields (Refines one) r
        → Yields (Refines m) r
    Refines_trans one kind qualifier (ok m') (sized, k, q) = (sized, k ∙ kind, q ∙ qualifier)
    Refines_trans one kind qualifier (err e) y = tt

parse_address_term-Yields :
    (net : Addresses) (arg : Bytes) (m : Mechanism)
    → IsSized m
    → Yields (Refines m) (parse_address_term net arg m)
unfolding parse_address_term
parse_address_term-Yields net arg m h = Yields-option (Refines m) (behind_colon arg) _ _ tt λ v _.
    Yields-bind InRange (Refines m) (parse_network net v (m.kind == codes "ip4")) _
      (parse_network-Yields net v (m.kind == codes "ip4"))
      λ p range. ((h.0, h.1, range), refl, refl)

abbrev pub is_kind : Bytes → Bool
is_kind kind =
    kind == codes "all"
    || is_named kind
    || (kind == codes "a" || kind == codes "mx" || kind == codes "ptr")
    || (kind == codes "ip4" || kind == codes "ip6")

-- A mechanism with a known kind and qualifier, within bounds, and with a domain where it needs one.
abbrev pub IsMechanism : Mechanism → Type 0
IsMechanism m =
    IsSized m
    × (is_kind m.kind ≡ true)
    × (is_qualifier m.qualifier ≡ true)
    × (is_named m.kind ≡ true → is_empty m.domain ≡ false)

-- From a term's own case to what holds of every mechanism.
of_Refines :
    (m : Mechanism)
    → is_kind m.kind ≡ true
    → is_qualifier m.qualifier ≡ true
    → (r : Result SpfError Mechanism) → Yields (λ m'. Refines m m' × HasDomain m') r
    → Yields IsMechanism r
of_Refines m k q (ok m') ((sized, kind, qualifier), named) =
    (sized, ap is_kind kind ∙ k, ap (λ c. is_qualifier c) qualifier ∙ q, named)
of_Refines m k q (err e) y = tt

with_no_domain :
    (m : Mechanism)
    → is_named m.kind ≡ false
    → (r : Result SpfError Mechanism) → Yields (Refines m) r
    → Yields (λ m'. Refines m m' × HasDomain m') r
with_no_domain m n (ok m') (sized, kind, qualifier) =
    ((sized, kind, qualifier), λ named. cc (named, ap is_named kind, n))
with_no_domain m n (err e) y = tt

all-IsNotNamed : is_named (codes "all") ≡ false
unfolding ◌==◌
all-IsNotNamed = refl

parse_kind_term-Yields :
    (net : Addresses) (arg : Bytes) (m : Mechanism)
    → IsSized m
    → is_qualifier m.qualifier ≡ true
    → Yields IsMechanism (parse_kind_term net arg m)
unfolding parse_kind_term
parse_kind_term-Yields net arg m h q =
    Yields-if IsMechanism (m.kind == codes "all") _ _
      (λ e. of_Refines m (ground (arith, e)) q _ (
        Yields-bind (λ _. Unit {0}) (λ m'. Refines m m' × HasDomain m')
          (check (is_empty arg) (all_takes_none arg)) _ (Yields-check (λ _. Unit {0}) _ _ (λ _. tt))
          λ _ _. ((h, refl, refl), λ named. absurd (not_named e named))))
      λ a.
        Yields-if IsMechanism (is_named m.kind) _ _
          (λ e. of_Refines m (ground (arith, e)) q _ (parse_named-Yields arg m h))
          λ n.
            Yields-if IsMechanism
              (m.kind == codes "a" || m.kind == codes "mx" || m.kind == codes "ptr") _ _
              (λ e.
                of_Refines m (ground (arith, e)) q _
                  (with_no_domain m n _ (parse_host_term-Yields arg m h)))
              λ b.
                Yields-if IsMechanism (m.kind == codes "ip4" || m.kind == codes "ip6") _ _
                  (λ e.
                    of_Refines m (ground (arith, e)) q _
                      (with_no_domain m n _ (parse_address_term-Yields net arg m h)))
                  (λ _. tt)
  where
    not_named : m.kind == codes "all" ≡ true → is_named m.kind ≡ true → ⊥
    not_named e named = cc (ap is_named ((==_iff m.kind (codes "all")).0 e), named, all-IsNotNamed)

module _ (u : Unicode) (net : Addresses) where
  parse_unqualified-Yields :
      (q : ℕ) (rest : Bytes)
      → is_qualifier q ≡ true
      → Yields IsMechanism (parse_unqualified u net q rest)
  unfolding parse_unqualified
  parse_unqualified-Yields q rest h =
      parse_kind_term-Yields net (split_kind rest).1 _ (refl, refl, tt) h

  parse_mechanism-Yields : (term : Bytes) → Yields IsMechanism (parse_mechanism u net term)
  unfolding parse_mechanism
  parse_mechanism-Yields [] = tt
  parse_mechanism-Yields (c ∷ s) =
      Yields-if IsMechanism (is_qualifier c) _ _ (λ h. parse_unqualified-Yields c s h)
        (λ _. parse_unqualified-Yields pass (c ∷ s) refl)

  abbrev AreMechanisms : Record → Type 0
  AreMechanisms r = All IsMechanism r.mechanisms

  add_modifier-Yields :
      (name value : Bytes) (r : Record)
      → AreMechanisms r
      → Yields AreMechanisms (add_modifier name value r)
  unfolding add_modifier
  add_modifier-Yields name value r h =
      Yields-if AreMechanisms (name == codes "redirect") _ _
        (λ _. replaced (is_empty r.redirect) false (record r { redirect = value }) h)
        λ _.
          Yields-if AreMechanisms (name == codes "exp") _ _
            (λ _. replaced (is_empty r.exp) true (record r { exp = value }) h)
            (λ _.
              Yields-result AreMechanisms (parse_macro_string value false) _ _ (λ _ _. h) (λ _. tt))
    where
      replaced :
          (fresh exp : Bool) (next : Record)
          → AreMechanisms next
          → Yields AreMechanisms (check fresh (repeated name) >> (domain_spec value exp >> ok next))
      replaced fresh exp next good =
          Yields-bind (λ _. Unit {0}) AreMechanisms (check fresh (repeated name)) _
            (Yields-check (λ _. Unit {0}) fresh (repeated name) (λ _. tt))
            λ _ _.
              Yields-bind (λ _. Unit {0}) AreMechanisms (domain_spec value exp) _
                (domain_spec-Yields value exp) λ _ _. good

  parse_terms-Yields :
      (terms : List Bytes) (r : Record)
      → AreMechanisms r
      → Yields AreMechanisms (parse_terms u net terms r)
  unfolding parse_terms
  parse_terms-Yields [] r h = h
  parse_terms-Yields (term ∷ terms) r h =
      Yields-option AreMechanisms (split_modifier term) _ _
        (Yields-bind IsMechanism AreMechanisms (parse_mechanism u net term) _
          (parse_mechanism-Yields term)
          λ m good.
            parse_terms-Yields terms _ (All-append IsMechanism r.mechanisms (m ∷ []) h (good, tt)))
        λ modifier _.
          Yields-bind AreMechanisms AreMechanisms
            (add_modifier (lower_ascii modifier.0) modifier.1 r) _
            (add_modifier-Yields (lower_ascii modifier.0) modifier.1 r h)
            λ r' h'. parse_terms-Yields terms r' h'

  -- Every mechanism of a record that `Parse` returns has one of the eight kinds and one of the four
  -- qualifiers, CIDR lengths of at most 32 and 128 bits where it has any, a prefix no longer than its
  -- address, and, for `include` and `exists`, a domain.
  pub parse_spf-AreMechanisms :
      (txt : Bytes) (r : Record) → parse_spf u net txt ≡ ok r → All IsMechanism r.mechanisms
  unfolding parse_spf
  parse_spf-AreMechanisms txt r e =
      Yields-ok AreMechanisms (parse_spf u net txt) r
        (Yields-if AreMechanisms (not (is_spf txt)) _ _ (λ _. tt)
          (λ _. parse_terms-Yields (fields (drop 6 txt)) _ tt))
        e
