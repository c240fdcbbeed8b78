-- ===== src/Email/Spf/Parse.antt =====
-- `Parse` of checks/email/internal/spf/parse.go, and what it calls.
use seta.Prelude.{
  ℕ, Bool, true, false, not, ◌&&◌, ◌||◌, List, [], ◌∷◌, ◌++◌, Option, none, some, if◌then◌else◌,
  leb, ◌=?◌, ◌==◌, Bytes, codes, lower_ascii, is_digit, is_space, is_space_pair, is_space_triple,
  is_empty, push_first, has_byte, has_prefix, trim_prefix, cut, cut_prefix, keep, drop, atoi, pos,
  negsuc, Result, ok, err, ◌>>=◌, ◌>>◌, check,
}
use seta.Core.Target.{Unicode, to_lower}
use seta.Email.Tags.{is_alpha}
use seta.Email.Spf.Macro.{parse_macro_string, validate_domain_spec}
use seta.Email.Spf.{
  Addr, Addresses, Mechanism, Record, SpfError, all_takes_none, bad_address, bad_cidr, bad_domain,
  bad_modifier, bit_len, empty_term, is_qualifier, is_spf, malformed_domain, not_spf, pass,
  ptr_takes_none, repeated, requires_address, requires_domain, unknown_kind, wrong_family,
}

-- The pieces between spaces, and `strings.FieldsSeq`.
unfoldable pub split_spaces : Bytes → List Bytes
split_spaces [] = [] ∷ []
split_spaces (a ∷ []) = if is_space a then [] ∷ [] ∷ [] else (a ∷ []) ∷ []
split_spaces (a ∷ b ∷ []) =
    let one = split_spaces (b ∷ []) in
    if is_space a then [] ∷ one else if is_space_pair a b then [] ∷ [] ∷ [] else push_first a one
split_spaces (a ∷ b ∷ c ∷ s) =
    let one = split_spaces (b ∷ c ∷ s) in
    let two = split_spaces (c ∷ s) in
    let three = split_spaces s in
    if is_space a
    then [] ∷ one
    else if is_space_pair a b
    then [] ∷ two
    else if is_space_triple a b c
    then [] ∷ three
    else push_first a one

unfoldable pub fields : Bytes → List Bytes
fields s = keep (λ piece. not (is_empty piece)) (split_spaces s)

-- The loop of `splitModifier`: the name, and what stands behind it.
unfoldable pub span_name : Bool → Bytes → Bytes × Bytes
span_name first [] = ([], [])
span_name first (c ∷ s) =
    let (name, rest) = span_name false s in
    if is_alpha c || not first && (is_digit c || has_byte c (codes "-_."))
    then (c ∷ name, rest)
    else ([], c ∷ s)

-- `splitModifier`
unfoldable pub split_modifier : Bytes → Option (Bytes × Bytes)
split_modifier term =
    let (name, rest) = span_name true term in
    if is_empty name
    then none
    else (elim rest [ [] ↦ none | c ∷ value ↦ if c =? b'=' then some (name, value) else none ])

unfoldable pub domain_spec : Bytes → Bool → Result SpfError (Unit {0})
domain_spec ds exp = elim (validate_domain_spec ds exp) [
  | ok _ ↦ ok tt
  | err e ↦ err (bad_domain e)
]

-- `Record.addModifier`
unfoldable pub add_modifier : Bytes → Bytes → Record → Result SpfError Record
add_modifier name value r =
    if name == codes "redirect"
    then (do
      check (is_empty r.redirect) (repeated name)
      domain_spec value false
      ok (record r { redirect = value }))
    else if name == codes "exp"
    then (do
      check (is_empty r.exp) (repeated name)
      domain_spec value true
      ok (record r { exp = value }))
    else (elim (parse_macro_string value false) [ ok _ ↦ ok r | err e ↦ err (bad_modifier e) ])

-- `parseCIDRLen`
unfoldable pub parse_cidr_len : Bytes → ℕ → Option ℕ
parse_cidr_len [] max = none
parse_cidr_len (c ∷ s) max = if not (is_empty s) && c =? b'0' then none else (elim (atoi (c ∷ s)) [
  | none ↦ none
  | some (negsuc _) ↦ none
  | some (pos n) ↦ if leb n max then some n else none
])

-- `strings.Cut(s, "//")`
unfoldable pub cut_slashes : Bytes → Bytes × Bytes × Bool
cut_slashes [] = ([], [], false)
cut_slashes (c ∷ s) =
    let (before, after, found) = cut_slashes s in
    elim (cut_prefix (codes "//") (c ∷ s)) [
      | some rest ↦ ([], rest, true)
      | none ↦ (c ∷ before, after, found)
    ]

-- `parseDualCIDR`
unfoldable pub parse_dual_cidr : Bytes → Mechanism → Result SpfError Mechanism
parse_dual_cidr s m =
    let (v4, v6, dual) = cut_slashes s in
    do
      one ← if is_empty v4 then ok m else (elim (parse_cidr_len (trim_prefix (codes "/") v4) 32) [
        | none ↦ err (bad_cidr v4)
        | some n ↦
            if has_prefix (codes "/") v4 then ok (record m { cidr4 = pos n }) else err (bad_cidr v4)
      ])
      if dual
          then (elim (parse_cidr_len v6 128) [
            | none ↦ err (bad_cidr v6)
            | some n ↦ ok (record one { cidr6 = pos n })
          ])
          else ok one

-- `parseNetwork`
unfoldable pub parse_network : Addresses → Bytes → Bool → Result SpfError (Addr × ℕ)
parse_network net s v4 =
    let (addr, len, has_len) = cut b'/' s in
    elim (net.parse_addr addr) [
      | none ↦ err (bad_address addr)
      | some a ↦ do
        check (is_empty a.zone) (bad_address addr)
        check (if v4 then a.is4 else not a.is4) (wrong_family addr)
        if has_len
            then (elim (parse_cidr_len len (bit_len a)) [
              | none ↦ err (bad_cidr len)
              | some n ↦ ok (a, n)
            ])
            else ok (a, bit_len a)
    ]

-- `rest[:end]` and `rest[end:]` at the first of `:` and `/`
unfoldable pub split_kind : Bytes → Bytes × Bytes
split_kind [] = ([], [])
split_kind (c ∷ s) =
    let (kind, arg) = split_kind s in
    if c =? b':' || c =? b'/' then ([], c ∷ s) else (c ∷ kind, arg)

-- `:` and a domain behind it that is not empty
unfoldable pub behind_colon : Bytes → Option Bytes
behind_colon (c ∷ d ∷ ds) = if c =? b':' then some (d ∷ ds) else none
behind_colon _ = none

-- The case of `include` and `exists`.
unfoldable pub parse_named : Bytes → Mechanism → Result SpfError Mechanism
parse_named arg m = elim (behind_colon arg) [
  | none ↦ err (requires_domain m.kind)
  | some ds ↦ do domain_spec ds false; ok (record m { domain = ds })
]

-- The domain of `a`, `mx` and `ptr`, which may be left out.
unfoldable pub parse_optional : Bytes → Mechanism → Result SpfError Mechanism
parse_optional [] m = ok m
parse_optional (c ∷ s) m = elim (behind_colon (c ∷ s)) [
  | none ↦ err (malformed_domain (c ∷ s))
  | some ds ↦ do domain_spec ds false; ok (record m { domain = ds })
]

-- `arg[:i]` and `arg[i:]` at the first slash
unfoldable pub split_slash : Bytes → Bytes × Bytes
split_slash [] = ([], [])
split_slash (c ∷ s) =
    let (ds, cidr) = split_slash s in if c =? b'/' then ([], c ∷ s) else (c ∷ ds, cidr)

-- The case of `a`, `mx` and `ptr`.
unfoldable pub parse_host_term : Bytes → Mechanism → Result SpfError Mechanism
parse_host_term arg m = do
  one ← parse_optional (split_slash arg).0 m
  if is_empty (split_slash arg).1 then ok one else do
    check (not (m.kind == codes "ptr")) (ptr_takes_none m.kind)
    parse_dual_cidr (split_slash arg).1 one

-- The case of `ip4` and `ip6`.
unfoldable pub parse_address_term : Addresses → Bytes → Mechanism → Result SpfError Mechanism
parse_address_term net arg m = elim (behind_colon arg) [
  | none ↦ err (requires_address m.kind)
  | some v ↦ do
    network ← parse_network net v (m.kind == codes "ip4")
    ok (record m { network = some network })
]

-- The `switch` of `parseMechanism`.
unfoldable pub parse_kind_term : Addresses → Bytes → Mechanism → Result SpfError Mechanism
parse_kind_term net arg m =
    if m.kind == codes "all"
    then check (is_empty arg) (all_takes_none arg) >> ok m
    else if m.kind == codes "include" || m.kind == codes "exists"
    then parse_named arg m
    else if m.kind == codes "a" || m.kind == codes "mx" || m.kind == codes "ptr"
    then parse_host_term arg m
    else if m.kind == codes "ip4" || m.kind == codes "ip6"
    then parse_address_term net arg m
    else err (unknown_kind m.kind)

module _ (u : Unicode) (net : Addresses) where
  -- `parseMechanism` behind the qualifier
  unfoldable pub parse_unqualified : ℕ → Bytes → Result SpfError Mechanism
  parse_unqualified q rest =
      let (name, arg) = split_kind rest in
      parse_kind_term net arg (record {
        qualifier = q;
        kind = to_lower u name;
        domain = [];
        network = none;
        cidr4 = negsuc 0;
        cidr6 = negsuc 0;
      })

  -- `parseMechanism`; `rest[0]` is out of range on an empty term.
  unfoldable pub parse_mechanism : Bytes → Result SpfError Mechanism
  parse_mechanism [] = err empty_term
  parse_mechanism (c ∷ s) =
      if is_qualifier c then parse_unqualified c s else parse_unqualified pass (c ∷ s)

  -- The loop of `Parse` over the terms.
  unfoldable pub parse_terms : List Bytes → Record → Result SpfError Record
  parse_terms [] r = ok r
  parse_terms (term ∷ terms) r = elim (split_modifier term) [
    | some (name, value) ↦ do r' ← add_modifier (lower_ascii name) value r; parse_terms terms r'
    | none ↦ do
      m ← parse_mechanism term
      parse_terms terms (record r { mechanisms = r.mechanisms ++ (m ∷ []) })
  ]

  -- `Parse`
  unfoldable pub parse_spf : Bytes → Result SpfError Record
  parse_spf txt =
      if not (is_spf txt)
      then err not_spf
      else parse_terms (fields (drop 6 txt))
          (record { raw = txt; mechanisms = []; redirect = []; exp = [] })
