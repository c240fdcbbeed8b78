-- ===== src/Email/Spf.antt =====
-- checks/email/internal/spf/parse.go. The addresses are those of net/netip: what `ParseAddr` reads
-- and how a prefix is written are parameters.
pub mod Macro
pub mod Parse
pub mod Bounds
pub mod Eval
use seta.Prelude.{
  ℕ, zero, suc, ◌+◌, Bool, true, false, not, ◌&&◌, ◌||◌, List, [], ◌∷◌, ◌++◌, Option, none, some,
  if◌then◌else◌, leb, ltb, ◌=?◌, ◌==◌, length, Bytes, codes, lower_ascii, is_digit, is_space,
  is_space_pair, is_space_triple, is_empty, push_first, has_byte, has_prefix, trim_prefix, cut,
  cut_prefix, keep, drop, atoi, ℤ, pos, negsuc, Result, ok, err, ◌>>=◌, ◌>>◌, check,
}
use seta.Core.Target.{Unicode, to_lower}
use seta.Email.Tags.{is_alpha}
use seta.Email.Spf.Macro.{MacroError, parse_macro_string, DomainSpecError, validate_domain_spec}

-- `netip.Addr`: of a result of `ParseAddr` either `Is4` or `Is6` holds.
pub record Addr : Type 0 where
  pub is4 : Bool
  pub zone : Bytes
  pub value : ℕ

-- `BitLen`
abbrev pub bit_len : Addr → ℕ
bit_len a = if a.is4 then 32 else 128

pub record Addresses : Type 0 where
  -- `none` for an error
  pub parse_addr : Bytes → Option Addr
  pub show_prefix : Addr → ℕ → Bytes

-- `Qualifier`, as its byte
abbrev pub pass : ℕ
pass = b'+'

abbrev pub is_qualifier : ℕ → Bool
is_qualifier c = c =? pass || c =? b'-' || c =? b'~' || c =? b'?'

pub record Mechanism : Type 0 where
  pub qualifier : ℕ
  pub kind : Bytes
  pub domain : Bytes
  pub network : Option (Addr × ℕ)
  pub cidr4 : ℤ
  pub cidr6 : ℤ

pub record Record : Type 0 where
  pub raw : Bytes
  pub mechanisms : List Mechanism
  pub redirect : Bytes
  pub exp : Bytes

pub data SpfError : Type 0 where
  not_spf empty_term : SpfError
  repeated : Bytes → SpfError
  bad_modifier : MacroError → SpfError
  bad_domain : DomainSpecError → SpfError
  all_takes_none requires_domain malformed_domain ptr_takes_none bad_cidr requires_address
        bad_address wrong_family unknown_kind :
      Bytes → SpfError

-- `Mechanism.String`
unfoldable pub show_mechanism : Addresses → Mechanism → Bytes
show_mechanism net m =
    let q = if m.qualifier =? pass then [] else m.qualifier ∷ [] in
    if m.kind == codes "ip4" || m.kind == codes "ip6"
    then q
      ++ (m.kind
          ++ (b':' ∷ (elim m.network [ none ↦ [] | some (a, bits) ↦ net.show_prefix a bits ])))
    else if not (is_empty m.domain)
    then q ++ (m.kind ++ (b':' ∷ m.domain))
    else q ++ m.kind

-- `Mechanism.CountsLookup`
unfoldable pub counts_lookup : Mechanism → Bool
counts_lookup m =
    m.kind == codes "include"
    || m.kind == codes "a"
    || m.kind == codes "mx"
    || m.kind == codes "ptr"
    || m.kind == codes "exists"

-- `Record.All`
unfoldable pub all_of : List Mechanism → Option Mechanism
all_of [] = none
all_of (m ∷ ms) = if m.kind == codes "all" then some m else all_of ms

-- `IsSPF`: of six bytes only ASCII folds to `v=spf1`.
unfoldable pub is_spf : Bytes → Bool
is_spf txt = elim (cut_prefix (codes "v=spf1") (lower_ascii txt)) [
  | none ↦ false
  | some [] ↦ true
  | some (c ∷ s) ↦ c =? b' '
]
