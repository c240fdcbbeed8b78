-- ===== src/Dns.antt =====
-- internal/dnsx/dnsx.go. The records are those of github.com/miekg/dns: a record has its type and what
-- the code reads of it. `dns.Fqdn` is a parameter, and so is what a resolver answers.
use seta.Prelude.{ℕ, Bool, List, [], ◌∷◌, ◌++◌, ◌=?◌, Bytes, keep, Result}
use seta.Core.Target.{Unicode, to_lower}

pub data Rdata : Type 0 where
  -- the preference and the host
  mx : ℕ → Bytes → Rdata
  -- the character strings
  txt : List Bytes → Rdata
  other : Rdata

pub record Rr : Type 0 where
  pub rrtype : ℕ
  pub rdata : Rdata

pub record Response : Type 0 where
  pub name : Bytes
  pub qtype : ℕ
  pub rcode : ℕ
  pub answer : List Rr

-- The numbers of the types and of NXDOMAIN in miekg/dns.
abbrev pub type_a : ℕ
type_a = 1

abbrev pub type_mx : ℕ
type_mx = 15

abbrev pub type_txt : ℕ
type_txt = 16

abbrev pub type_aaaa : ℕ
type_aaaa = 28

abbrev pub rcode_name_error : ℕ
rcode_name_error = 3

-- `Resolver`; an error is its text.
abbrev pub Resolver : Type 0
Resolver = Bytes → ℕ → Result Bytes Response

-- `NXDomain`
unfoldable pub nx_domain : Response → Bool
nx_domain r = r.rcode =? rcode_name_error

-- `Records`
unfoldable pub records : Response → List Rr
records r = keep (λ (rr : Rr). rr.rrtype =? r.qtype) r.answer

-- `MX`
unfoldable pub mx_in : List Rr → List (ℕ × Bytes)
mx_in [] = []
mx_in (rr ∷ rrs) =
    let rest = mx_in rrs in elim rr.rdata [ mx pref host ↦ (pref, host) ∷ rest | _ ↦ rest ]

-- `strings.Join(txt.Txt, "")`
unfoldable pub concat_strings : List Bytes → Bytes
concat_strings [] = []
concat_strings (s ∷ ss) = s ++ concat_strings ss

-- `TXT`
unfoldable pub txt_in : List Rr → List Bytes
txt_in [] = []
txt_in (rr ∷ rrs) =
    let rest = txt_in rrs in
    elim rr.rdata [ txt strings ↦ concat_strings strings ∷ rest | _ ↦ rest ]

-- `CanonicalName`
unfoldable pub canonical_name : Unicode → (Bytes → Bytes) → Bytes → Bytes
canonical_name u fqdn name = fqdn (to_lower u name)
