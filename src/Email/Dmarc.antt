-- ===== src/Email/Dmarc.antt =====
-- checks/email/internal/dmarc/dmarc.go: DMARC policy records. `mail.ParseAddress` is a parameter.
pub mod Records
pub mod InRange
use seta.Prelude.{
  ℕ, Bool, true, false, not, ◌&&◌, ◌||◌, List, [], ◌∷◌, ◌++◌, Option, none, some, if◌then◌else◌,
  leb, ◌=?◌, ◌==◌, Bytes, codes, lower_ascii, has_byte, trim_space, trim_suffix, is_empty, split_on,
  cut, cut_last, all, atoi, parse_uint, ℤ, pos, negsuc, Result, ok, err, ◌>>=◌, ◌>>◌, check,
}
use Prim.Native.Nat.{◌^◌}
use seta.Core.Target.{Unicode, to_lower}
use seta.Email.Tags.{Tag, TagError, parse_tags}

-- `Policy`; an empty one is the absence of a policy.
pub data Policy : Type 0 where
  no_action quarantine reject : Policy

pub record Uri : Type 0 where
  pub raw : Bytes
  pub scheme : Bytes
  pub address : Bytes
  pub domain : Bytes

pub record Record : Type 0 where
  pub raw : Bytes
  pub p : Option Policy
  pub implicit_p : Bool
  pub sp : Option Policy
  pub pct : ℕ
  pub rua : List Uri
  pub ruf : List Uri
  pub adkim : Bytes
  pub aspf : Bytes

pub data DmarcError : Type 0 where
  -- the panic of `list[1:]` on an empty list
  out_of_range : DmarcError
  not_dmarc repeated_version missing_policy : DmarcError
  bad_tags : TagError → DmarcError
  bad_policy bad_pct bad_alignment bad_fo bad_ri : Bytes → DmarcError
  not_uri bad_size bad_address : Bytes → DmarcError

-- `IsDMARC`; only ASCII folds to the letters of DMARC1.
unfoldable pub is_dmarc : Bytes → Bool
is_dmarc txt =
    let (name, value, found) = cut b'=' (cut b';' txt).0 in
    found && trim_space name == codes "v" && lower_ascii (trim_space value) == codes "dmarc1"

-- The name and the address of `mail.ParseAddress`, `none` for an error.
abbrev pub ParseAddress : Type 0
ParseAddress = Bytes → Option (Bytes × Bytes)

-- `strings.TrimRight(…, "kmgt")`
unfoldable pub trim_units : Bytes → Bytes
trim_units [] = []
trim_units (c ∷ s) =
    let rest = trim_units s in if is_empty rest && has_byte c (codes "kmgt") then [] else c ∷ rest

unfoldable pub is_alignment : Bytes → Bool
is_alignment v = v == codes "r" || v == codes "s"

unfoldable pub is_fo : Bytes → Bool
is_fo o = o == codes "0" || o == codes "1" || o == codes "d" || o == codes "s"

unfoldable pub parse_pct : Bytes → Option ℕ
parse_pct v = elim (atoi v) [ some (pos n) ↦ if leb n 100 then some n else none | _ ↦ none ]

abbrev pub is_absent {ℓ} : {A : Type ℓ} → Option A → Bool
is_absent none = true
is_absent (some a) = false

module _ (u : Unicode) (mail : ParseAddress) where
  -- `parsePolicy`
  unfoldable pub parse_policy : Bytes → Option Policy
  parse_policy v =
      let p = to_lower u v in
      if p == codes "none"
      then some no_action
      else if p == codes "quarantine"
      then some quarantine
      else if p == codes "reject"
      then some reject
      else none

  -- `validSize`
  unfoldable pub is_size : Bytes → Bool
  is_size s = not (is_absent (parse_uint (2 ^ 64) (trim_units (to_lower u s))))

  -- The address of a mailto URI, without its size limit.
  unfoldable pub parse_mailto : Bytes → Bytes → Result DmarcError Bytes
  parse_mailto raw rest = elim (cut_last b'!' rest) [
    | none ↦ ok rest
    | some (addr, size) ↦ check (is_size size) (bad_size raw) >> ok addr
  ]

  -- The body of the loop of `parseURIs`.
  unfoldable pub parse_uri : Bytes → Result DmarcError Uri
  parse_uri raw = do
    let (scheme, rest, found) = cut b':' raw
    check (found && not (is_empty scheme) && not (is_empty rest)) (not_uri raw)
    let plain : Uri = record { raw = raw; scheme = to_lower u scheme; address = []; domain = [] }
    if plain.scheme == codes "mailto"
        then (do
          addr ← parse_mailto raw rest
          elim (mail addr) [
            | none ↦ err (bad_address raw)
            | some (name, address) ↦ do
              check (is_empty name) (bad_address raw)
              ok (record plain {
                address = address;
                domain = to_lower u (trim_suffix (codes ".") (cut b'@' address).1);
              })
          ])
        else ok plain

  -- `parseURIs`
  unfoldable pub parse_uris : List Bytes → Result DmarcError (List Uri)
  parse_uris [] = ok []
  parse_uris (raw ∷ rest) = do
    one ← parse_uri (trim_space raw)
    more ← parse_uris rest
    ok (one ∷ more)

  -- The cases of `Parse` that set a policy.
  unfoldable pub set_policy : Bytes → (Policy → Record) → Result DmarcError Record
  set_policy v next = elim (parse_policy v) [ none ↦ err (bad_policy v) | some p ↦ ok (next p) ]

  -- The `switch` of `Parse`.
  unfoldable pub set_tag : Bytes → Bytes → Record → Result DmarcError Record
  set_tag name v r =
      if name == codes "p"
      then set_policy v (λ p. record r { p = some p })
      else if name == codes "sp"
      then set_policy v (λ p. record r { sp = some p })
      else if name == codes "pct"
      then (elim (parse_pct v) [ none ↦ err (bad_pct v) | some n ↦ ok (record r { pct = n }) ])
      else if name == codes "rua"
      then (do uris ← parse_uris (split_on b',' v); ok (record r { rua = uris }))
      else if name == codes "ruf"
      then (do uris ← parse_uris (split_on b',' v); ok (record r { ruf = uris }))
      else if name == codes "adkim"
      then check (is_alignment v) (bad_alignment v) >> ok (record r { adkim = v })
      else if name == codes "aspf"
      then check (is_alignment v) (bad_alignment v) >> ok (record r { aspf = v })
      else if name == codes "fo"
      then check (all (λ o. is_fo (trim_space o)) (split_on b':' v)) (bad_fo v) >> ok r
      else if name == codes "ri"
      then check (not (is_absent (parse_uint (2 ^ 32) v))) (bad_ri v) >> ok r
      else if name == codes "v"
      then err repeated_version
      else ok r

  -- The loop of `Parse`.
  unfoldable pub set_tags : List Tag → Record → Result DmarcError Record
  set_tags [] r = ok r
  set_tags (t ∷ ts) r = do r' ← set_tag t.name t.value r; set_tags ts r'

  -- The end of `Parse`: a policy that is missing.
  unfoldable pub default_policy : Record → Result DmarcError Record
  default_policy r = elim r.p [
    | some _ ↦ ok r
    | none ↦ elim r.rua [
      | [] ↦ err missing_policy
      | _ ∷ _ ↦ ok (record r { p = some no_action; implicit_p = true })
    ]
  ]

  -- The record with which `Parse` begins.
  abbrev pub blank : Bytes → Record
  blank txt = record {
    raw = txt;
    p = none;
    implicit_p = false;
    sp = none;
    pct = 100;
    rua = [];
    ruf = [];
    adkim = codes "r";
    aspf = codes "r";
  }

  -- `Parse`
  unfoldable pub parse_dmarc : Bytes → Result DmarcError Record
  parse_dmarc txt = if not (is_dmarc txt) then err not_dmarc else (elim (parse_tags true txt) [
    | err e ↦ err (bad_tags e)
    | ok [] ↦ err out_of_range
    | ok (_ ∷ ts) ↦ set_tags ts (blank txt) >>= default_policy
  ])
