-- ===== src/Core/Finding.antt =====
-- internal/core/finding.go. SHA-256 is the parameter `digest` of what hashes.
use seta.Prelude.{◌≡◌, ◌≢◌, List, [], ◌∷◌, ◌++◌, Option, arith, Bytes, All}
use seta.Core.Severity.{Severity}

pub record Finding : Type 0 where
  pub check_id : Bytes
  pub target : Bytes
  pub subject : Bytes
  pub severity : Severity
  pub title : Bytes
  pub evidence : List (Bytes × Bytes)
  pub remediation : Bytes
  -- `none` is Go's nil slice.
  pub references : Option (List Bytes)

-- What `Fingerprint` writes to the hash.
unfoldable pub fingerprint_input : Bytes → Bytes → Bytes → Bytes
fingerprint_input check_id target subject = check_id ++ (0 ∷ (target ++ (0 ∷ subject)))

-- `Fingerprint`; `digest` is the hex text of the first 16 bytes of the SHA-256 sum.
unfoldable pub fingerprint : (Bytes → Bytes) → Bytes → Bytes → Bytes → Bytes
unfolding fingerprint_input
fingerprint digest check_id target subject = digest (fingerprint_input check_id target subject)

-- `Finding.Fingerprint`
unfoldable pub fingerprint_of : (Bytes → Bytes) → Finding → Bytes
unfolding fingerprint
fingerprint_of digest f = fingerprint digest f.check_id f.target f.subject

abbrev pub NoNul : Bytes → Type 0
NoNul = All (λ c. c ≢ 0)

field-injective :
    (a b x y : Bytes) → NoNul a → NoNul b → a ++ (0 ∷ x) ≡ b ++ (0 ∷ y) → (a ≡ b) × (x ≡ y)
field-injective [] [] x y p q h = ground arith
field-injective [] (d ∷ b) x y p q h = ground (arith, q.0)
field-injective (c ∷ a) [] x y p q h = ground (arith, p.0)
field-injective (c ∷ a) (d ∷ b) x y p q h = ground (arith, field-injective a b x y p.1 q.1)

-- Two triples whose check IDs and targets hold no NUL byte are hashed from the same bytes only if
-- they are the same triple, whatever their subjects hold.
pub fingerprint_input_injective :
    (c t s c' t' s' : Bytes)
    → NoNul c × NoNul t
    → NoNul c' × NoNul t'
    → fingerprint_input c t s ≡ fingerprint_input c' t' s'
    → (c ≡ c') × (t ≡ t') × (s ≡ s')
unfolding fingerprint_input
fingerprint_input_injective c t s c' t' s' n n' h =
    let outer = field-injective c c' (t ++ (0 ∷ s)) (t' ++ (0 ∷ s')) n.0 n'.0 h in
    let inner = field-injective t t' s s' n.1 n'.1 outer.1 in (outer.0, inner.0, inner.1)
