-- ===== src/Tests/CoreTests.antt =====
-- Tests and instances for internal/core.
use seta.Prelude.{
  ◌≡◌, refl, true, [], ◌∷◌, Bytes, codes, ok, err, arith, if◌then◌else◌, trim_space, is_empty,
  contains_sub, contains_any, trim_suffix, lower_ascii, is_ascii, split_on, last_byte, has_byte,
  cut, cut_last, atoi,
}
use seta.Core.Severity.{
  high, unset, parse_severity, severity_string, is_valid, parse_severity-severity_string,
  severity_string-parse_severity, unknown_severity,
}
use seta.Core.Finding.{fingerprint_input_injective}
use seta.Core.Target.{
  parse_domain, parse_host, domain_target, to_lower, ascii_name, check_name, check_labels,
  valid_label, all_label_bytes, is_label_byte, split_host_port, parse_port, not_a_domain,
}
use seta.Core.Target.Canonical.{IsCanonical, parse_domain-IsCanonical, parse_domain_idem}
use seta.Tests.Samples.{plain}

parse_high : parse_severity (codes "high") ≡ ok high
unfolding parse_severity
parse_high = refl

parse_severity-severity_string_example :
    parse_severity (severity_string unset)
    ≡ (if is_valid unset then ok unset else err (unknown_severity (severity_string unset)))
parse_severity-severity_string_example = parse_severity-severity_string unset

severity_string-parse_severity_example :
    (is_valid high ≡ true) × (severity_string high ≡ codes "high")
severity_string-parse_severity_example =
    severity_string-parse_severity (codes "high") {s = high} parse_high

fingerprint_input_injective_example :
    (codes "a" ≡ codes "a") × (codes "b" ≡ codes "b") × (◌≡◌ {A = Bytes} (0 ∷ []) (0 ∷ []))
fingerprint_input_injective_example =
    fingerprint_input_injective (codes "a") (codes "b") (0 ∷ []) (codes "a") (codes "b") (0 ∷ [])
      (omega arith) (omega arith) refl

parsed : parse_domain plain (codes " Example.COM. ") ≡ ok (domain_target (codes "example.com"))
unfolding parse_domain trim_space is_empty contains_sub contains_any trim_suffix to_lower ascii_name
    check_name check_labels valid_label split_on all_label_bytes is_label_byte lower_ascii is_ascii
    last_byte
parsed = refl

no_url : parse_domain plain (codes "https://example.com") ≡ err not_a_domain
unfolding parse_domain trim_space is_empty contains_sub contains_any
no_url = refl

host_with_port :
    parse_host plain (codes "api.example.com:8443")
    ≡ ok (record { name = codes "api.example.com"; port = 8443; explicit = true })
unfolding parse_host split_host_port parse_port atoi cut cut_last has_byte parse_domain trim_space
    is_empty contains_sub contains_any trim_suffix to_lower ascii_name check_name check_labels
    valid_label split_on all_label_bytes is_label_byte lower_ascii is_ascii last_byte
host_with_port = refl

parse_domain-IsCanonical_example :
    IsCanonical (codes "example.com")
    × (domain_target (codes "example.com") ≡ domain_target (codes "example.com"))
parse_domain-IsCanonical_example = parse_domain-IsCanonical plain (codes " Example.COM. ") parsed

parse_domain_idem_example :
    parse_domain plain (codes "example.com") ≡ ok (domain_target (codes "example.com"))
parse_domain_idem_example =
    parse_domain_idem plain (codes "example.com") parse_domain-IsCanonical_example.0
