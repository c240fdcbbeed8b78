-- ===== src/Tests/PolicyTests.antt =====
-- Tests and instances for the policies of checks/email/internal.
use seta.Prelude.{
  ◌≡◌, ◌≢◌, refl, true, [], ◌∷◌, some, none, ok, Bytes, codes, ◌↔◌, atoi, cut, cut_prefix,
  digits_from, has_byte, is_ascii, is_digit, is_empty, is_lower, is_upper, last_byte, lower,
  lower_ascii, parse_uint, split_on, trim_left, trim_prefix, trim_right, trim_space, trim_suffix,
  ◌==◌,
}
use seta.Core.Target.{to_lower}
use seta.Email.Tags.{parse_tags, is_alpha, is_name_byte, is_valid_name, parse_parts, parse_tag}
use seta.Email.Mtasts.{
  Policy, parse_policy, matches_mx, host_name, check_required, is_alnum, is_label, is_mode,
  is_pattern, parse_lines, parse_max_age, set_field, trim_returns,
}
use seta.Email.Mtasts.Matching.{IsCovered, matches_mx_iff}
use seta.Email.Mtasts.Policies.{IsPolicy, parse_policy-IsPolicy}
use seta.Email.Dmarc.{
  ParseAddress, is_dmarc, parse_dmarc, reject, blank, default_policy, parse_pct, set_policy,
  set_tag, set_tags,
}
use seta.Email.Dmarc.Records.{IsValidRecord, parse_dmarc-IsValidRecord}
use seta.Email.Dmarc.InRange.{parse_tags-in_range}
use seta.Tests.Samples.{plain}

matches_mx_iff_example :
    (matches_mx plain (codes "*.b.example") (codes "mx.b.example.") ≡ true)
    ↔ IsCovered (codes "*.b.example") (host_name plain (codes "mx.b.example."))
matches_mx_iff_example = matches_mx_iff plain (codes "*.b.example") (codes "mx.b.example.")

matched : matches_mx plain (codes "*.b.example") (codes "mx.b.example.") ≡ true
unfolding matches_mx host_name cut_prefix cut is_empty trim_suffix ◌==◌ is_ascii lower_ascii lower
    is_upper to_lower
matched = refl

abbrev enforced : Policy
enforced = record { mode = codes "enforce"; max_age = 600; mx = codes "*.b.example" ∷ [] }

abbrev body : Bytes
body = codes "version: STSv1\nmode: enforce\r\nmx: *.b.example.\nmax_age: 600\n"

policy_read : parse_policy plain body ≡ ok enforced
unfolding parse_policy parse_lines set_field check_required is_pattern is_label is_alnum
    trim_returns is_mode parse_max_age split_on cut trim_space trim_left trim_right is_empty
    trim_suffix trim_prefix cut_prefix ◌==◌ is_ascii lower_ascii lower is_upper is_lower is_digit
    atoi parse_uint digits_from has_byte last_byte to_lower is_alpha
policy_read = refl

parse_policy-IsPolicy_example : IsPolicy plain enforced
parse_policy-IsPolicy_example = parse_policy-IsPolicy plain body enforced policy_read

abbrev no_mail : ParseAddress
no_mail s = none

abbrev dmarc : Bytes
dmarc = codes "v=DMARC1; p=reject; pct=50"

abbrev rejected : seta.Email.Dmarc.Record
rejected = record (blank plain no_mail dmarc) { p = some reject; pct = 50 }

dmarc_read : parse_dmarc plain no_mail dmarc ≡ ok rejected
unfolding is_dmarc parse_dmarc set_tags set_tag set_policy seta.Email.Dmarc.parse_policy
    default_policy parse_pct split_on cut trim_space trim_left trim_right is_empty ◌==◌ is_ascii
    lower_ascii lower is_upper is_lower is_digit atoi parse_uint digits_from to_lower parse_tags
    parse_parts parse_tag is_valid_name is_alpha is_name_byte
dmarc_read = refl

parse_dmarc-IsValidRecord_example : IsValidRecord rejected
parse_dmarc-IsValidRecord_example =
    parse_dmarc-IsValidRecord plain no_mail dmarc rejected dmarc_read

dmarc_seen : is_dmarc dmarc ≡ true
unfolding is_dmarc cut trim_space trim_left trim_right is_empty lower_ascii lower is_upper ◌==◌
dmarc_seen = refl

parse_tags-in_range_example : parse_tags true dmarc ≢ ok []
parse_tags-in_range_example = parse_tags-in_range dmarc dmarc_seen
