-- ===== src/Tests/EmailTests.antt =====
-- Tests and instances for checks/email.
use seta.Prelude.{
  trim_left, trim_right, ◌≤◌, ◌≡◌, refl, true, false, [], ◌∷◌, none, ◌==◌, codes, length, Pairs,
  pos, negsuc, ok, arith, atoi, contains_sub, cut, cut_last, cut_prefix, digits_from, has_byte,
  has_prefix, is_ascii, is_digit, is_empty, is_lower, is_space, is_space_pair, is_space_triple,
  is_upper, last_byte, lower, lower_ascii, parse_uint, split_on, trim_prefix, trim_space,
  trim_suffix, All,
}
use seta.Dns.{txt, type_txt, canonical_name, concat_strings, mx_in, records, txt_in}
use seta.Email.Tags.{Tag, parse_tags, is_alpha, is_name_byte, is_valid_name, parse_parts, parse_tag}
use seta.Email.Tags.Read.{AreTags, parse_tags-AreTags}
use seta.Email.Tags.Print.{print_tags, parse_tags-print}
use seta.Email.Spf.{Addresses, Mechanism, Record, all_of, counts_lookup, is_spf, show_mechanism}
use seta.Email.Spf.Parse.{
  parse_spf, behind_colon, cut_slashes, domain_spec, fields, parse_cidr_len, parse_dual_cidr,
  parse_host_term, parse_kind_term, parse_mechanism, parse_named, parse_optional, parse_terms,
  parse_unqualified, span_name, split_kind, split_modifier, split_slash, split_spaces,
}
use seta.Email.Spf.Bounds.{IsMechanism, parse_spf-AreMechanisms}
use seta.Email.Spf.Eval.{
  World, Evaluation, add_problem, add_void, count_lookup, count_queries, must_stop, push_cost,
  set_incomplete, set_last, update_last,
}
use seta.Email.Spf.Eval.Walk.{
  evaluate, address_lookups, charged, deeper, descend, dispatch, fetch, finish, follow, is_nil,
  mechanism, mechanisms_loop, mx_lookup, passes_all, redirect_step, target_of, walk, walk_with,
}
use seta.Email.Spf.Eval.Invariant.{Differ, total}
use seta.Email.Spf.Eval.Bounds.{lookups-evaluate, total-evaluate, voids-evaluate}
use seta.Core.Target.{to_lower}
use seta.Email.Spf.Macro.{
  are_delimiters, are_label_bytes, check_body, has_alpha, has_macro, is_top_label, macro_letters,
  macro_loop, parse_macro_string, skip_digits, skip_reverse, validate_domain_spec,
}
use seta.Tests.Samples.{plain}

abbrev version : Tag
version = record { name = codes "v"; value = codes "STSv1" }

abbrev id : Tag
id = record { name = codes "id"; value = codes "2024" }

version_read : parse_tags false (codes "v=STSv1; id=2024;") ≡ ok (version ∷ id ∷ [])
unfolding parse_tags parse_parts parse_tag is_valid_name is_alpha is_name_byte split_on is_empty
    trim_space cut is_lower ◌==◌
version_read = refl

parse_tags-AreTags_example : AreTags false [] (version ∷ id ∷ [])
parse_tags-AreTags_example =
    parse_tags-AreTags false (codes "v=STSv1; id=2024;") (version ∷ id ∷ []) version_read

parse_tags-print_example : parse_tags true (print_tags version (id ∷ [])) ≡ ok (version ∷ id ∷ [])
unfolding is_valid_name is_alpha is_name_byte is_lower lower_ascii trim_left trim_right is_space
    is_space_pair is_space_triple ◌==◌
parse_tags-print_example =
    parse_tags-print true version (id ∷ []) ((refl, λ _. refl), refl, ((refl, λ _. refl), refl, tt))
      (
        ((omega arith, (omega arith, (omega arith, (omega arith, (omega arith, tt))))), refl, refl),
        (((omega arith, (omega arith, (omega arith, (omega arith, tt)))), refl, refl), tt),
      )

abbrev no_addresses : Addresses
no_addresses = record { parse_addr = λ s. none; show_prefix = λ a n. [] }

abbrev mx_hosts : Mechanism
mx_hosts = record {
  qualifier = b'~';
  kind = codes "mx";
  domain = codes "b.example";
  network = none;
  cidr4 = pos 24;
  cidr6 = pos 64;
}

abbrev spf_record : Record
spf_record = record {
  raw = codes "v=spf1 ~mx:b.example/24//64";
  mechanisms = mx_hosts ∷ [];
  redirect = [];
  exp = [];
}

spf_read : parse_spf plain no_addresses (codes "v=spf1 ~mx:b.example/24//64") ≡ ok spf_record
unfolding parse_spf is_spf parse_terms fields split_spaces split_modifier span_name parse_mechanism
    parse_unqualified behind_colon cut_slashes domain_spec parse_cidr_len parse_dual_cidr
    parse_host_term parse_kind_term parse_named parse_optional split_kind split_slash cut_prefix
    lower_ascii is_space is_empty is_space_pair is_space_triple is_lower ◌==◌ atoi contains_sub cut
    cut_last digits_from has_byte has_prefix is_ascii is_digit is_upper last_byte lower parse_uint
    trim_prefix trim_suffix is_alpha to_lower are_delimiters are_label_bytes check_body has_alpha
    is_top_label macro_letters macro_loop parse_macro_string skip_digits skip_reverse
    validate_domain_spec
spf_read = refl

parse_spf-AreMechanisms_example : All IsMechanism (mx_hosts ∷ [])
parse_spf-AreMechanisms_example =
    parse_spf-AreMechanisms plain no_addresses (codes "v=spf1 ~mx:b.example/24//64") spf_record
      spf_read

-- Every name has one record that includes the same name.
abbrev circle : World
circle = record {
  unicode = plain;
  net = no_addresses;
  fqdn = λ s. s;
  describe = λ e. [];
  resolver = λ name qtype. ok (record {
    name = name;
    qtype = qtype;
    rcode = 0;
    answer = record { rrtype = type_txt; rdata = txt (codes "v=spf1 include:c.d mx" ∷ []) } ∷ [];
  });
}

abbrev includes : Record
includes = record {
  raw = codes "v=spf1 include:c.d";
  mechanisms =
      record {
        qualifier = b'+';
        kind = codes "include";
        domain = codes "c.d";
        network = none;
        cidr4 = negsuc 0;
        cidr6 = negsuc 0;
      }
      ∷ [];
  redirect = [];
  exp = [];
}

abbrev went : Evaluation
went = record {
  lookups = 3;
  void_lookups = 1;
  cost = record { term = codes "include:c.d"; lookups = 3 } ∷ [];
  voids = codes "mx" ∷ [];
  problems =
      record {
        at = codes "include:c.d";
        msg = codes "include:c.d loops back to a record already being evaluated (permerror)";
      }
      ∷ [];
  permissive_includes = [];
  effective = none;
  unexpanded = [];
  incomplete = false;
}

evaluated : evaluate circle (codes "a.example") includes ≡ ok went
unfolding parse_spf is_spf parse_terms fields split_spaces split_modifier span_name parse_mechanism
    parse_unqualified behind_colon cut_slashes domain_spec parse_cidr_len parse_dual_cidr
    parse_host_term parse_kind_term parse_named parse_optional split_kind split_slash cut_prefix
    lower_ascii is_space is_empty is_space_pair is_space_triple is_lower ◌==◌ atoi contains_sub cut
    cut_last digits_from has_byte has_prefix is_ascii is_digit is_upper last_byte lower parse_uint
    trim_prefix trim_suffix is_alpha to_lower are_delimiters are_label_bytes check_body has_alpha
    is_top_label macro_letters macro_loop parse_macro_string skip_digits skip_reverse
    validate_domain_spec evaluate walk walk_with mechanisms_loop charged mechanism dispatch follow
    deeper descend fetch finish address_lookups mx_lookup passes_all is_nil target_of redirect_step
    counts_lookup all_of show_mechanism has_macro add_void add_problem set_incomplete count_lookup
    count_queries push_cost update_last set_last must_stop canonical_name txt_in mx_in records
    concat_strings
evaluated = refl

lookups-evaluate_example : went.lookups ≤ 61
lookups-evaluate_example = lookups-evaluate circle (codes "a.example") includes went evaluated

total-evaluate_example : total went.cost ≡ went.lookups
total-evaluate_example = total-evaluate circle (codes "a.example") includes went evaluated

voids-evaluate_example : (length went.voids ≡ went.void_lookups) × Pairs Differ went.problems
voids-evaluate_example = voids-evaluate circle (codes "a.example") includes went evaluated
