-- ===== src/Tests/Samples.antt =====
-- Checks, targets and findings for the tests.
use seta.Prelude.{[], ◌∷◌, none, codes, ok, pos}
use seta.Core.Severity.{high, unset}
use seta.Core.Finding.{Finding}
use seta.Core.Target.{Target, Unicode, domain_target}
use seta.Core.Check.{Meta, passive}
use seta.Registry.{Check}

abbrev pub spf_meta : Meta
spf_meta = record {
  id = codes "email.spf.missing";
  aliases = codes "email.spf.none" ∷ [];
  group = codes "email";
  title = codes "No SPF";
  description = [];
  remediation = codes "publish one";
  mode = passive;
  severity = high;
  references = none;
  timeout = pos 0;
}

abbrev pub spf_check : Check
spf_check = record { info = spf_meta; run = λ t. ok [] }

abbrev pub site : Target
site = domain_target (codes "a.example")

abbrev pub raw_finding : Finding
raw_finding = record {
  check_id = [];
  target = [];
  subject = codes "mx";
  severity = unset;
  title = [];
  evidence = [];
  remediation = [];
  references = none;
}

-- A case table and a conversion that know nothing.
abbrev pub plain : Unicode
plain = record { to_lower = λ s. s; to_ascii = λ s. none }
