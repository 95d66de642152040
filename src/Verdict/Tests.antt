-- ===== src/Verdict/Tests.antt =====
-- The verdict of src/verdict.ts on a good site whose content fails.
use agent_commerce_lab.Prelude.{◌≡◌, ◌↔◌, true, false, some, none, [], ◌∷◌}
use agent_commerce_lab.ContentCheck.Types.{
  ContentFinding, figure_mismatch, critical, high, grade_a, grade_d,
}
use agent_commerce_lab.ContentCheck.Types
use agent_commerce_lab.Verdict.{VerdictInput, ContentVerdictInput, pass, build_verdict}
use agent_commerce_lab.Verdict.Meaning.{IsClean, pass_iff}

abbrev content : ContentVerdictInput
content = record {
  score = 35;
  grade = grade_d;
  status = Types.fail;
  top_findings = "Wrong rate" ∷ [];
}

abbrev site : VerdictInput
site = record {
  http_ok = true;
  http_error = none;
  used_https = true;
  header_score = record { score = 100; grade = grade_a; issues = [] };
  tls = record {
    version = some "TLSv1.3";
    cipher_suite = none;
    cipher_suite_id = none;
    weak = false;
    error = none;
  };
  content = some content;
}

pass_iff_example : ((build_verdict site).status ≡ pass) ↔ IsClean site
pass_iff_example = pass_iff site
