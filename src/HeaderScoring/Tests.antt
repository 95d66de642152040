-- ===== src/HeaderScoring/Tests.antt =====
-- The header score of src/header-scoring.ts on a site with a short HSTS age and no CSP.
use agent_commerce_lab.Prelude.{◌≡◌, refl, ◌↔◌, true, some, none, [], ◌∷◌, map}
use agent_commerce_lab.Prelude.Match.{is_space, trim_start, trim_end, trim, contains_word}
use agent_commerce_lab.Verdict.{high, medium}
use agent_commerce_lab.HeaderScoring.{deduct_when, max_age, score_hsts, has_directive, score_csp}
use agent_commerce_lab.HeaderScoring.Total.{
  HeaderInput, score_xfo, score_xcto, score_referrer_policy, score_permissions_policy, all_headers,
  score_security_headers,
}
use agent_commerce_lab.HeaderScoring.Points.{by_severity, full_score_iff}
use agent_commerce_lab.HeaderScoring.Order.{issues_by_severity}

abbrev site : HeaderInput
site = record {
  used_https = true;
  strict_transport_security = some "max-age = 600; includeSubDomains";
  content_security_policy = none;
  x_frame_options = some " deny ";
  x_content_type_options = some "nosniff";
  referrer_policy = some "Unsafe-URL";
  permissions_policy = some "camera=()";
}

-- 7, 0, 10, 5, 2 and 5 points: 29 of 55 are 53 of 100.
score_test : (score_security_headers site).score ≡ 53
unfolding score_security_headers all_headers score_hsts score_csp score_xfo score_xcto
    score_referrer_policy score_permissions_policy deduct_when max_age has_directive is_space
    trim_start trim_end trim contains_word
score_test = refl

order_test :
    map (λ i. i.severity) (score_security_headers site).issues ≡ high ∷ medium ∷ medium ∷ []
unfolding score_security_headers all_headers score_hsts score_csp score_xfo score_xcto
    score_referrer_policy score_permissions_policy deduct_when max_age has_directive is_space
    trim_start trim_end trim contains_word
order_test = refl

full_score_iff_example :
    ((score_security_headers site).score ≡ 100) ↔ ((score_security_headers site).issues ≡ [])
full_score_iff_example = full_score_iff site refl

issues_by_severity_example :
    (score_security_headers site).issues ≡ by_severity (all_headers site).issues
issues_by_severity_example = issues_by_severity site
