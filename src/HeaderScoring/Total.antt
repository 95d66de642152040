-- ===== src/HeaderScoring/Total.antt =====
-- src/header-scoring.ts: the four headers with fixed values, the total and the order of the issues.
use agent_commerce_lab.Prelude.{
  ℕ, ◌+◌, ◌*◌, ◌/◌, Bool, ◌||◌, not, Option, String, List, [], ◌∷◌, ◌++◌, map, leb, if◌then◌else◌,
}
use agent_commerce_lab.Prelude.Text.{◌<>◌}
use agent_commerce_lab.Prelude.Match.{codes, fold_upper, fold_lower, trim, begins_with, same_text}
use agent_commerce_lab.ContentCheck.Score.{grade_of}
use agent_commerce_lab.Verdict.{Severity, high, medium, low, HeaderIssue, HeaderScore}
use agent_commerce_lab.HeaderScoring.{
  Part, issue, full_marks, unless_missing, score_hsts, score_csp,
}

abbrev partial_marks : ℕ → HeaderIssue → Part
partial_marks n i = record { points = n; issues = i ∷ [] }

abbrev pub trimmed_upper : String → List ℕ
trimmed_upper value = map fold_upper (trim (codes value))

abbrev pub trimmed_lower : String → List ℕ
trimmed_lower value = map fold_lower (trim (codes value))

abbrev pub xfo_value : String → Part
xfo_value value =
    if same_text (trimmed_upper value) (codes "DENY")
      || same_text (trimmed_upper value) (codes "SAMEORIGIN")
    then full_marks 10
    else if begins_with (codes "ALLOW-FROM") (trimmed_upper value)
    then partial_marks 2 (
        issue "X-Frame-Options" low
          "Uses deprecated ALLOW-FROM syntax, unsupported by modern browsers — behaves as if the header were absent in Chrome/Firefox/Edge.")
    else partial_marks 0 (
        issue "X-Frame-Options" medium
          ("Unrecognized value \"" <> value <> "\" — browsers may ignore it entirely."))

unfoldable pub score_xfo : Option String → Part
score_xfo value =
    unless_missing
      (issue "X-Frame-Options" medium
        "Missing — clickjacking exposure (unless CSP frame-ancestors covers it).")
      xfo_value value

abbrev pub xcto_value : String → Part
xcto_value value =
    if not (same_text (trimmed_lower value) (codes "nosniff"))
    then partial_marks 0 (
        issue "X-Content-Type-Options" low
          ("Present but value is \"" <> value <> "\", not \"nosniff\" — has no effect."))
    else full_marks 5

unfoldable pub score_xcto : Option String → Part
score_xcto value =
    unless_missing (issue "X-Content-Type-Options" low "Missing — allows MIME-sniffing.") xcto_value
      value

abbrev pub referrer_value : String → Part
referrer_value value =
    if same_text (trimmed_lower value) (codes "unsafe-url")
      || same_text (trimmed_lower value) (codes "no-referrer-when-downgrade")
    then partial_marks 2 (
        issue "Referrer-Policy" medium (
          "Set to \"" <> value
          <> "\" — leaks the full URL (including any query-string secrets/tokens) to third-party destinations."))
    else full_marks 5

unfoldable pub score_referrer_policy : Option String → Part
score_referrer_policy value =
    unless_missing
      (issue "Referrer-Policy" low
        "Missing — defaults to the browser's own policy (often leaks full referrer to third parties).")
      referrer_value value

unfoldable pub score_permissions_policy : Option String → Part
score_permissions_policy value =
    unless_missing
      (issue "Permissions-Policy" low
        "Missing — browser features (camera, mic, geolocation, etc.) are left at default, not explicitly locked down.")
      (λ v. full_marks 5) value

pub record HeaderInput : Type 0 where
  pub used_https : Bool
  pub strict_transport_security : Option String
  pub content_security_policy : Option String
  pub x_frame_options : Option String
  pub x_content_type_options : Option String
  pub referrer_policy : Option String
  pub permissions_policy : Option String

-- Two headers one after the other: the points are added, the issues pushed behind.
infixl 60 ◌then_add◌
abbrev pub ◌then_add◌ : Part → Part → Part
p then_add q = record { points = p.points + q.points; issues = p.issues ++ q.issues }

unfoldable pub all_headers : HeaderInput → Part
all_headers input =
    score_hsts input.used_https input.strict_transport_security
    then_add score_csp input.content_security_policy
    then_add score_xfo input.x_frame_options
    then_add score_xcto input.x_content_type_options
    then_add score_referrer_policy input.referrer_policy
    then_add score_permissions_policy input.permissions_policy

abbrev pub severity_rank : Severity → ℕ
severity_rank high = 0
severity_rank medium = 1
severity_rank low = 2

-- The array sort is stable: an issue goes in front of the later ones of its rank.
abbrev pub insert_issue : HeaderIssue → List HeaderIssue → List HeaderIssue
insert_issue i [] = i ∷ []
insert_issue i (j ∷ js) =
    let rest = insert_issue i js in
    if leb (severity_rank i.severity) (severity_rank j.severity) then i ∷ j ∷ js else j ∷ rest

abbrev pub sort_issues : List HeaderIssue → List HeaderIssue
sort_issues [] = []
sort_issues (i ∷ is) = insert_issue i (sort_issues is)

-- `Math.round((points / 55) * 100)`. The exact value never ends in a half, as 11 is odd.
abbrev pub percent_of_55 : ℕ → ℕ
percent_of_55 points = (points * 40 + 11) / 22

unfoldable pub score_security_headers : HeaderInput → HeaderScore
unfolding all_headers
score_security_headers input =
    let p = all_headers input in
    record {
      score = percent_of_55 p.points;
      grade = grade_of (percent_of_55 p.points);
      issues = sort_issues p.issues;
    }
