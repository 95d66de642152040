-- ===== src/Verdict.antt =====
-- src/verdict.ts: the pass/fail verdict of a snapshot. A header score comes with its issues; the
-- messages are texts.
pub mod Meaning
mod Tests
use agent_commerce_lab.Prelude.{
  ℕ, Bool, true, false, ◌&&◌, not, Option, none, some, String, List, [], ◌∷◌, ◌++◌, min, any, take,
  length, leb, ltb, ◌==◌, or_else, if◌then◌else◌,
}
use agent_commerce_lab.Prelude.Text.{◌<>◌, decimal, str_eq, truthy}
use agent_commerce_lab.ContentCheck.Types.{
  ContentStatus, Grade, grade_a, grade_b, grade_c, grade_d, grade_f,
}
use text.Mathlib.Text.{starts_with}

pub data Severity : Type 0 where
  high medium low : Severity

pub record HeaderIssue : Type 0 where
  pub header : String
  pub severity : Severity
  pub message : String

pub record HeaderScore : Type 0 where
  pub score : ℕ
  pub grade : Grade
  pub issues : List HeaderIssue

pub record TlsProbeResult : Type 0 where
  pub version : Option String
  pub cipher_suite : Option String
  pub cipher_suite_id : Option String
  pub weak : Bool
  pub error : Option String

pub data VerdictStatus : Type 0 where
  pass warn fail : VerdictStatus

pub record Verdict : Type 0 where
  pub status : VerdictStatus
  pub score : ℕ
  pub summary : String
  pub top_issues : List String

pub record ContentVerdictInput : Type 0 where
  pub score : ℕ
  pub grade : Grade
  pub status : ContentStatus
  pub top_findings : List String

pub record VerdictInput : Type 0 where
  pub http_ok : Bool
  pub http_error : Option String
  pub used_https : Bool
  pub header_score : HeaderScore
  pub tls : TlsProbeResult
  pub content : Option ContentVerdictInput

abbrev pub grade_text : Grade → String
grade_text grade_a = "A"
grade_text grade_b = "B"
grade_text grade_c = "C"
grade_text grade_d = "D"
grade_text grade_f = "F"

abbrev pub content_status_text : ContentStatus → String
content_status_text ContentStatus.pass = "PASS"
content_status_text ContentStatus.warn = "WARN"
content_status_text ContentStatus.fail = "FAIL"

abbrev pub issue_text : HeaderIssue → String
issue_text i = i.header <> ": " <> i.message

abbrev pub is_high : Severity → Bool
is_high high = true
is_high _ = false

abbrev pub is_medium : Severity → Bool
is_medium medium = true
is_medium _ = false

-- `${null}` is the text "null".
abbrev pub nullable_text : Option String → String
nullable_text s = or_else s "null"

-- The first two tests of the issue list.
abbrev pub transport_issues : VerdictInput → List String
transport_issues i =
    (if not i.used_https then "Site is not served over HTTPS." ∷ [] else [])
    ++ (if i.tls.weak
        then ("TLS cipher suite is weak/legacy ("
            <> or_else i.tls.cipher_suite (nullable_text i.tls.cipher_suite_id)
            <> ").")
          ∷ []
        else [])

-- `for (…) if (issue.severity === "high") topIssues.push(…)`
abbrev pub push_high : List String → List HeaderIssue → List String
push_high top [] = top
push_high top (i ∷ is) = push_high (if is_high i.severity then top ++ issue_text i ∷ [] else top) is

-- One round of the loop over medium issues.
abbrev pub push_medium_one : List String → HeaderIssue → List String
push_medium_one top i =
    if is_medium i.severity && not (any (λ t. starts_with t i.header) top)
    then top ++ issue_text i ∷ []
    else top

-- The loop breaks after a round that leaves five issues or more.
abbrev pub push_medium : List String → List HeaderIssue → List String
push_medium top [] = top
push_medium top (i ∷ is) =
    let top' = push_medium_one top i in
    let rest = push_medium top' is in if leb 5 (length top') then top' else rest

abbrev pub header_issues : List String → List HeaderIssue → List String
header_issues top issues =
    let highs = push_high top issues in
    if ltb (length highs) 3 then push_medium highs issues else highs

abbrev pub content_findings : Option ContentVerdictInput → List String
content_findings none = []
content_findings (some c) = c.top_findings

unfoldable pub top_issues_of : VerdictInput → List String
top_issues_of i =
    header_issues (transport_issues i) i.header_score.issues ++ content_findings i.content

abbrev pub cap_when : Bool → ℕ → ℕ → ℕ
cap_when b cap score = if b then min score cap else score

abbrev pub cap_content : Option ContentVerdictInput → ℕ → ℕ
cap_content none score = score
cap_content (some c) score = min score c.score

unfoldable pub blended_score : VerdictInput → ℕ
blended_score i = cap_content i.content (
    cap_when (not i.http_ok) 40
      (cap_when i.tls.weak 60 (cap_when (not i.used_https) 20 i.header_score.score)))

abbrev pub status_of : ℕ → List String → VerdictStatus
status_of score top =
    if leb 75 score && length top == 0 then pass else if leb 40 score then warn else fail

abbrev pub count_text : List String → String
count_text top =
    decimal (length top) <> " issue" <> (if length top == 1 then "" else "s") <> " found. "

abbrev pub grade_and_score : Grade → ℕ → String
grade_and_score g n = grade_text g <> " (" <> decimal n <> "/100"

abbrev pub header_summary : VerdictInput → String
header_summary i = grade_and_score i.header_score.grade i.header_score.score <> ")."

abbrev pub clean_summary : VerdictStatus → VerdictInput → List String → String
clean_summary pass i top = "No material security issues found. Header grade " <> header_summary i
clean_summary _ i top = count_text top <> "Header grade " <> header_summary i

abbrev pub summary_of :
    Option ContentVerdictInput → VerdictStatus → VerdictInput → List String → String
summary_of none status i top = clean_summary status i top
summary_of (some c) status i top =
    count_text top
    <> "Content grade "
    <> grade_and_score c.grade c.score
    <> ", "
    <> content_status_text c.status
    <> "); header grade "
    <> header_summary i

abbrev pub unreachable : String → Verdict
unreachable e = record {
  status = fail;
  score = 0;
  summary = "Target unreachable: " <> e;
  top_issues = e ∷ [];
}

unfoldable pub build_verdict : VerdictInput → Verdict
build_verdict i =
    let top = top_issues_of i in
    let score = blended_score i in
    let status = status_of score top in
    if truthy i.http_error then unreachable (or_else i.http_error "") else record {
      status = status;
      score = score;
      summary = summary_of i.content status i top;
      top_issues = take 5 top;
    }
