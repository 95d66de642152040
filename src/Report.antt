-- ===== src/Report.antt =====
-- src/report.ts: the digest of a domain, a text of lines.
mod Tests
use agent_commerce_lab.Prelude.{
  ℕ, Bool, true, false, Option, none, some, String, List, [], ◌∷◌, ◌++◌, map, or_else, length,
  if◌then◌else◌,
}
use agent_commerce_lab.Prelude.Int.{ℤ}
use agent_commerce_lab.Prelude.Text.{◌<>◌, decimal, is_empty}
use agent_commerce_lab.Verdict.{VerdictStatus, grade_text, content_status_text}
use agent_commerce_lab.Verdict
use agent_commerce_lab.ContentCheck.Types.{ContentFinding, ContentFindingType, ContentResult}
use agent_commerce_lab.ContentCheck.Classify.{join}
use agent_commerce_lab.History.Types.{Materiality, critical, material, informational, ChangedField}
use agent_commerce_lab.History.Diff.{finding_type_text}
use agent_commerce_lab.History.Lists.{SnapshotSummary, ChangeEntry}
use agent_commerce_lab.Alerting.{delta_text}
use agent_commerce_lab.Snapshot.Assemble.{content_severity_text}

pub record DigestInput : Type 0 where
  pub domain : String
  pub generated_at : String
  pub latest : Option SnapshotSummary
  pub content : Option ContentResult
  pub changes : List ChangeEntry
  pub history_count : ℕ

abbrev pub verdict_text : VerdictStatus → String
verdict_text VerdictStatus.pass = "PASS"
verdict_text VerdictStatus.warn = "WARN"
verdict_text VerdictStatus.fail = "FAIL"

abbrev pub tier_text : Materiality → String
tier_text critical = "critical"
tier_text material = "material"
tier_text informational = "informational"

abbrev pub tier_or : String → Option Materiality → String
tier_or default none = default
tier_or default (some m) = tier_text m

abbrev pub out_of_100 : ℕ → String
out_of_100 n = decimal n <> "/100"

abbrev pub content_line : Option ContentResult → List String
content_line none = []
content_line (some c) =
    ("- Content accuracy: **"
      <> content_status_text c.status
      <> "** ("
      <> out_of_100 c.score
      <> ", grade "
      <> grade_text c.grade
      <> ", "
      <> decimal c.scope.pages_scanned
      <> " page(s) scanned)")
    ∷ []

abbrev pub state_lines : DigestInput → SnapshotSummary → List String
state_lines input s =
    ("## Current state"
      ∷ ("- Verdict: **"
          <> verdict_text s.verdict_status
          <> "** ("
          <> out_of_100 s.verdict_score
          <> ")")
      ∷ [])
    ++ (content_line input.content
        ++ (("- Security headers: grade "
              <> grade_text s.header_grade
              <> " ("
              <> out_of_100 s.header_score
              <> ")")
            ∷ ("- Snapshots recorded: " <> decimal input.history_count)
            ∷ ("- Latest scan: " <> s.scanned_at)
            ∷ ""
            ∷ []))

-- `f.pagePath ? … : ""`
abbrev pub page_part : Option String → String
page_part none = ""
page_part (some p) = if is_empty p then "" else " | page " <> p

abbrev pub finding_line : ContentFinding → String
finding_line f =
    "- ["
    <> content_severity_text f.severity
    <> "] "
    <> finding_type_text f.kind
    <> " | "
    <> f.fact_key
    <> page_part f.page_path
    <> " | claim "
    <> or_else f.claim "—"
    <> " | "
    <> f.message

abbrev pub finding_lines : List ContentFinding → List String
finding_lines [] = "## Content findings (latest scan)" ∷ "- none" ∷ "" ∷ []
finding_lines (f ∷ fs) =
    "## Content findings (latest scan)" ∷ (map finding_line (f ∷ fs) ++ "" ∷ [])

abbrev pub content_lines : Option ContentResult → List String
content_lines none = []
content_lines (some c) = finding_lines c.findings

abbrev pub field_text : ChangedField → String
field_text f = f.field_name <> " (" <> tier_text f.materiality <> ")"

abbrev pub fields_text : List ChangedField → String
fields_text fields =
    let text = join ", " (map field_text fields) in if is_empty text then "no fields" else text

abbrev pub bool_text : Bool → String
bool_text b = if b then "true" else "false"

-- `c.scoreDelta ?? "n/a"`
abbrev pub delta_or : Option ℤ → String
delta_or none = "n/a"
delta_or (some d) = delta_text (some d)

abbrev pub change_line : ChangeEntry → String
change_line c =
    "- "
    <> c.detected_at
    <> " ["
    <> tier_or "n/a" c.materiality
    <> "] "
    <> fields_text c.changed_fields
    <> " | score delta "
    <> delta_or c.score_delta
    <> " | verdict moved "
    <> bool_text c.verdict_moved

abbrev pub change_lines : List ChangeEntry → List String
change_lines [] = []
change_lines (c ∷ cs) =
    ("## Detected changes (latest " <> decimal (length (c ∷ cs)) <> ")")
    ∷ (map change_line (c ∷ cs) ++ "" ∷ [])

abbrev pub body_lines : DigestInput → Option SnapshotSummary → List String
body_lines input none = "No snapshots recorded for this domain yet." ∷ "" ∷ []
body_lines input (some s) =
    state_lines input s
    ++ (content_lines input.content
        ++ (change_lines input.changes
            ++ "---"
              ∷ "*Evidence is reproducible via GET /history and GET /changes for this domain.*" ∷ ""
              ∷ []))

unfoldable pub build_digest : DigestInput → String
build_digest input = join "\n" (
    ("# SiteHealth Passport — " <> input.domain)
    ∷ ("_Generated " <> input.generated_at <> " UTC_")
    ∷ ""
    ∷ body_lines input input.latest)
