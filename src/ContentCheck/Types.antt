-- ===== src/ContentCheck/Types.antt =====
-- The types of src/content-check.ts, and its severity and confidence rules.
use agent_commerce_lab.Prelude.{
  ℕ, Bool, true, false, ◌&&◌, Option, String, List, leb, ◌==◌, if◌then◌else◌,
}
use agent_commerce_lab.GroundTruth.{
  ImpactClass, money, compliance_deadline, compliance_threshold, informational_impact,
}

pub data ContentFindingType : Type 0 where
  figure_mismatch figure_stale cross_page_contradiction absent_required_figure : ContentFindingType

pub data ContentSeverity : Type 0 where
  critical material informational : ContentSeverity

pub data ContentConfidence : Type 0 where
  high medium low : ContentConfidence

pub data ContentStatus : Type 0 where
  pass warn fail : ContentStatus

pub data Grade : Type 0 where
  grade_a grade_b grade_c grade_d grade_f : Grade

pub record ContentFinding : Type 0 where
  pub kind : ContentFindingType
  pub fact_key : String
  pub severity : ContentSeverity
  pub confidence : ContentConfidence
  pub page_path : Option String
  pub claim : Option String
  pub ground_truth : Option String
  pub superseded_by : Option String
  pub message : String

pub record ContentScope : Type 0 where
  pub pages_scanned : ℕ
  pub pages_planned : ℕ
  pub sitemap_found : Bool
  pub truncated : Bool

pub record ContentFactObservation : Type 0 where
  pub claims : List String
  pub pages : List String
  pub impact : ImpactClass

pub record ContentResult : Type 0 where
  pub scope : ContentScope
  pub facts : List (String × ContentFactObservation)
  pub findings : List ContentFinding
  pub score : ℕ
  pub grade : Grade
  pub status : ContentStatus

pub data ClaimKind : Type 0 where
  value_claim context_claim : ClaimKind

pub record RawClaim : Type 0 where
  pub fact_key : String
  pub raw : String
  pub normalized : String
  pub kind : ClaimKind
  pub page_path : String

pub record PageContent : Type 0 where
  pub page_path : String
  pub text : String
  pub claims : List RawClaim

-- `impact === "money" || impact === "compliance-deadline"`
abbrev pub is_money_or_deadline : ImpactClass → Bool
is_money_or_deadline money = true
is_money_or_deadline compliance_deadline = true
is_money_or_deadline _ = false

unfoldable pub severity_for_impact : ImpactClass → ContentSeverity
severity_for_impact money = critical
severity_for_impact compliance_deadline = critical
severity_for_impact compliance_threshold = material
severity_for_impact informational_impact = informational

unfoldable pub confidence_for : ℕ → Bool → Bool → ContentConfidence
confidence_for source_tier exact ambiguous =
    if ambiguous
    then low
    else if leb source_tier 2 && exact
    then high
    else if source_tier == 3
    then medium
    else low
