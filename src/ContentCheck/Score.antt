-- ===== src/ContentCheck/Score.antt =====
-- `scoreContent` of src/content-check.ts. The score only falls, so stopping at 0 on the way is the
-- `Math.max(0, score)` at the end of the deductions.
pub mod Cap
use agent_commerce_lab.Prelude.{
  ℕ, ◌+◌, ◌-◌, Bool, true, false, ◌&&◌, ◌||◌, not, Option, none, some, String, List, [], ◌∷◌, any,
  find, min, leb, ltb, if◌then◌else◌,
}
use agent_commerce_lab.Prelude.Text.{str_eq}
use agent_commerce_lab.GroundTruth.{GroundTruthFact}
use agent_commerce_lab.ContentCheck.Types.{
  ContentFinding, ContentSeverity, critical, material, informational, ContentStatus, pass, warn,
  fail, Grade, grade_a, grade_b, grade_c, grade_d, grade_f, is_money_or_deadline,
}

pub record ContentScore : Type 0 where
  pub score : ℕ
  pub grade : Grade
  pub status : ContentStatus

abbrev pub points_of : ContentSeverity → ℕ
points_of critical = 30
points_of material = 15
points_of informational = 5

abbrev pub deduct : ℕ → List ContentFinding → ℕ
deduct score [] = score
deduct score (f ∷ fs) = deduct (score - points_of f.severity) fs

abbrev pub is_critical : ContentSeverity → Bool
is_critical critical = true
is_critical _ = false

abbrev pub is_material : ContentSeverity → Bool
is_material material = true
is_material _ = false

abbrev pub fact_is_money_or_deadline : Option GroundTruthFact → Bool
fact_is_money_or_deadline none = false
fact_is_money_or_deadline (some f) = is_money_or_deadline f.impact_class

-- `f.severity === "critical"`, and the first fact of its key is of a money or deadline class.
abbrev pub is_capping : List GroundTruthFact → ContentFinding → Bool
is_capping facts f =
    is_critical f.severity
    && fact_is_money_or_deadline (find (λ x. str_eq x.fact_key f.fact_key) facts)

abbrev pub grade_of : ℕ → Grade
grade_of score =
    if leb 90 score
    then grade_a
    else if leb 75 score
    then grade_b
    else if leb 55 score
    then grade_c
    else if leb 35 score
    then grade_d
    else grade_f

unfoldable pub content_score : List GroundTruthFact → List ContentFinding → ℕ
content_score facts findings =
    let score = deduct 100 findings in
    if any (is_capping facts) findings then min score 35 else score

unfoldable pub score_content : List GroundTruthFact → List ContentFinding → ContentScore
score_content facts findings =
    let score = content_score facts findings in
    let serious = any (λ f. is_critical f.severity || is_material f.severity) findings in
    record {
      score = score;
      grade = grade_of score;
      status = if ltb score 40 then fail else if leb 75 score && not serious then pass else warn;
    }
