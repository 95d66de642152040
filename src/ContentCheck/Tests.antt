-- ===== src/ContentCheck/Tests.antt =====
-- The scoring of src/content-check.ts with one critical finding on a VAT rate.
use agent_commerce_lab.Prelude.{
  ◌-◌, ◌≤◌, ◌≡◌, ◌↔◌, ◌||◌, false, some, none, [], ◌∷◌, any, min, if◌then◌else◌,
}
use agent_commerce_lab.GroundTruth.{GroundTruthFact, money}
use agent_commerce_lab.ContentCheck.Types.{ContentFinding, figure_mismatch, critical, high, pass}
use agent_commerce_lab.ContentCheck.Score.{
  is_capping, is_critical, is_material, content_score, score_content,
}
use agent_commerce_lab.ContentCheck.Score.Cap.{total_points, content_score_lem, content_pass_iff}

abbrev pub vat_rate : GroundTruthFact
vat_rate = record {
  fact_key = "vat_rate";
  label = "VAT rate";
  value = "15";
  unit = some "%";
  jurisdiction = "ZA";
  impact_class = money;
  applies_from = "2018-04-01";
  applies_until = none;
  source_tier = 1;
  source_ref = "act";
  approved_by = "a";
  approved_at = "2026-01-01";
  notes = none;
}

abbrev pub wrong_rate : ContentFinding
wrong_rate = record {
  kind = figure_mismatch;
  fact_key = "vat_rate";
  severity = critical;
  confidence = high;
  page_path = some "/pricing";
  claim = some "16%";
  ground_truth = some "15";
  superseded_by = none;
  message = "wrong rate";
}

content_score_lem_example : content_score (vat_rate ∷ []) (wrong_rate ∷ []) ≡ (
    if any (is_capping (vat_rate ∷ [])) (wrong_rate ∷ [])
    then min (100 - total_points (wrong_rate ∷ [])) 35
    else 100 - total_points (wrong_rate ∷ []))
content_score_lem_example = content_score_lem (vat_rate ∷ []) (wrong_rate ∷ [])

content_pass_iff_example : ((score_content (vat_rate ∷ []) (wrong_rate ∷ [])).status ≡ pass) ↔ (
    (any (λ f. is_critical f.severity || is_material f.severity) (wrong_rate ∷ []) ≡ false)
    × (total_points (wrong_rate ∷ []) ≤ 25))
content_pass_iff_example = content_pass_iff (vat_rate ∷ []) (wrong_rate ∷ [])
