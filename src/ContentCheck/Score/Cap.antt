-- ===== src/ContentCheck/Score/Cap.antt =====
-- The hard cap of src/content-check.ts and what each status means.
use agent_commerce_lab.Prelude.{
  ℕ, ◌+◌, ◌-◌, ◌≤◌, ◌≡◌, refl, ◌⊎◌, ◌↔◌, Bool, true, false, ◌||◌, List, [], ◌∷◌, arith, any, min,
  if◌then◌else◌,
}
use agent_commerce_lab.GroundTruth.{GroundTruthFact}
use agent_commerce_lab.ContentCheck.Types.{ContentFinding, pass, fail, grade_d, grade_f}
use agent_commerce_lab.ContentCheck.Score.{
  points_of, deduct, is_critical, is_material, is_capping, content_score, score_content,
}

-- The points that all findings cost together.
abbrev pub total_points : List ContentFinding → ℕ
total_points [] = 0
total_points (f ∷ fs) = points_of f.severity + total_points fs

deduct-eq : (score : ℕ) (fs : List ContentFinding) → deduct score fs ≡ score - total_points fs
deduct-eq score [] = omega arith
deduct-eq score (f ∷ fs) = omega (arith, deduct-eq (score - points_of f.severity) fs)

-- The score is what 100 points leave after all deductions, at most 35 if a critical finding is on a
-- money or deadline fact.
pub content_score_lem :
    (facts : List GroundTruthFact) (findings : List ContentFinding)
    → content_score facts findings ≡ (
        if any (is_capping facts) findings
        then min (100 - total_points findings) 35
        else 100 - total_points findings)
unfolding content_score
content_score_lem facts findings = rw (deduct-eq 100 findings) refl

abbrev is_serious : ContentFinding → Bool
is_serious f = is_critical f.severity || is_material f.severity

serious_of_capping :
    (facts : List GroundTruthFact) (fs : List ContentFinding)
    → any is_serious fs ≡ false
    → any (is_capping facts) fs ≡ false
serious_of_capping facts [] h = refl
serious_of_capping facts (f ∷ fs) h = ground (arith, serious_of_capping facts fs)

-- A critical finding on a money or deadline fact makes the score 35 at most, the grade D or F, and
-- the status FAIL.
pub capped_fails :
    (facts : List GroundTruthFact) (findings : List ContentFinding)
    → any (is_capping facts) findings ≡ true
    → let r = score_content facts findings in
      (r.score ≤ 35) × (r.status ≡ fail) × ((r.grade ≡ grade_d) ⊎ (r.grade ≡ grade_f))
unfolding score_content
capped_fails facts findings h =
    let le : content_score facts findings ≤ 35 =
      rw (content_score_lem facts findings, h) (omega arith) in
    (le, ground arith, ground arith)

-- The status is PASS exactly if no finding is critical or material and the findings cost at most 25
-- points together.
pub content_pass_iff :
    (facts : List GroundTruthFact) (findings : List ContentFinding)
    → ((score_content facts findings).status ≡ pass) ↔ (
        (any (λ f. is_critical f.severity || is_material f.severity) findings ≡ false)
        × (total_points findings ≤ 25))
unfolding score_content
content_pass_iff facts findings = (
  λ h. ground (arith, content_score_lem facts findings, serious_of_capping facts findings),
  λ h. ground (arith, content_score_lem facts findings, serious_of_capping facts findings),
)
