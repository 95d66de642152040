-- ===== src/HeaderScoring/Order.antt =====
-- The order of the issues of src/header-scoring.ts: by severity, and as found within a severity.
use agent_commerce_lab.Prelude.{
  ◌≤◌, ◌<◌, List, [], ◌∷◌, ◌++◌, ◌≡◌, refl, sym, ap, ◌∙◌, append-nil, ◌==◌, Bool-cases, arith, inl,
  inr,
}
use agent_commerce_lab.Verdict.{Severity, high, medium, low, HeaderIssue}
use agent_commerce_lab.HeaderScoring.Total.{
  HeaderInput, all_headers, score_security_headers, severity_rank, insert_issue, sort_issues,
}
use agent_commerce_lab.HeaderScoring.Points.{of_severity, by_severity}

insert_first :
    (i x : HeaderIssue) (xs : List HeaderIssue)
    → severity_rank i.severity ≤ severity_rank x.severity
    → insert_issue i (x ∷ xs) ≡ i ∷ x ∷ xs
insert_first i x xs h = ground arith

insert_later :
    (i x : HeaderIssue) (xs : List HeaderIssue)
    → severity_rank x.severity < severity_rank i.severity
    → insert_issue i (x ∷ xs) ≡ x ∷ insert_issue i xs
insert_later i x xs h = ground arith

stops :
    (v : Severity) (i : HeaderIssue) (is ys : List HeaderIssue)
    → severity_rank i.severity ≤ severity_rank v
    → insert_issue i ys ≡ i ∷ ys
    → insert_issue i (of_severity v is ++ ys) ≡ i ∷ (of_severity v is ++ ys)
stops v i [] ys h e = e
stops v i (x ∷ is) ys h e =
    let ih = stops v i is ys h e in
    elim (Bool-cases (severity_rank x.severity == severity_rank v)) [
      | inl same ↦ rw same (insert_first i x _ (ground arith))
      | inr other ↦ rw other ih
    ]

passes :
    (v : Severity) (i : HeaderIssue) (is ys : List HeaderIssue)
    → severity_rank v < severity_rank i.severity
    → insert_issue i (of_severity v is ++ ys) ≡ of_severity v is ++ insert_issue i ys
passes v i [] ys h = refl
passes v i (x ∷ is) ys h =
    let ih = passes v i is ys h in
    elim (Bool-cases (severity_rank x.severity == severity_rank v)) [
      | inl same ↦ rw same (insert_later i x _ (ground arith) ∙ ap (λ zs. x ∷ zs) ih)
      | inr other ↦ rw other ih
    ]

stops_last :
    (i : HeaderIssue) (is : List HeaderIssue)
    → severity_rank i.severity ≤ 2
    → insert_issue i (of_severity low is) ≡ i ∷ of_severity low is
stops_last i is h =
    let e = stops low i is [] h refl in
    sym (ap (insert_issue i) (append-nil (of_severity low is)))
    ∙ e
    ∙ ap (λ zs. i ∷ zs) (append-nil (of_severity low is))

by_severity_high :
    (i : HeaderIssue) (is : List HeaderIssue)
    → severity_rank i.severity ≡ 0
    → i ∷ (of_severity high is ++ (of_severity medium is ++ of_severity low is))
      ≡ by_severity (i ∷ is)
by_severity_high i is r = rw r refl

by_severity_medium :
    (i : HeaderIssue) (is : List HeaderIssue)
    → severity_rank i.severity ≡ 1
    → of_severity high is ++ i ∷ (of_severity medium is ++ of_severity low is)
      ≡ by_severity (i ∷ is)
by_severity_medium i is r = rw r refl

by_severity_low :
    (i : HeaderIssue) (is : List HeaderIssue)
    → severity_rank i.severity ≡ 2
    → of_severity high is ++ (of_severity medium is ++ i ∷ of_severity low is)
      ≡ by_severity (i ∷ is)
by_severity_low i is r = rw r refl

insert_at :
    (v : Severity) (i : HeaderIssue) (is : List HeaderIssue)
    → severity_rank i.severity ≡ severity_rank v
    → insert_issue i (by_severity is) ≡ by_severity (i ∷ is)
insert_at high i is r =
    stops high i is _ (omega arith)
      (stops medium i is _ (omega arith) (stops_last i is (omega arith)))
    ∙ by_severity_high i is r
insert_at medium i is r =
    passes high i is _ (omega arith)
    ∙ ap (λ zs. of_severity high is ++ zs)
        (stops medium i is _ (omega arith) (stops_last i is (omega arith)))
    ∙ by_severity_medium i is r
insert_at low i is r =
    passes high i is _ (omega arith)
    ∙ ap (λ zs. of_severity high is ++ zs)
        (passes medium i is _ (omega arith)
          ∙ ap (λ zs. of_severity medium is ++ zs) (stops_last i is (omega arith)))
    ∙ by_severity_low i is r

sort_issues_lem : (is : List HeaderIssue) → sort_issues is ≡ by_severity is
sort_issues_lem [] = refl
sort_issues_lem (i ∷ is) = ap (insert_issue i) (sort_issues_lem is) ∙ insert_at i.severity i is refl

-- The issues of a score are those of the six headers, the high ones first, then the medium ones,
-- then the low ones, each group in the order in which the headers gave them.
pub issues_by_severity :
    (input : HeaderInput)
    → (score_security_headers input).issues ≡ by_severity (all_headers input).issues
unfolding score_security_headers
issues_by_severity input = sort_issues_lem (all_headers input).issues
