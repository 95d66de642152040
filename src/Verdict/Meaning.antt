-- ===== src/Verdict/Meaning.antt =====
-- What the verdict of src/verdict.ts means: its caps, when it is PASS, and that a critical content
-- finding on a money or deadline fact makes it FAIL.
use agent_commerce_lab.Prelude.{
  if◌then◌else◌, ℕ, zero, suc, ◌+◌, ◌≤◌, ◌≡◌, refl, inl, inr, ◌↔◌, Bool, true, false, Option, none,
  some, String, List, [], ◌∷◌, ◌++◌, arith, any, take, length, leb, Bool-cases, length-append,
}
use agent_commerce_lab.Prelude.Text.{truthy}
use agent_commerce_lab.GroundTruth.{GroundTruthFact}
use agent_commerce_lab.ContentCheck.Types.{ContentFinding}
use agent_commerce_lab.ContentCheck.Score.{is_capping, score_content}
use agent_commerce_lab.ContentCheck.Score.Cap.{capped_fails}
use agent_commerce_lab.Verdict.{
  HeaderIssue, pass, fail, ContentVerdictInput, VerdictInput, is_high, is_medium, issue_text,
  transport_issues, push_high, push_medium_one, push_medium, header_issues, content_findings,
  top_issues_of, blended_score, build_verdict,
}

-- The content score, where there is one.
abbrev pub content_limit : Option ContentVerdictInput → ℕ → ℕ
content_limit none other = other
content_limit (some c) other = c.score

-- The caps on the score, and the number of issues that are listed.
pub record IsCapped (i : VerdictInput) : Type 0 where
  pub by_header : (build_verdict i).score ≤ i.header_score.score
  pub by_https : (build_verdict i).score ≤ (if i.used_https then i.header_score.score else 20)
  pub by_cipher : (build_verdict i).score ≤ (if i.tls.weak then 60 else i.header_score.score)
  pub by_http : (build_verdict i).score ≤ (if i.http_ok then i.header_score.score else 40)
  pub by_content : (build_verdict i).score ≤ content_limit i.content i.header_score.score
  pub five_issues : length (build_verdict i).top_issues ≤ 5

length-take-le {ℓ} : {A : Type ℓ} (n : ℕ) (xs : List A) → length (take n xs) ≤ n
length-take-le zero xs = omega arith
length-take-le (suc n) [] = omega arith
length-take-le (suc n) (x ∷ xs) = omega (arith, length-take-le n xs)

-- The score is at most the header score, the content score if there is one, 20 without HTTPS, 60
-- with a weak cipher, 40 without a good HTTP answer; and at most five issues are listed.
pub build_verdict-IsCapped : (i : VerdictInput) → IsCapped i
unfolding build_verdict blended_score
build_verdict-IsCapped i = record {
  by_header = ground arith;
  by_https = ground arith;
  by_cipher = ground arith;
  by_http = ground arith;
  by_content = ground arith;
  five_issues = ground (arith, length-take-le 5 (top_issues_of i));
}

abbrev has_high : List HeaderIssue → Bool
has_high = any (λ i. is_high i.severity)

abbrev has_medium : List HeaderIssue → Bool
has_medium = any (λ i. is_medium i.severity)

length-concat {ℓ} : {A : Type ℓ} (xs : List A) (x : A) → length (xs ++ x ∷ []) ≡ length xs + 1
length-concat xs x = length-append xs (x ∷ [])

push_high-grows :
    (top : List String) (is : List HeaderIssue) → length top ≤ length (push_high top is)
push_high-grows top [] = omega arith
push_high-grows top (i ∷ is) = elim (Bool-cases (is_high i.severity)) [
  | inl e ↦ rw e (
      omega
        (arith, push_high-grows (top ++ issue_text i ∷ []) is, length-concat top (issue_text i)))
  | inr e ↦ rw e (push_high-grows top is)
]

push_high_some :
    (top : List String) (is : List HeaderIssue) → has_high is ≡ true → 1 ≤ length (push_high top is)
push_high_some top [] h = cc
push_high_some top (i ∷ is) h = elim (Bool-cases (is_high i.severity)) [
  | inl e ↦ rw e (
      omega
        (arith, push_high-grows (top ++ issue_text i ∷ []) is, length-concat top (issue_text i)))
  | inr e ↦ rw e (push_high_some top is (ground arith))
]

push_high_none :
    (top : List String) (is : List HeaderIssue) → has_high is ≡ false → push_high top is ≡ top
push_high_none top [] h = refl
push_high_none top (i ∷ is) h = ground (arith, push_high_none top is)

push_medium_one-grows :
    (top : List String) (i : HeaderIssue) → length top ≤ length (push_medium_one top i)
push_medium_one-grows top i = ground (arith, length-concat top (issue_text i))

push_medium-grows :
    (top : List String) (is : List HeaderIssue) → length top ≤ length (push_medium top is)
push_medium-grows top [] = omega arith
push_medium-grows top (i ∷ is) =
    let top' = push_medium_one top i in
    elim (Bool-cases (leb 5 (length top'))) [
      | inl e ↦ rw e (push_medium_one-grows top i)
      | inr e ↦ rw e (omega (arith, push_medium_one-grows top i, push_medium-grows top' is))
    ]

push_medium_some : (is : List HeaderIssue) → has_medium is ≡ true → 1 ≤ length (push_medium [] is)
push_medium_some [] h = cc
push_medium_some (i ∷ is) h = elim (Bool-cases (is_medium i.severity)) [
  | inl e ↦ rw e (push_medium-grows (issue_text i ∷ []) is)
  | inr e ↦ rw e (push_medium_some is (ground arith))
]

push_medium_none :
    (top : List String) (is : List HeaderIssue) → has_medium is ≡ false → push_medium top is ≡ top
push_medium_none top [] h = refl
push_medium_none top (i ∷ is) h = ground (arith, push_medium_none top is)

-- No issue is listed exactly if none was there before and no header issue is high or medium.
header_issues-empty_iff :
    (top : List String) (is : List HeaderIssue)
    → (length (header_issues top is) ≡ 0)
      ↔ ((length top ≡ 0) × (has_high is ≡ false) × (has_medium is ≡ false))
header_issues-empty_iff [] is = (
  λ h. elim (Bool-cases (has_high is)) [
    | inl e ↦
        absurd (ground (arith, push_high_some [] is e, push_medium-grows (push_high [] is) is))
    | inr e ↦ elim (Bool-cases (has_medium is)) [
      | inl m ↦ absurd (ground (arith, push_high_none [] is e, push_medium_some is m))
      | inr m ↦ (refl, e, m)
    ]
  ],
  λ h. ground (arith, push_high_none [] is, push_medium_none [] is),
)
header_issues-empty_iff (t ∷ top) is = (
  λ h.
      absurd (
        ground
          (arith, push_high-grows (t ∷ top) is, push_medium-grows (push_high (t ∷ top) is) is)),
  λ h. absurd (ground arith),
)

transport-empty_iff :
    (i : VerdictInput)
    → (length (transport_issues i) ≡ 0) ↔ ((i.used_https ≡ true) × (i.tls.weak ≡ false))
transport-empty_iff i = (λ h. ground arith, λ h. ground arith)

-- What a clean snapshot is.
pub record IsClean (i : VerdictInput) : Type 0 where
  pub reached : truthy i.http_error ≡ false
  pub https : i.used_https ≡ true
  pub strong : i.tls.weak ≡ false
  pub answered : i.http_ok ≡ true
  pub no_high : any (λ x. is_high x.severity) i.header_score.issues ≡ false
  pub no_medium : any (λ x. is_medium x.severity) i.header_score.issues ≡ false
  pub no_finding : length (content_findings i.content) ≡ 0
  pub header_good : 75 ≤ i.header_score.score
  pub content_good : (c : ContentVerdictInput) → i.content ≡ some c → 75 ≤ c.score

length-top_issues_of :
    (i : VerdictInput)
    → length (top_issues_of i)
      ≡ length (header_issues (transport_issues i) i.header_score.issues)
        + length (content_findings i.content)
unfolding top_issues_of
length-top_issues_of i =
    length-append (header_issues (transport_issues i) i.header_score.issues)
      (content_findings i.content)

abbrev NoIssues : VerdictInput → Type 0
NoIssues i = length (top_issues_of i) ≡ 0

pass_of_clean :
    (i : VerdictInput)
    → NoIssues i
    → 75 ≤ blended_score i
    → truthy i.http_error ≡ false
    → (build_verdict i).status ≡ pass
unfolding build_verdict
pass_of_clean i n s e = ground arith

clean_of_pass :
    (i : VerdictInput)
    → (build_verdict i).status ≡ pass
    → NoIssues i × (75 ≤ blended_score i) × (truthy i.http_error ≡ false)
unfolding build_verdict
clean_of_pass i h = ground arith

good_scores :
    (i : VerdictInput)
    → 75 ≤ blended_score i
    → (i.http_ok ≡ true)
      × (75 ≤ i.header_score.score)
      × ((c : ContentVerdictInput) → i.content ≡ some c → 75 ≤ c.score)
unfolding blended_score
good_scores i h = (ground arith, ground arith, λ c e. ground arith)

blended_of_clean : (i : VerdictInput) → IsClean i → 75 ≤ blended_score i
unfolding blended_score
blended_of_clean i h = by_content i.content refl
  where
    by_content : (c : Option ContentVerdictInput) → i.content ≡ c → 75 ≤ blended_score i
    by_content none e = ground (arith, h.https, h.strong, h.answered, h.header_good)
    by_content (some c) e =
        ground (arith, h.https, h.strong, h.answered, h.header_good, h.content_good c e)

-- The verdict is PASS exactly if the target was reached and answered well over HTTPS with no weak
-- cipher, no header issue is high or medium, there is no content finding, and the header score and
-- the content score, if there is one, are at least 75.
pub pass_iff : (i : VerdictInput) → ((build_verdict i).status ≡ pass) ↔ IsClean i
pass_iff i = (
  λ h.
      let (n, s, e) = clean_of_pass i h in
      let parts = header_issues-empty_iff (transport_issues i) i.header_score.issues in
      let (t, hi, me) = parts.0 (omega (arith, length-top_issues_of i, n)) in
      let (https, strong) = (transport-empty_iff i).0 t in
      let (ok, head, cont) = good_scores i s in
      record {
        reached = e;
        https = https;
        strong = strong;
        answered = ok;
        no_high = hi;
        no_medium = me;
        no_finding = omega (arith, length-top_issues_of i, n);
        header_good = head;
        content_good = cont;
      },
  λ h.
      let parts = header_issues-empty_iff (transport_issues i) i.header_score.issues in
      let none_listed =
        parts.1 ((transport-empty_iff i).1 (h.https, h.strong), h.no_high, h.no_medium) in
      pass_of_clean i (omega (arith, length-top_issues_of i, none_listed, h.no_finding))
        (blended_of_clean i h) h.reached,
)

low_fails : (i : VerdictInput) → blended_score i ≤ 39 → (build_verdict i).status ≡ fail
unfolding build_verdict
low_fails i h = ground arith

content_caps :
    (i : VerdictInput) (c : ContentVerdictInput) → i.content ≡ some c → blended_score i ≤ c.score
unfolding blended_score
content_caps i c e = ground arith

-- If the content block carries the score of findings of which one is critical on a money or deadline
-- fact, the verdict is FAIL, whatever the rest of the snapshot is.
pub critical_content_fails :
    (i : VerdictInput) (c : ContentVerdictInput) (facts : List GroundTruthFact)
    (findings : List ContentFinding)
    → i.content ≡ some c
    → c.score ≡ (score_content facts findings).score
    → any (is_capping facts) findings ≡ true
    → (build_verdict i).status ≡ fail
critical_content_fails i c facts findings e s h =
    low_fails i (omega (arith, content_caps i c e, s, (capped_fails facts findings h).0))
