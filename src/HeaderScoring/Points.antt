-- ===== src/HeaderScoring/Points.antt =====
-- The points of src/header-scoring.ts against its issues: a header has its full points exactly when
-- it has no issue, and the issues are ordered by severity.
use agent_commerce_lab.Prelude.{
  ℕ, ◌+◌, ◌≤◌, ◌<◌, Bool, true, false, Option, none, some, String, List, [], ◌∷◌, ◌++◌, ◌≡◌, ◌≢◌,
  ◌⊎◌, inl, inr, ◌↔◌, refl, sym, ap, ◌∙◌, if◌then◌else◌, ltb, ◌==◌, arith,
}
use agent_commerce_lab.Prelude.Text.{truthy}
use agent_commerce_lab.Verdict.{Severity, high, medium, low, HeaderIssue}
use agent_commerce_lab.HeaderScoring.{
  Part, deduct_when, full_marks, unless_missing, age_part, hsts_present, score_hsts, csp_present,
  score_csp, max_age, present,
}
use agent_commerce_lab.HeaderScoring.Total.{
  HeaderInput, xfo_value, xcto_value, referrer_value, score_xfo, score_xcto, score_referrer_policy,
  score_permissions_policy, all_headers, ◌then_add◌, percent_of_55, severity_rank,
  score_security_headers, insert_issue, sort_issues,
}

abbrev is_nil : List HeaderIssue → Bool
is_nil [] = true
is_nil (i ∷ is) = false

-- A part is full, without an issue, or short of its points, with one.
IsScored : ℕ → Part → Type 0
IsScored n p =
    ((is_nil p.issues ≡ true) × (p.points ≡ n)) ⊎ ((is_nil p.issues ≡ false) × (p.points < n))

append-is_nil : (xs ys : List HeaderIssue) → is_nil ys ≡ false → is_nil (xs ++ ys) ≡ false
append-is_nil [] ys h = h
append-is_nil (x ∷ xs) ys h = refl

nil_front : (xs ys : List HeaderIssue) → is_nil xs ≡ false → is_nil (xs ++ ys) ≡ false
nil_front [] ys h = ground arith
nil_front (x ∷ xs) ys h = refl

both_nil :
    (xs ys : List HeaderIssue) → is_nil xs ≡ true → is_nil ys ≡ true → is_nil (xs ++ ys) ≡ true
both_nil [] ys h k = k
both_nil (x ∷ xs) ys h k = h

short_of : (n : ℕ) (p : Part) → IsScored n p → p.points ≤ n
unfolding IsScored
short_of n p h = grind arith

deduct_when-IsScored :
    (b : Bool) (cost : ℕ) (i : HeaderIssue) (n : ℕ) (p : Part)
    → 0 < n
    → 0 < cost
    → IsScored n p
    → IsScored n (deduct_when b cost i p)
unfolding IsScored deduct_when
deduct_when-IsScored false cost i n p hn hc h = h
deduct_when-IsScored true cost i n p hn hc h =
    let le = short_of n p h in inr (append-is_nil p.issues (i ∷ []) refl, omega arith)

if-IsScored :
    (b : Bool) (n : ℕ) (p q : Part) → IsScored n p → IsScored n q → IsScored n (if b then p else q)
if-IsScored true n p q hp hq = hp
if-IsScored false n p q hp hq = hq

flagged : (n k : ℕ) (i : HeaderIssue) → k < n → IsScored n (record { points = k; issues = i ∷ [] })
unfolding IsScored
flagged n k i h = inr (refl, h)

full : (n : ℕ) → IsScored n (full_marks n)
unfolding IsScored
full n = inl (refl, refl)

unless_missing-IsScored :
    (n : ℕ) (i : HeaderIssue) (f : String → Part) (v : Option String)
    → 0 < n
    → ((s : String) → IsScored n (f s))
    → IsScored n (unless_missing i f v)
unless_missing-IsScored n i f none hn hf = flagged n 0 i hn
unless_missing-IsScored n i f (some s) hn hf =
    if-IsScored (truthy (some s)) n _ _ (hf s) (flagged n 0 i hn)

age_part-IsScored : (o : Option ℕ) → IsScored 10 (age_part o)
age_part-IsScored none = flagged 10 2 _ (omega arith)
age_part-IsScored (some age) =
    if-IsScored (age == 0) 10 _ _ (flagged 10 2 _ (omega arith))
      (if-IsScored (ltb age _) 10 _ _ (flagged 10 7 _ (omega arith)) (full 10))

hsts_present-IsScored : (v : Option (List ℕ)) → IsScored 10 (hsts_present v)
hsts_present-IsScored none = flagged 10 0 _ (omega arith)
hsts_present-IsScored (some v) =
    deduct_when-IsScored _ 1 _ 10 _ (omega arith) (omega arith) (age_part-IsScored (max_age v))

csp_present-IsScored : (v : Option (List ℕ)) → IsScored 20 (csp_present v)
csp_present-IsScored none = flagged 20 0 _ (omega arith)
csp_present-IsScored (some v) = deduct_when-IsScored _ 1 _ 20 _ (omega arith) (omega arith) (
    deduct_when-IsScored _ 4 _ 20 _ (omega arith) (omega arith) (
      deduct_when-IsScored _ 6 _ 20 _ (omega arith) (omega arith)
        (deduct_when-IsScored _ 10 _ 20 _ (omega arith) (omega arith) (full 20))))

xfo_value-IsScored : (s : String) → IsScored 10 (xfo_value s)
xfo_value-IsScored s =
    if-IsScored _ 10 _ _ (full 10)
      (if-IsScored _ 10 _ _ (flagged 10 2 _ (omega arith)) (flagged 10 0 _ (omega arith)))

xcto_value-IsScored : (s : String) → IsScored 5 (xcto_value s)
xcto_value-IsScored s = if-IsScored _ 5 _ _ (flagged 5 0 _ (omega arith)) (full 5)

referrer_value-IsScored : (s : String) → IsScored 5 (referrer_value s)
referrer_value-IsScored s = if-IsScored _ 5 _ _ (flagged 5 2 _ (omega arith)) (full 5)

-- Two parts together.
then_add-IsScored :
    (m n : ℕ) (p q : Part) → IsScored m p → IsScored n q → IsScored (m + n) (p then_add q)
unfolding IsScored
then_add-IsScored m n p q hp hq = go hp hq (short_of m p hp) (short_of n q hq)
  where
    go : IsScored m p → IsScored n q → p.points ≤ m → q.points ≤ n → IsScored (m + n) (p then_add q)
    go (inr (a, b)) (inr (c, d)) e f = inr (append-is_nil p.issues q.issues c, omega arith)
    go (inl (a, b)) (inr (c, d)) e f = inr (append-is_nil p.issues q.issues c, omega arith)
    go (inr (a, b)) (inl (c, d)) e f = inr (nil_front p.issues q.issues a, omega arith)
    go (inl (a, b)) (inl (c, d)) e f = inl (both_nil p.issues q.issues a c, omega arith)

-- On an HTTPS site the six headers have 55 points exactly when there is no issue.
all_headers-IsScored :
    (input : HeaderInput) → input.used_https ≡ true → IsScored 55 (all_headers input)
unfolding all_headers score_hsts score_csp score_xfo score_xcto score_referrer_policy
    score_permissions_policy
all_headers-IsScored input https = rw https (
    then_add-IsScored 50 5 _ _
      (then_add-IsScored 45 5 _ _
        (then_add-IsScored 40 5 _ _
          (then_add-IsScored 30 10 _ _
            (then_add-IsScored 10 20 _ _
              (hsts_present-IsScored (present input.strict_transport_security))
              (csp_present-IsScored (present input.content_security_policy)))
            (unless_missing-IsScored 10 _ xfo_value input.x_frame_options (omega arith)
              xfo_value-IsScored))
          (unless_missing-IsScored 5 _ xcto_value input.x_content_type_options (omega arith)
            xcto_value-IsScored))
        (unless_missing-IsScored 5 _ referrer_value input.referrer_policy (omega arith)
          referrer_value-IsScored))
      (unless_missing-IsScored 5 _ _ input.permissions_policy (omega arith) (λ v. full 5)))

insert_issue-is_nil : (i : HeaderIssue) (is : List HeaderIssue) → is_nil (insert_issue i is) ≡ false
insert_issue-is_nil i [] = refl
insert_issue-is_nil i (j ∷ js) = ground arith

sort_issues-is_nil : (is : List HeaderIssue) → is_nil (sort_issues is) ≡ is_nil is
sort_issues-is_nil [] = refl
sort_issues-is_nil (i ∷ is) = insert_issue-is_nil i (sort_issues is)

is_nil→nil : (is : List HeaderIssue) → is_nil is ≡ true → is ≡ []
is_nil→nil [] h = refl
is_nil→nil (i ∷ is) h = ground arith

nil-sort_issues : (is : List HeaderIssue) → is_nil is ≡ true → sort_issues is ≡ []
nil-sort_issues is h = is_nil→nil (sort_issues is) (sort_issues-is_nil is ∙ h)

true_is_not_false : true ≢ false
true_is_not_false h = ground arith

not_nil-sort_issues : (is : List HeaderIssue) → is_nil is ≡ false → sort_issues is ≢ []
not_nil-sort_issues is h e = true_is_not_false (sym (ap is_nil e) ∙ (sort_issues-is_nil is ∙ h))

below_full : (n : ℕ) → n < 55 → percent_of_55 n ≢ 100
below_full n h e = omega arith

scored_iff : (p : Part) → IsScored 55 p → (percent_of_55 p.points ≡ 100 ↔ sort_issues p.issues ≡ [])
unfolding IsScored
scored_iff p (inl (none_left, all)) =
    ((λ e. nil-sort_issues p.issues none_left), (λ e. ap percent_of_55 all))
scored_iff p (inr (some_left, less)) = (
  (λ e. absurd (below_full p.points less e)),
  (λ e. absurd (not_nil-sort_issues p.issues some_left e)),
)

-- On an HTTPS site the score is 100 exactly when the list of issues is empty.
pub full_score_iff :
    (input : HeaderInput)
    → input.used_https ≡ true
    → ((score_security_headers input).score ≡ 100 ↔ (score_security_headers input).issues ≡ [])
unfolding score_security_headers
full_score_iff input https = scored_iff (all_headers input) (all_headers-IsScored input https)

-- The issues of one severity, in the order in which the headers gave them.
abbrev pub of_severity : Severity → List HeaderIssue → List HeaderIssue
of_severity v [] = []
of_severity v (i ∷ is) =
    let rest = of_severity v is in
    if severity_rank i.severity == severity_rank v then i ∷ rest else rest

abbrev pub by_severity : List HeaderIssue → List HeaderIssue
by_severity is = of_severity high is ++ (of_severity medium is ++ of_severity low is)
