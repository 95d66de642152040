-- ===== src/HeaderScoring.antt =====
-- src/header-scoring.ts: the score of the six security headers, with the issues that cost points. A
-- header value is the list of its code points; the array of issues is passed along and grows.
pub mod Total
pub mod Points
pub mod Order
mod Tests
use agent_commerce_lab.Prelude.{
  ℕ, ◌+◌, ◌-◌, ◌*◌, ◌/◌, Bool, true, false, ◌&&◌, ◌||◌, not, Option, none, some, String, List, [],
  ◌∷◌, ◌++◌, leb, ltb, ◌==◌, if◌then◌else◌,
}
use agent_commerce_lab.Prelude.Text.{◌<>◌, decimal, truthy}
use agent_commerce_lab.Prelude.Match.{
  codes, is_space, fold_upper, fold_lower, trim, trim_start, after_prefix, begins_with,
  contains_word, same_text, number_at,
}
use agent_commerce_lab.ContentCheck.Types.{Grade}
use agent_commerce_lab.ContentCheck.Score.{grade_of}
use agent_commerce_lab.Verdict.{Severity, high, medium, low, HeaderIssue, HeaderScore}
use agent_commerce_lab.Prelude.{map}

abbrev pub min_recommended_hsts_max_age : ℕ
min_recommended_hsts_max_age = 15552000

-- What one header contributes: its points and its issues.
pub record Part : Type 0 where
  pub points : ℕ
  pub issues : List HeaderIssue

abbrev pub issue : String → Severity → String → HeaderIssue
issue header severity message = record { header = header; severity = severity; message = message }

-- `max-age\s*=\s*(\d+)` from one position on.
abbrev max_age_behind : Option (List ℕ) → Option ℕ
max_age_behind none = none
max_age_behind (some rest) = elim (after_prefix (codes "=") (trim_start rest)) [
  | none ↦ none
  | some value ↦ number_at (trim_start value)
]

abbrev or_later : Option ℕ → Option ℕ → Option ℕ
or_later none later = later
or_later (some n) later = some n

-- The first match in the value.
unfoldable pub max_age : List ℕ → Option ℕ
max_age [] = none
max_age (c ∷ s) = or_later (max_age_behind (after_prefix (codes "max-age") (c ∷ s))) (max_age s)

abbrev hsts : Severity → String → HeaderIssue
hsts severity message = issue "Strict-Transport-Security" severity message

-- The test of `max-age`: no match counts as 0.
abbrev pub age_part : Option ℕ → Part
age_part none = record {
  points = 2;
  issues = hsts high "Present but max-age is missing or 0 — provides no real protection." ∷ [];
}
age_part (some age) =
    if age == 0
    then record {
      points = 2;
      issues = hsts high "Present but max-age is missing or 0 — provides no real protection." ∷ [];
    }
    else if ltb age min_recommended_hsts_max_age
    then record {
      points = 7;
      issues =
          hsts medium (
            "max-age="
            <> decimal age
            <> " is below the recommended "
            <> decimal min_recommended_hsts_max_age
            <> " (180 days).")
          ∷ [];
    }
    else record { points = 10; issues = [] }

-- A deduction that adds an issue where a test holds.
unfoldable pub deduct_when : Bool → ℕ → HeaderIssue → Part → Part
deduct_when b cost i p =
    if b then record { points = p.points - cost; issues = p.issues ++ i ∷ [] } else p

abbrev pub missing : HeaderIssue → Part
missing i = record { points = 0; issues = i ∷ [] }

-- A header value, unless it is null or empty.
abbrev pub present : Option String → Option (List ℕ)
present v = elim v [ none ↦ none | some s ↦ if truthy (some s) then some (codes s) else none ]

abbrev pub hsts_present : Option (List ℕ) → Part
hsts_present none = missing (hsts high "Missing entirely on an HTTPS site.")
hsts_present (some value) =
    deduct_when (not (contains_word (codes "includesubdomains") value)) 1
      (hsts low "Missing includeSubDomains — subdomains aren't covered.") (age_part (max_age value))

unfoldable pub score_hsts : Bool → Option String → Part
unfolding max_age
score_hsts used_https value =
    if not used_https then record { points = 0; issues = [] } else hsts_present (present value)

-- `[^;]*\*` from one position on: a star before the next semicolon.
abbrev pub star_before_semicolon : List ℕ → Bool
star_before_semicolon [] = false
star_before_semicolon (c ∷ s) = if c == 59 then false else (c == 42 || star_before_semicolon s)

-- `(?!\S)`: no character, or a space.
abbrev pub ends_here : List ℕ → Bool
ends_here [] = true
ends_here (c ∷ s) = is_space c

-- `[^;]*\*(?!\S)`
abbrev pub lone_star_before_semicolon : List ℕ → Bool
lone_star_before_semicolon [] = false
lone_star_before_semicolon (c ∷ s) =
    if c == 59 then false else ((c == 42 && ends_here s) || lone_star_before_semicolon s)

abbrev pub directive_at : List ℕ → (List ℕ → Bool) → List ℕ → Bool
directive_at name star s = elim (after_prefix name s) [ none ↦ false | some rest ↦ star rest ]

-- `(^|[\s;])name…`: a directive at the front of the value, or behind a space or a semicolon.
directive_behind : List ℕ → (List ℕ → Bool) → List ℕ → Bool
directive_behind name star [] = false
directive_behind name star (c ∷ s) =
    ((is_space c || c == 59) && directive_at name star s) || directive_behind name star s

unfoldable pub has_directive : List ℕ → (List ℕ → Bool) → List ℕ → Bool
unfolding directive_behind
has_directive name star s = directive_at name star s || directive_behind name star s

abbrev csp : Severity → String → HeaderIssue
csp severity message = issue "Content-Security-Policy" severity message

abbrev pub csp_present : Option (List ℕ) → Part
csp_present none =
    missing (csp high "Missing entirely — no defense-in-depth against XSS/injection.")
csp_present (some value) =
    deduct_when (not (contains_word (codes "frame-ancestors") value)) 1
      (csp low
        "No frame-ancestors directive — relying on X-Frame-Options alone for clickjacking defense.")
      (deduct_when
        (has_directive (codes "default-src") star_before_semicolon value
          || has_directive (codes "script-src") lone_star_before_semicolon value)
        4 (csp medium "Wildcard (*) source found — overly permissive.")
        (deduct_when (contains_word (codes "unsafe-eval") value) 6
          (csp high "Allows 'unsafe-eval' — permits dynamic code execution.")
          (deduct_when (contains_word (codes "unsafe-inline") value) 10
            (csp high "Allows 'unsafe-inline' — defeats most of CSP's XSS protection.")
            (record { points = 20; issues = [] }))))

unfoldable pub score_csp : Option String → Part
score_csp value = csp_present (present value)

abbrev pub full_marks : ℕ → Part
full_marks n = record { points = n; issues = [] }

-- A header that is null or empty costs all its points.
abbrev pub unless_missing : HeaderIssue → (String → Part) → Option String → Part
unless_missing i score none = missing i
unless_missing i score (some value) = if truthy (some value) then score value else missing i
