-- ===== src/History/Content.antt =====
-- The content part of `diffSnapshots` of src/history.ts, and the whole comparison.
use agent_commerce_lab.Prelude.{
  Bool, true, false, ◌&&◌, not, Option, none, some, String, List, [], ◌∷◌, ◌++◌, ◌==◌, leb,
  if◌then◌else◌, map, filter, any,
}
use agent_commerce_lab.Prelude.Int.{sub_ℕ, abs}
use agent_commerce_lab.Prelude.Text.{◌<>◌, str_eq}
use agent_commerce_lab.ContentCheck.Types.{
  ContentResult, ContentFactObservation, ContentFinding, is_money_or_deadline,
}
use agent_commerce_lab.ContentCheck.Score.{is_critical}
use agent_commerce_lab.History.Types.{
  critical, material, informational, null_value, bool_value, number_value, text_value,
  content_value, claims_value, ChangedField, SecuritySnapshot,
}
use agent_commerce_lab.History.Diff.{
  add_if, critical_if, concat, content_status_text, finding_type_text, diff_guarded, diff_plain,
}

abbrev pub fact_of : String → List (String × ContentFactObservation) → Option ContentFactObservation
fact_of key [] = none
fact_of key (f ∷ fs) = let rest = fact_of key fs in if str_eq f.0 key then some f.1 else rest

abbrev pub has_key : String → List String → Bool
has_key key keys = any (λ k. str_eq k key) keys

-- `new Set(…)`: the first of equal keys stays.
abbrev pub distinct : List String → List String
distinct [] = []
distinct (k ∷ ks) = k ∷ filter (λ j. not (str_eq j k)) (distinct ks)

abbrev pub same_claims : List String → List String → Bool
same_claims [] [] = true
same_claims (a ∷ xs) (b ∷ ys) = str_eq a b && same_claims xs ys
same_claims _ _ = false

-- What one fact contributes, by whether either side has it.
abbrev pub diff_fact :
    String → Option ContentFactObservation → Option ContentFactObservation → List ChangedField
diff_fact key none none = []
diff_fact key none (some t) =
    add_if true ("content.facts." <> key) null_value (claims_value t.claims)
      (critical_if (is_money_or_deadline t.impact))
diff_fact key (some f) none =
    add_if true ("content.facts." <> key) (claims_value f.claims) null_value
      (critical_if (is_money_or_deadline f.impact))
diff_fact key (some f) (some t) =
    add_if (not (same_claims f.claims t.claims)) ("content.facts." <> key <> ".claims")
      (claims_value f.claims) (claims_value t.claims) (critical_if (is_money_or_deadline f.impact))

abbrev pub fact_keys : ContentResult → ContentResult → List String
fact_keys from to = distinct (map (λ f. f.0) from.facts ++ map (λ f. f.0) to.facts)

-- `criticalKeys`
abbrev pub critical_keys : ContentResult → List String
critical_keys c = distinct (
    map (λ (x : ContentFinding). finding_type_text x.kind <> ":" <> x.fact_key)
      (filter (λ (x : ContentFinding). is_critical x.severity) c.findings))

abbrev pub diff_content_score : ContentResult → ContentResult → List ChangedField
diff_content_score from to =
    add_if (not (from.score == to.score)) "content.score" (number_value from.score)
      (number_value to.score)
      (if leb 15 (abs (sub_ℕ to.score from.score)) then material else informational)

abbrev pub diff_content : Option ContentResult → Option ContentResult → List ChangedField
diff_content none none = []
diff_content none (some to) = add_if true "content" null_value (content_value to) material
diff_content (some from) none = add_if true "content" (content_value from) null_value material
diff_content (some from) (some to) =
    add_if (not (str_eq (content_status_text from.status) (content_status_text to.status)))
      "content.status" (text_value (content_status_text from.status))
      (text_value (content_status_text to.status)) material
    ++ (diff_content_score from to
        ++ (concat (
              map (λ k. diff_fact k (fact_of k from.facts) (fact_of k to.facts))
                (fact_keys from to))
            ++ (concat (
                  map
                    (λ k.
                      add_if (not (has_key k (critical_keys from))) ("content.critical." <> k)
                        null_value (bool_value true) critical)
                    (critical_keys to))
                ++ concat (
                    map
                      (λ k.
                        add_if (not (has_key k (critical_keys to))) ("content.critical." <> k)
                          (bool_value true) null_value material)
                      (critical_keys from)))))

unfoldable pub diff_snapshots : SecuritySnapshot → SecuritySnapshot → List ChangedField
diff_snapshots from to =
    diff_guarded from to ++ (diff_plain from to ++ diff_content from.content to.content)
