-- ===== src/ContentCheck/Classify/Alarm.antt =====
-- A wrong figure on a scanned page fails the content check of src/content-check.ts.
use agent_commerce_lab.Prelude.{
  ◌≡◌, refl, sym, ◌∙◌, ◌≤◌, Bool, true, false, Option, some, String, List, [], ◌∷◌, any, any-append,
  any-witness, find, length, leb, inl, inr, Bool-cases, arith,
}
use agent_commerce_lab.Prelude.Text.{str_eq}
use agent_commerce_lab.GroundTruth.{GroundTruthFact, FactPattern}
use agent_commerce_lab.ContentCheck.Types.{PageContent, ContentFinding, fail, is_money_or_deadline}
use agent_commerce_lab.ContentCheck.Score.{is_capping, score_content}
use agent_commerce_lab.ContentCheck.Score.Cap.{capped_fails}
use agent_commerce_lab.ContentCheck.Classify.{
  has_value, all_values, page_values, superseded_values, fact_findings, findings_of, classify_pages,
}
use agent_commerce_lab.ContentCheck.Classify.Sets.{
  claims_value, str_eq→≡, str_eq_refl, has_value-all_values,
}
use agent_commerce_lab.ContentCheck.Classify.Wrong.{
  is_wrong, critical_on, severity_critical, page_values-wrong, page_values-entry,
  pages_findings-critical,
}

-- A set of less than two values has no other than the one it has.
only_value :
    (v w : String) (s : List String)
    → leb 2 (length s) ≡ false
    → has_value v s ≡ true
    → has_value w s ≡ true
    → v ≡ w
only_value v w [] h hv hw = cc
only_value v w (x ∷ []) h hv hw = sym (str_eq→≡ x v (ground arith)) ∙ str_eq→≡ x w (ground arith)
only_value v w (x ∷ y ∷ s) h hv hw = absurd (ground arith)

abbrev some_page_states : String → String → List PageContent → Bool
some_page_states key v pages = any (λ p. any (claims_value key v) p.claims) pages

-- The wrong value that a page states.
wrong_value :
    (fact : GroundTruthFact) (pages : List PageContent)
    → any (λ p. any (is_wrong fact) p.claims) pages ≡ true
    → (w : String) × (str_eq w fact.value ≡ false) × (some_page_states fact.fact_key w pages ≡ true)
wrong_value fact pages h =
    let page = any-witness (λ p. any (is_wrong fact) p.claims) pages h in
    let c = any-witness (is_wrong fact) page.0.claims page.1 in
    (
      c.0.normalized,
      ground (arith, c.1),
      page.2 (λ p. any (claims_value fact.fact_key c.0.normalized) p.claims)
          (c.2 (claims_value fact.fact_key c.0.normalized)
            (ground (arith, c.1, str_eq_refl c.0.normalized))),
    )

module _ (matches : String → String → Option Bool) where
  -- With a single stated value, and that wrong, no page states the approved one.
  never_right :
      (fact : GroundTruthFact) (w : String) (pages : List PageContent)
      → leb 2 (length (all_values fact.fact_key pages [])) ≡ false
      → str_eq w fact.value ≡ false
      → some_page_states fact.fact_key w pages ≡ true
      → some_page_states fact.fact_key fact.value pages ≡ false
  never_right fact w pages few other states =
      elim (Bool-cases (some_page_states fact.fact_key fact.value pages)) [
        | inr no_page ↦ no_page
        | inl right ↦
            let same : w ≡ fact.value =
              only_value w fact.value (all_values fact.fact_key pages []) few
                (rw (has_value-all_values fact.fact_key w pages []) states)
                (rw (has_value-all_values fact.fact_key fact.value pages []) right) in
            absurd (ground (arith, rw same at other, str_eq_refl fact.value))
      ]

  -- A wrong claim of a money or deadline fact makes a critical finding on the fact.
  fact_findings-critical :
      (fact : GroundTruthFact) (pages : List PageContent) (superseded : List GroundTruthFact)
      (patterns : List FactPattern) (as_of : String)
      → is_money_or_deadline fact.impact_class ≡ true
      → any (λ p. any (is_wrong fact) p.claims) pages ≡ true
      → any (critical_on fact) (fact_findings matches pages superseded patterns as_of fact) ≡ true
  fact_findings-critical fact pages superseded patterns as_of hi h =
      let w = wrong_value fact pages h in
      elim (Bool-cases (leb 2 (length (all_values fact.fact_key pages [])))) [
        | inl several ↦ rw (several, severity_critical fact hi, str_eq_refl fact.fact_key) refl
        | inr few ↦ rw few (
            pages_findings-critical matches fact (superseded_values superseded fact as_of) patterns
              (page_values fact.fact_key pages []) pages hi
              (page_values-wrong fact.value fact.fact_key pages []
                (never_right fact w.0 pages few w.1 w.2) refl)
              (page_values-entry fact.fact_key w.0 pages [] w.2))
      ]

  findings_of-any :
      (q : ContentFinding → Bool) (p : GroundTruthFact → Bool) (f : GroundTruthFact)
      (pages : List PageContent) (facts superseded : List GroundTruthFact)
      (patterns : List FactPattern) (as_of : String)
      → find p facts ≡ some f
      → any q (fact_findings matches pages superseded patterns as_of f) ≡ true
      → any q (findings_of matches pages facts superseded patterns as_of) ≡ true
  unfolding findings_of
  findings_of-any q p f pages [] superseded patterns as_of found h = cc
  findings_of-any q p f pages (x ∷ facts) superseded patterns as_of found h =
      rw
        (any-append q (fact_findings matches pages superseded patterns as_of x)
          (findings_of matches pages facts superseded patterns as_of))
        (elim (Bool-cases (p x)) [
          | inl here ↦
              let found_here : some x ≡ some f = rw here at found in
              let same : x ≡ f = cc in rw (same, h) refl
          | inr there ↦
              rw (findings_of-any q p f pages facts superseded patterns as_of (rw there at found) h)
                (ground arith)
        ])

  pub critical_on-is_capping :
      (f : GroundTruthFact) (facts : List GroundTruthFact) (xs : List ContentFinding)
      → find (λ x. str_eq x.fact_key f.fact_key) facts ≡ some f
      → is_money_or_deadline f.impact_class ≡ true
      → any (critical_on f) xs ≡ true
      → any (is_capping facts) xs ≡ true
  critical_on-is_capping f facts [] found hi h = cc
  critical_on-is_capping f facts (x ∷ xs) found hi h = elim (Bool-cases (critical_on f x)) [
    | inl here ↦
        let key : x.fact_key ≡ f.fact_key = str_eq→≡ x.fact_key f.fact_key (ground arith) in
        rw (key, found, hi) (ground arith)
    | inr there ↦ rw (critical_on-is_capping f facts xs found hi (rw there at h)) (ground arith)
  ]

  -- Where a scanned page has a claim of a money or deadline fact with another value than the approved
  -- one, some finding of the classification is critical and on the fact, and the content check fails
  -- with 35 points at most. The fact is the first of the given facts with its key.
  pub wrong_figure_fails :
      (f : GroundTruthFact) (pages : List PageContent) (facts superseded : List GroundTruthFact)
      (patterns : List FactPattern) (as_of : String)
      → find (λ x. str_eq x.fact_key f.fact_key) facts ≡ some f
      → is_money_or_deadline f.impact_class ≡ true
      → any (λ p. any (is_wrong f) p.claims) pages ≡ true
      → let findings = (classify_pages matches pages facts superseded patterns as_of).0 in
        (any (critical_on f) findings ≡ true)
        × ((score_content facts findings).status ≡ fail)
        × ((score_content facts findings).score ≤ 35)
  unfolding classify_pages
  wrong_figure_fails f pages facts superseded patterns as_of found hi h =
      let findings = findings_of matches pages facts superseded patterns as_of in
      let critical =
        findings_of-any (critical_on f) (λ x. str_eq x.fact_key f.fact_key) f pages facts superseded
          patterns as_of found (fact_findings-critical f pages superseded patterns as_of hi h) in
      let capped =
        capped_fails facts findings (critical_on-is_capping f facts findings found hi critical) in
      (critical, capped.1, capped.0)
