-- ===== src/ContentCheck/Classify/Right.antt =====
-- What `classifyPages` of src/content-check.ts finds where every stated figure is the approved one.
use agent_commerce_lab.Prelude.{
  ◌≡◌, refl, Bool, true, false, ◌&&◌, ◌||◌, Option, some, String, List, [], ◌∷◌, any, any-append,
  all, length, leb, inl, inr, Bool-cases, arith,
}
use agent_commerce_lab.Prelude.Text.{str_eq}
use agent_commerce_lab.GroundTruth.{GroundTruthFact, FactPattern}
use agent_commerce_lab.ContentCheck.Types.{RawClaim, PageContent, ContentFinding}
use agent_commerce_lab.ContentCheck.Score.{is_critical, is_material}
use agent_commerce_lab.ContentCheck.Classify.{
  add_value, add_claims, all_values, set_entry, get_entry, page_entry, page_values,
  superseded_values, value_findings, page_findings, pages_findings, topic_present_on_page,
  fact_findings, findings_of, classify_pages,
}
use agent_commerce_lab.ContentCheck.Classify.Sets.{str_eq→≡, str_eq_refl}
use agent_commerce_lab.ContentCheck.Classify.Wrong.{is_wrong}

-- At most one value, and that the approved one.
abbrev right_set : String → List String → Bool
right_set value s = leb (length s) 1 && all (λ x. str_eq x value) s

add_value-right :
    (value v : String) (s : List String)
    → str_eq v value ≡ true
    → right_set value s ≡ true
    → right_set value (add_value v s) ≡ true
add_value-right value v [] h hs = ground arith
add_value-right value v (x ∷ []) h hs =
    rw (str_eq→≡ v value h, str_eq→≡ x value (ground arith)) (ground (arith, str_eq_refl value))
add_value-right value v (x ∷ y ∷ s) h hs = absurd (ground arith)

add_claims-right :
    (f : GroundTruthFact) (cs : List RawClaim) (s : List String)
    → any (is_wrong f) cs ≡ false
    → right_set f.value s ≡ true
    → right_set f.value (add_claims f.fact_key cs s) ≡ true
add_claims-right f [] s h hs = hs
add_claims-right f (c ∷ cs) s h hs = elim (Bool-cases (str_eq c.fact_key f.fact_key)) [
  | inl mine ↦ rw mine (
      add_claims-right f cs (add_value c.normalized s) (ground arith)
        (add_value-right f.value c.normalized s (ground arith) hs))
  | inr other ↦ rw other (add_claims-right f cs s (ground arith) hs)
]

all_values-right :
    (f : GroundTruthFact) (ps : List PageContent) (s : List String)
    → any (λ p. any (is_wrong f) p.claims) ps ≡ false
    → right_set f.value s ≡ true
    → right_set f.value (all_values f.fact_key ps s) ≡ true
all_values-right f [] s h hs = hs
all_values-right f (p ∷ ps) s h hs =
    all_values-right f ps (add_claims f.fact_key p.claims s) (ground arith)
      (add_claims-right f p.claims s (ground arith) hs)

abbrev entries_right : String → List (String × List String) → Bool
entries_right value es = all (λ e. right_set value e.1) es

set_entry-right :
    (value key : String) (s : List String) (es : List (String × List String))
    → right_set value s ≡ true
    → entries_right value es ≡ true
    → entries_right value (set_entry key s es) ≡ true
set_entry-right value key s [] hs h = ground arith
set_entry-right value key s (e ∷ es) hs h = ground (arith, set_entry-right value key s es hs)

page_values-right :
    (f : GroundTruthFact) (ps : List PageContent) (es : List (String × List String))
    → any (λ p. any (is_wrong f) p.claims) ps ≡ false
    → entries_right f.value es ≡ true
    → entries_right f.value (page_values f.fact_key ps es) ≡ true
page_values-right f [] es h he = he
page_values-right f (p ∷ ps) es h he =
    page_values-right f ps (page_entry f.fact_key p es) (ground arith)
      (elim (Bool-cases (leb 1 (length (add_claims f.fact_key p.claims [])))) [
        | inl some_value ↦ rw some_value (
            set_entry-right f.value p.page_path (add_claims f.fact_key p.claims []) es
              (add_claims-right f p.claims [] (ground arith) refl) he)
        | inr empty ↦ rw empty he
      ])

-- A finding that is critical or material.
abbrev pub is_serious : ContentFinding → Bool
is_serious x = is_critical x.severity || is_material x.severity

value_findings-right :
    (f : GroundTruthFact) (old : List String) (path : String) (s : List String)
    → all (λ x. str_eq x f.value) s ≡ true
    → any is_serious (value_findings f old path s) ≡ false
value_findings-right f old path [] h = refl
value_findings-right f old path (v ∷ s) h = ground (arith, value_findings-right f old path s)

module _ (matches : String → String → Option Bool) where
  page_findings-right :
      (f : GroundTruthFact) (old : List String) (topic : Bool) (path : String)
      (es : List (String × List String))
      → entries_right f.value es ≡ true
      → any is_serious (page_findings matches f old topic path (get_entry path es)) ≡ false
  page_findings-right f old topic path [] h = ground arith
  page_findings-right f old topic path ((k, s) ∷ es) h = elim (Bool-cases (str_eq k path)) [
    | inl here ↦ rw here (own s (ground arith))
    | inr there ↦ rw there (page_findings-right f old topic path es (ground arith))
  ]
    where
      own :
          (s : List String)
          → all (λ x. str_eq x f.value) s ≡ true
          → any is_serious (page_findings matches f old topic path (some s)) ≡ false
      own [] h = ground arith
      own (v ∷ s) h = value_findings-right f old path (v ∷ s) h

  pages_findings-right :
      (f : GroundTruthFact) (old : List String) (patterns : List FactPattern)
      (es : List (String × List String)) (ps : List PageContent)
      → entries_right f.value es ≡ true
      → any is_serious (pages_findings matches f old patterns es ps) ≡ false
  pages_findings-right f old patterns es [] h = refl
  pages_findings-right f old patterns es (p ∷ ps) h =
      let topic = topic_present_on_page matches p.text f.fact_key patterns in
      rw
        (
          any-append is_serious
              (page_findings matches f old topic p.page_path (get_entry p.page_path es))
              (pages_findings matches f old patterns es ps),
          page_findings-right f old topic p.page_path es h,
        )
        (pages_findings-right f old patterns es ps h)

  findings_of-right :
      (pages : List PageContent) (facts superseded : List GroundTruthFact)
      (patterns : List FactPattern) (as_of : String)
      → any (λ f. any (λ p. any (is_wrong f) p.claims) pages) facts ≡ false
      → any is_serious (findings_of matches pages facts superseded patterns as_of) ≡ false
  unfolding findings_of
  findings_of-right pages [] superseded patterns as_of h = refl
  findings_of-right pages (f ∷ facts) superseded patterns as_of h =
      rw
        (
          any-append is_serious (fact_findings matches pages superseded patterns as_of f)
              (findings_of matches pages facts superseded patterns as_of),
          findings_of-right pages facts superseded patterns as_of (ground arith),
        )
        (rw few (rw quiet refl))
    where
      few : leb 2 (length (all_values f.fact_key pages [])) ≡ false
      few = ground (arith, all_values-right f pages [] (ground arith) refl)

      quiet :
          any is_serious (
            pages_findings matches f
              (superseded_values superseded f as_of)
              patterns
              (page_values f.fact_key pages [])
              pages)
          ≡ false
      quiet =
          pages_findings-right f (superseded_values superseded f as_of) patterns
            (page_values f.fact_key pages []) pages
            (page_values-right f pages [] (ground arith) refl)

  -- Where every claim that the pages make of a given fact has its approved value, no finding of the
  -- classification is critical or material.
  pub right_figures_pass :
      (pages : List PageContent) (facts superseded : List GroundTruthFact)
      (patterns : List FactPattern) (as_of : String)
      → any (λ f. any (λ p. any (is_wrong f) p.claims) pages) facts ≡ false
      → any is_serious (classify_pages matches pages facts superseded patterns as_of).0 ≡ false
  unfolding classify_pages
  right_figures_pass pages facts superseded patterns as_of h =
      findings_of-right pages facts superseded patterns as_of h
