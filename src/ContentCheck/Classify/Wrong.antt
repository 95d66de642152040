-- ===== src/ContentCheck/Classify/Wrong.antt =====
-- What `classifyPages` of src/content-check.ts finds where a page states a wrong figure.
use agent_commerce_lab.Prelude.{
  ◌≡◌, refl, Bool, true, false, ◌&&◌, ◌||◌, not, Option, none, some, String, List, [], ◌∷◌, any,
  any-append, length, leb, is_some, inl, inr, Bool-cases, arith,
}
use agent_commerce_lab.Prelude.Text.{str_eq}
use agent_commerce_lab.GroundTruth.{GroundTruthFact, FactPattern}
use agent_commerce_lab.ContentCheck.Types.{
  RawClaim, PageContent, ContentFinding, is_money_or_deadline, severity_for_impact,
}
use agent_commerce_lab.ContentCheck.Score.{is_critical}
use agent_commerce_lab.ContentCheck.Classify.{
  has_value, add_claims, set_entry, get_entry, page_entry, page_values, value_findings,
  page_findings, pages_findings, topic_present_on_page,
}
use agent_commerce_lab.ContentCheck.Classify.Sets.{
  claims_value, str_eq→≡, str_eq_refl, has_value-add_claims,
}

-- A claim of the fact with another value than the approved one.
abbrev pub is_wrong : GroundTruthFact → RawClaim → Bool
is_wrong fact c = str_eq c.fact_key fact.fact_key && not (str_eq c.normalized fact.value)

-- A set without the value, and not empty.
abbrev all_wrong : String → List String → Bool
all_wrong value s = leb 1 (length s) && not (has_value value s)

abbrev entries_wrong : String → List (String × List String) → Bool
entries_wrong value es = any (λ e. not (all_wrong value e.1)) es

set_entry-wrong :
    (value key : String) (s : List String) (es : List (String × List String))
    → all_wrong value s ≡ true
    → entries_wrong value es ≡ false
    → entries_wrong value (set_entry key s es) ≡ false
set_entry-wrong value key s [] hs h = ground arith
set_entry-wrong value key s (e ∷ es) hs h = ground (arith, set_entry-wrong value key s es hs)

get_entry-wrong :
    (value key : String) (s : List String) (es : List (String × List String))
    → entries_wrong value es ≡ false
    → get_entry key es ≡ some s
    → all_wrong value s ≡ true
get_entry-wrong value key s [] h e = cc
get_entry-wrong value key s (x ∷ es) h e = elim (Bool-cases (str_eq x.0 key)) [
  | inl here ↦ let found : some x.1 ≡ some s = rw here at e in ground (arith, found)
  | inr there ↦ get_entry-wrong value key s es (ground arith) (rw there at e)
]

get_entry-set_entry :
    (path key : String) (s : List String) (es : List (String × List String))
    → is_some (get_entry path (set_entry key s es))
      ≡ (is_some (get_entry path es) || str_eq key path)
get_entry-set_entry path key s [] = ground arith
get_entry-set_entry path key s (e ∷ es) = elim (Bool-cases (str_eq e.0 key)) [
  | inl same ↦ rw (same, str_eq→≡ e.0 key same) (ground arith)
  | inr other ↦ rw other (ground (arith, get_entry-set_entry path key s es))
]

page_entry-wrong :
    (value key : String) (p : PageContent) (es : List (String × List String))
    → any (claims_value key value) p.claims ≡ false
    → entries_wrong value es ≡ false
    → entries_wrong value (page_entry key p es) ≡ false
page_entry-wrong value key p es none_right h =
    elim (Bool-cases (leb 1 (length (add_claims key p.claims [])))) [
      | inl some_value ↦ rw some_value (
          set_entry-wrong value p.page_path (add_claims key p.claims []) es
            (rw (some_value, has_value-add_claims key value p.claims [], none_right) refl) h)
      | inr empty ↦ rw empty h
    ]

pub page_values-wrong :
    (value key : String) (ps : List PageContent) (es : List (String × List String))
    → any (λ p. any (claims_value key value) p.claims) ps ≡ false
    → entries_wrong value es ≡ false
    → entries_wrong value (page_values key ps es) ≡ false
page_values-wrong value key [] es none_right h = h
page_values-wrong value key (p ∷ ps) es none_right h =
    page_values-wrong value key ps (page_entry key p es) (ground arith)
      (page_entry-wrong value key p es (ground arith) h)

-- An entry once made stays.
get_entry-page_values :
    (path key : String) (ps : List PageContent) (es : List (String × List String))
    → is_some (get_entry path es) ≡ true
    → is_some (get_entry path (page_values key ps es)) ≡ true
get_entry-page_values path key [] es h = h
get_entry-page_values path key (p ∷ ps) es h =
    get_entry-page_values path key ps (page_entry key p es)
      (ground (arith, get_entry-set_entry path p.page_path (add_claims key p.claims []) es))

nonempty_of_has : (v : String) (s : List String) → has_value v s ≡ true → leb 1 (length s) ≡ true
nonempty_of_has v [] h = cc
nonempty_of_has v (x ∷ s) h = ground arith

-- A page with a claim of the fact has an entry.
pub page_values-entry :
    (key v : String) (ps : List PageContent) (es : List (String × List String))
    → any (λ p. any (claims_value key v) p.claims) ps ≡ true
    → any (λ p. is_some (get_entry p.page_path (page_values key ps es))) ps ≡ true
page_values-entry key v [] es e = cc
page_values-entry key v (p ∷ ps) es e = elim (Bool-cases (any (claims_value key v) p.claims)) [
  | inl here ↦
      rw
        (get_entry-page_values p.page_path key ps (page_entry key p es) (
          rw
            (nonempty_of_has v (add_claims key p.claims [])
              (rw (has_value-add_claims key v p.claims []) here))
            (rw
              (
                get_entry-set_entry p.page_path p.page_path (add_claims key p.claims []) es,
                str_eq_refl p.page_path,
              )
              (ground arith))))
        refl
  | inr there ↦ rw (page_values-entry key v ps (page_entry key p es) (rw there at e)) (ground arith)
]

-- A finding that is critical and on the fact.
abbrev pub critical_on : GroundTruthFact → ContentFinding → Bool
critical_on fact x = is_critical x.severity && str_eq x.fact_key fact.fact_key

pub severity_critical :
    (fact : GroundTruthFact)
    → is_money_or_deadline fact.impact_class ≡ true
    → is_critical (severity_for_impact fact.impact_class) ≡ true
unfolding severity_for_impact
severity_critical fact h = ground arith

value_findings-critical :
    (fact : GroundTruthFact) (old : List String) (path : String) (s : List String)
    → is_money_or_deadline fact.impact_class ≡ true
    → all_wrong fact.value s ≡ true
    → any (critical_on fact) (value_findings fact old path s) ≡ true
value_findings-critical fact old path [] hi h = cc
value_findings-critical fact old path (v ∷ s) hi h =
    ground (arith, severity_critical fact, str_eq_refl fact.fact_key)

module _ (matches : String → String → Option Bool) where
  page_findings-critical :
      (fact : GroundTruthFact) (old : List String) (topic : Bool) (path : String)
      (o : Option (List String))
      → is_money_or_deadline fact.impact_class ≡ true
      → ((s : List String) → o ≡ some s → all_wrong fact.value s ≡ true)
      → is_some o ≡ true
      → any (critical_on fact) (page_findings matches fact old topic path o) ≡ true
  page_findings-critical fact old topic path none hi h e = cc
  page_findings-critical fact old topic path (some []) hi h e =
      let impossible : all_wrong fact.value [] ≡ true = h [] refl in cc
  page_findings-critical fact old topic path (some (v ∷ s)) hi h e =
      value_findings-critical fact old path (v ∷ s) hi (h (v ∷ s) refl)

  pub pages_findings-critical :
      (fact : GroundTruthFact) (old : List String) (patterns : List FactPattern)
      (es : List (String × List String)) (ps : List PageContent)
      → is_money_or_deadline fact.impact_class ≡ true
      → entries_wrong fact.value es ≡ false
      → any (λ p. is_some (get_entry p.page_path es)) ps ≡ true
      → any (critical_on fact) (pages_findings matches fact old patterns es ps) ≡ true
  pages_findings-critical fact old patterns es [] hi h e = cc
  pages_findings-critical fact old patterns es (p ∷ ps) hi h e =
      let topic = topic_present_on_page matches p.text fact.fact_key patterns in
      let entry = get_entry p.page_path es in
      rw
        (any-append (critical_on fact) (page_findings matches fact old topic p.page_path entry)
          (pages_findings matches fact old patterns es ps))
        (elim (Bool-cases (is_some entry)) [
          | inl here ↦
              rw
                (page_findings-critical fact old topic p.page_path entry hi
                  (λ s found. get_entry-wrong fact.value p.page_path s es h found) here)
                refl
          | inr there ↦
              rw (pages_findings-critical fact old patterns es ps hi h (rw there at e))
                (ground arith)
        ])
