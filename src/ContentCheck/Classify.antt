-- ===== src/ContentCheck/Classify.antt =====
-- `topicPresentOnPage` and `classifyPages` of src/content-check.ts. A Set is the list of its values in
-- the order they were added, and a Map the list of its entries. The test of a regular expression is a
-- parameter, `none` for an expression that does not compile.
pub mod Sets
pub mod Wrong
pub mod Alarm
pub mod Right
use agent_commerce_lab.Prelude.{
  ℕ, Bool, true, false, ◌&&◌, ◌||◌, not, Option, none, some, String, List, [], ◌∷◌, ◌++◌, any, map,
  filter, length, leb, is_some, if◌then◌else◌,
}
use agent_commerce_lab.Prelude.Text.{◌<>◌, str_eq, str_leb}
use agent_commerce_lab.GroundTruth.{
  GroundTruthFact, FactPattern, FactPatternKind, keyword_pattern, ended_by,
}
use agent_commerce_lab.ContentCheck.Types.{
  RawClaim, PageContent, ContentFinding, ContentFactObservation, ContentConfidence, figure_mismatch,
  figure_stale, cross_page_contradiction, absent_required_figure, informational, high, medium, low,
  is_money_or_deadline, severity_for_impact, confidence_for,
}

abbrev pub has_value : String → List String → Bool
has_value v s = any (λ x. str_eq x v) s

-- `set.add(v)`
abbrev pub add_value : String → List String → List String
add_value v s = if has_value v s then s else s ++ v ∷ []

-- `map.set(key, value)`: an old key keeps its place.
abbrev pub set_entry :
    String → List String → List (String × List String) → List (String × List String)
set_entry key value [] = (key, value) ∷ []
set_entry key value (e ∷ es) =
    if str_eq e.0 key then (e.0, value) ∷ es else e ∷ set_entry key value es

abbrev pub get_entry : String → List (String × List String) → Option (List String)
get_entry key [] = none
get_entry key (e ∷ es) = if str_eq e.0 key then some e.1 else get_entry key es

abbrev pub join : String → List String → String
join separator [] = ""
join separator (x ∷ []) = x
join separator (x ∷ y ∷ xs) = x <> separator <> join separator (y ∷ xs)

abbrev pub format_value : String → String
format_value value = value

-- The normalized values that `claims` add for one fact.
abbrev pub add_claims : String → List RawClaim → List String → List String
add_claims key [] s = s
add_claims key (c ∷ cs) s =
    add_claims key cs (if str_eq c.fact_key key then add_value c.normalized s else s)

-- The values of all pages, and the values of each page that has any.
abbrev pub all_values : String → List PageContent → List String → List String
all_values key [] s = s
all_values key (p ∷ ps) s = all_values key ps (add_claims key p.claims s)

abbrev pub page_entry :
    String → PageContent → List (String × List String) → List (String × List String)
page_entry key p m =
    let seen = add_claims key p.claims [] in
    if leb 1 (length seen) then set_entry p.page_path seen m else m

abbrev pub page_values :
    String → List PageContent → List (String × List String) → List (String × List String)
page_values key [] m = m
page_values key (p ∷ ps) m = page_values key ps (page_entry key p m)

abbrev pub superseded_values : List GroundTruthFact → GroundTruthFact → String → List String
superseded_values superseded fact as_of =
    map (λ (s : GroundTruthFact). s.value)
      (filter (λ s. str_eq s.fact_key fact.fact_key && ended_by s.applies_until as_of) superseded)

abbrev pub contradiction : GroundTruthFact → List String → ContentFinding
contradiction fact values = record {
  kind = cross_page_contradiction;
  fact_key = fact.fact_key;
  severity = severity_for_impact fact.impact_class;
  confidence = if leb fact.source_tier 2 then high else medium;
  page_path = none;
  claim = some (join " / " values);
  ground_truth = some fact.value;
  superseded_by = none;
  message =
      "Pages of this site state different values for \""
      <> fact.label
      <> "\": ["
      <> join ", " values
      <> "] (approved value "
      <> fact.value
      <> ").";
}

abbrev pub stale : GroundTruthFact → String → String → ContentFinding
stale fact path value = record {
  kind = figure_stale;
  fact_key = fact.fact_key;
  severity = severity_for_impact fact.impact_class;
  confidence = confidence_for fact.source_tier true false;
  page_path = some path;
  claim = some value;
  ground_truth = some value;
  superseded_by = some fact.value;
  message =
      "\""
      <> fact.label
      <> "\" stated as "
      <> format_value value
      <> " on "
      <> path
      <> "; superseded — the approved value since "
      <> fact.applies_from
      <> " is "
      <> format_value fact.value
      <> ".";
}

abbrev pub mismatch : GroundTruthFact → String → String → ContentFinding
mismatch fact path value = record {
  kind = figure_mismatch;
  fact_key = fact.fact_key;
  severity = severity_for_impact fact.impact_class;
  confidence = confidence_for fact.source_tier true false;
  page_path = some path;
  claim = some value;
  ground_truth = some fact.value;
  superseded_by = none;
  message =
      "\""
      <> fact.label
      <> "\" stated as "
      <> format_value value
      <> " on "
      <> path
      <> "; approved value is "
      <> format_value fact.value
      <> " (effective "
      <> fact.applies_from
      <> ").";
}

abbrev pub absent : GroundTruthFact → String → ContentFinding
absent fact path = record {
  kind = absent_required_figure;
  fact_key = fact.fact_key;
  severity = informational;
  confidence = low;
  page_path = some path;
  claim = none;
  ground_truth = some fact.value;
  superseded_by = none;
  message =
      "\"" <> fact.label <> "\" topic appears on " <> path
      <> " but no figure for it was found there.";
}

-- `for (const value of pageClaims)`
abbrev pub value_findings :
    GroundTruthFact → List String → String → List String → List ContentFinding
value_findings fact old path [] = []
value_findings fact old path (v ∷ vs) =
    let rest = value_findings fact old path vs in
    if str_eq v fact.value
    then rest
    else (if has_value v old then stale fact path v else mismatch fact path v) ∷ rest

abbrev pub is_keyword : FactPatternKind → Bool
is_keyword keyword_pattern = true
is_keyword _ = false

module _ (matches : String → String → Option Bool) where
  abbrev pub topic_test : Option Bool → Bool → Bool
  topic_test none rest = rest
  topic_test (some b) rest = b || rest

  abbrev pub topic_present_on_page : String → String → List FactPattern → Bool
  topic_present_on_page text key [] = false
  topic_present_on_page text key (p ∷ ps) =
      let rest = topic_present_on_page text key ps in
      if not (is_keyword p.kind) || not (str_eq p.fact_key key)
      then rest
      else topic_test (matches p.pattern text) rest

  abbrev pub page_findings :
      GroundTruthFact → List String → Bool → String → Option (List String) → List ContentFinding
  page_findings fact old topic path none =
      if topic && is_money_or_deadline fact.impact_class then absent fact path ∷ [] else []
  page_findings fact old topic path (some []) =
      if topic && is_money_or_deadline fact.impact_class then absent fact path ∷ [] else []
  page_findings fact old topic path (some (v ∷ vs)) = value_findings fact old path (v ∷ vs)

  -- `for (const page of pages)` of the figure checks.
  abbrev pub pages_findings :
      GroundTruthFact
      → List String
      → List FactPattern
      → List (String × List String)
      → List PageContent
      → List ContentFinding
  pages_findings fact old patterns entries [] = []
  pages_findings fact old patterns entries (p ∷ ps) =
      page_findings fact old (topic_present_on_page p.text fact.fact_key patterns) p.page_path
        (get_entry p.page_path entries)
      ++ pages_findings fact old patterns entries ps

  abbrev pub fact_findings :
      List PageContent
      → List GroundTruthFact
      → List FactPattern
      → String
      → GroundTruthFact
      → List ContentFinding
  fact_findings pages superseded patterns as_of fact =
      let values = all_values fact.fact_key pages [] in
      (if leb 2 (length values) then contradiction fact values ∷ [] else [])
      ++ pages_findings fact (superseded_values superseded fact as_of) patterns
          (page_values fact.fact_key pages []) pages

  abbrev pub observe : List PageContent → GroundTruthFact → ContentFactObservation
  observe pages fact = record {
    claims = all_values fact.fact_key pages [];
    pages = map (λ e. e.0) (page_values fact.fact_key pages []);
    impact = fact.impact_class;
  }

  -- `observations[key] = …`: an old key keeps its place.
  abbrev pub set_observation :
      String
      → ContentFactObservation
      → List (String × ContentFactObservation)
      → List (String × ContentFactObservation)
  set_observation key o [] = (key, o) ∷ []
  set_observation key o (e ∷ es) =
      if str_eq e.0 key then (e.0, o) ∷ es else e ∷ set_observation key o es

  abbrev pub observations :
      List PageContent
      → List GroundTruthFact
      → List (String × ContentFactObservation)
      → List (String × ContentFactObservation)
  observations pages [] os = os
  observations pages (f ∷ fs) os =
      observations pages fs (set_observation f.fact_key (observe pages f) os)

  unfoldable pub findings_of :
      List PageContent
      → List GroundTruthFact
      → List GroundTruthFact
      → List FactPattern
      → String
      → List ContentFinding
  findings_of pages [] superseded patterns as_of = []
  findings_of pages (f ∷ fs) superseded patterns as_of =
      fact_findings pages superseded patterns as_of f
      ++ findings_of pages fs superseded patterns as_of

  unfoldable pub classify_pages :
      List PageContent
      → List GroundTruthFact
      → List GroundTruthFact
      → List FactPattern
      → String
      → List ContentFinding × List (String × ContentFactObservation)
  classify_pages pages facts superseded patterns as_of =
      (findings_of pages facts superseded patterns as_of, observations pages facts [])
