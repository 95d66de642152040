-- ===== src/GroundTruth.antt =====
-- src/ground-truth.ts: the approved facts with their validity windows. A date is its text,
-- YYYY-MM-DD. The table of the store is a list of rows in stored order; each loader is the condition
-- of its SELECT statement over it.
pub mod Windows
mod Tests
use agent_commerce_lab.Prelude.{
  ℕ, Bool, true, false, ◌&&◌, not, Option, none, some, String, List, [], ◌∷◌, ◌++◌, filter, any,
  map, is_some, if◌then◌else◌, leb,
}
use agent_commerce_lab.Prelude.Text.{str_eq, str_leb, str_ltb}

pub data ImpactClass : Type 0 where
  money compliance_deadline compliance_threshold informational_impact : ImpactClass

pub record GroundTruthFact : Type 0 where
  pub fact_key : String
  pub label : String
  pub value : String
  pub unit : Option String
  pub jurisdiction : String
  pub impact_class : ImpactClass
  pub applies_from : String
  pub applies_until : Option String
  pub source_tier : ℕ
  pub source_ref : String
  pub approved_by : String
  pub approved_at : String
  pub notes : Option String

pub data FactPatternKind : Type 0 where
  value_pattern context_pattern keyword_pattern : FactPatternKind

pub record FactPattern : Type 0 where
  pub fact_key : String
  pub kind : FactPatternKind
  pub pattern : String
  pub priority : ℕ

-- `appliesUntil === null || asOf < appliesUntil`
abbrev pub open_until : Option String → String → Bool
open_until none as_of = true
open_until (some u) as_of = str_ltb as_of u

-- `appliesUntil !== null && appliesUntil <= asOf`
abbrev pub ended_by : Option String → String → Bool
ended_by none as_of = false
ended_by (some u) as_of = str_leb u as_of

unfoldable pub active_facts_as_of : List GroundTruthFact → String → List GroundTruthFact
active_facts_as_of facts as_of =
    filter (λ f. str_leb f.applies_from as_of && open_until f.applies_until as_of) facts

unfoldable pub superseded_facts_as_of : List GroundTruthFact → String → List GroundTruthFact
superseded_facts_as_of facts as_of = filter (λ f. ended_by f.applies_until as_of) facts

-- `applies_until IS NULL OR applies_until > ?2`
abbrev sql_open : Option String → String → Bool
sql_open none as_of = true
sql_open (some u) as_of = not (str_leb u as_of)

-- `WHERE jurisdiction = ?1 AND applies_from <= ?2 AND (…)`
unfoldable pub load_active_facts : List GroundTruthFact → String → String → List GroundTruthFact
load_active_facts table jurisdiction as_of =
    filter
      (λ f.
        str_eq f.jurisdiction jurisdiction
        && str_leb f.applies_from as_of
        && sql_open f.applies_until as_of)
      table

-- `WHERE jurisdiction = ?1 AND applies_until IS NOT NULL AND applies_until <= ?2`
unfoldable pub load_superseded_facts : List GroundTruthFact → String → String → List GroundTruthFact
load_superseded_facts table jurisdiction as_of =
    filter (λ f. str_eq f.jurisdiction jurisdiction && ended_by f.applies_until as_of) table

-- A row put into its place by ascending priority, behind those of the same priority.
insert_pattern : FactPattern → List FactPattern → List FactPattern
insert_pattern p [] = p ∷ []
insert_pattern p (q ∷ qs) =
    let behind = q ∷ insert_pattern p qs in if leb p.priority q.priority then p ∷ q ∷ qs else behind

order_by_priority : List FactPattern → List FactPattern
order_by_priority [] = []
order_by_priority (p ∷ ps) = insert_pattern p (order_by_priority ps)

-- No key: no query. Else `WHERE fact_key IN (…) ORDER BY priority ASC`.
unfoldable pub load_fact_patterns : List FactPattern → List String → List FactPattern
unfolding order_by_priority insert_pattern
load_fact_patterns table [] = []
load_fact_patterns table (k ∷ ks) =
    order_by_priority (filter (λ p. any (str_eq p.fact_key) (k ∷ ks)) table)

-- `byKey.set(key, [...(byKey.get(key) ?? []), fact])`: a new key goes to the end.
abbrev pub add_to_group :
    GroundTruthFact → List (String × List GroundTruthFact) → List (String × List GroundTruthFact)
add_to_group f [] = (f.fact_key, f ∷ []) ∷ []
add_to_group f ((k, fs) ∷ groups) =
    if str_eq k f.fact_key then (k, fs ++ f ∷ []) ∷ groups else (k, fs) ∷ add_to_group f groups

group_from :
    List (String × List GroundTruthFact)
    → List GroundTruthFact
    → List (String × List GroundTruthFact)
group_from groups [] = groups
group_from groups (f ∷ fs) = group_from (add_to_group f groups) fs

unfoldable pub group_facts_by_key : List GroundTruthFact → List (String × List GroundTruthFact)
unfolding group_from
group_facts_by_key facts = group_from [] facts
