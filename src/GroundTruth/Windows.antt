-- ===== src/GroundTruth/Windows.antt =====
-- The validity windows of src/ground-truth.ts: the SELECT statements agree with the pure windowing,
-- and what has begun is either active or superseded.
use agent_commerce_lab.Prelude.{
  ◌+◌, ◌≡◌, refl, sym, ◌∙◌, length, append_assoc, append-nil, Bool, ◌&&◌, not, Option, none, some,
  String, List, [], ◌∷◌, ◌++◌, arith, filter, if◌then◌else◌, Bool-cases, inl, inr,
}
use agent_commerce_lab.Prelude.Text.{str_eq, str_leb}
use agent_commerce_lab.Prelude.TextOrder.{ltb-not-leb}
use agent_commerce_lab.GroundTruth.{
  GroundTruthFact, open_until, ended_by, sql_open, active_facts_as_of, superseded_facts_as_of,
  load_active_facts, load_superseded_facts, add_to_group, group_from, group_facts_by_key,
}
use text.Mathlib.TextEquality.{eq_iff}

-- Filtering twice is filtering by both tests.
filter-filter :
    {A : Type 0} (p q : A → Bool) (xs : List A)
    → filter p (filter q xs) ≡ filter (λ x. q x && p x) xs
filter-filter p q [] = refl
filter-filter p q (x ∷ xs) = ground (arith, filter-filter p q xs)

filter_ext :
    {A : Type 0} (p q : A → Bool) (xs : List A) → ((x : A) → p x ≡ q x) → filter p xs ≡ filter q xs
filter_ext p q [] h = refl
filter_ext p q (x ∷ xs) h = rw (h x, filter_ext p q xs h) refl

open_until-ended_by :
    (u : Option String) (as_of : String) → open_until u as_of ≡ not (ended_by u as_of)
open_until-ended_by none as_of = refl
open_until-ended_by (some u) as_of = ltb-not-leb as_of u

sql_open-ended_by : (u : Option String) (as_of : String) → sql_open u as_of ≡ not (ended_by u as_of)
sql_open-ended_by none as_of = refl
sql_open-ended_by (some u) as_of = refl

abbrev pub of_jurisdiction : String → List GroundTruthFact → List GroundTruthFact
of_jurisdiction j table = filter (λ f. str_eq f.jurisdiction j) table

-- The queries for active and for superseded facts give what the pure windowing gives on the rows of
-- the jurisdiction, in the same order.
pub loads_agree_with_windows :
    (table : List GroundTruthFact) (j as_of : String)
    → (load_active_facts table j as_of ≡ active_facts_as_of (of_jurisdiction j table) as_of)
      × (load_superseded_facts table j as_of
          ≡ superseded_facts_as_of (of_jurisdiction j table) as_of)
unfolding load_active_facts active_facts_as_of load_superseded_facts superseded_facts_as_of
loads_agree_with_windows table j as_of = (
  filter_ext _ _ table (λ f.
        ground (
          arith,
          open_until-ended_by f.applies_until as_of,
          sql_open-ended_by f.applies_until as_of,
        ))
      ∙ sym (
          filter-filter (λ f. str_leb f.applies_from as_of && open_until f.applies_until as_of)
            (λ f. str_eq f.jurisdiction j) table),
  sym (filter-filter (λ f. ended_by f.applies_until as_of) (λ f. str_eq f.jurisdiction j) table),
)

-- The facts whose window has begun.
abbrev pub begun : List GroundTruthFact → String → List GroundTruthFact
begun facts as_of = filter (λ f. str_leb f.applies_from as_of) facts

-- The active facts, and the superseded ones among the facts whose window has begun, are together as
-- many as the facts whose window has begun.
pub active_or_superseded :
    (facts : List GroundTruthFact) (as_of : String)
    → length (active_facts_as_of facts as_of)
        + length (superseded_facts_as_of (begun facts as_of) as_of)
      ≡ length (begun facts as_of)
unfolding active_facts_as_of superseded_facts_as_of
active_or_superseded [] as_of = omega arith
active_or_superseded (f ∷ facts) as_of =
    ground (arith, active_or_superseded facts as_of, open_until-ended_by f.applies_until as_of)

abbrev pub group_at : String → List (String × List GroundTruthFact) → List GroundTruthFact
group_at k [] = []
group_at k ((j, fs) ∷ groups) = if str_eq j k then fs else group_at k groups

group_at-add_to_group :
    (k : String) (f : GroundTruthFact) (groups : List (String × List GroundTruthFact))
    → group_at k (add_to_group f groups)
      ≡ (if str_eq f.fact_key k then group_at k groups ++ f ∷ [] else group_at k groups)
group_at-add_to_group k f [] = refl
group_at-add_to_group k f ((j, fs) ∷ groups) =
    ground (
      arith,
      group_at-add_to_group k f groups,
      eq_iff j f.fact_key,
      eq_iff f.fact_key k,
      eq_iff j k,
    )

group_at-group_from :
    (k : String) (groups : List (String × List GroundTruthFact)) (facts : List GroundTruthFact)
    → group_at k (group_from groups facts)
      ≡ group_at k groups ++ filter (λ f. str_eq f.fact_key k) facts
unfolding group_from
group_at-group_from k groups [] = sym (append-nil (group_at k groups))
group_at-group_from k groups (f ∷ facts) =
    rw (group_at-group_from k (add_to_group f groups) facts, group_at-add_to_group k f groups)
      (elim (Bool-cases (str_eq f.fact_key k)) [
        | inl e ↦
            rw e
              (append_assoc (group_at k groups) (f ∷ []) (filter (λ g. str_eq g.fact_key k) facts))
        | inr e ↦ rw e refl
      ])

-- The group of a key holds the facts of that key, in their order, and is empty if there are none.
pub group_at-group_facts_by_key :
    (k : String) (facts : List GroundTruthFact)
    → group_at k (group_facts_by_key facts) ≡ filter (λ f. str_eq f.fact_key k) facts
unfolding group_facts_by_key
group_at-group_facts_by_key k facts = group_at-group_from k [] facts
