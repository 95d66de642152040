-- ===== src/GroundTruth/Tests.antt =====
-- The fact store of src/ground-truth.ts on two VAT rates, one superseded.
use agent_commerce_lab.Prelude.{◌≡◌, refl, Option, some, none, String, List, [], ◌∷◌}
use agent_commerce_lab.GroundTruth.{
  GroundTruthFact, money, load_active_facts, load_superseded_facts, active_facts_as_of,
  superseded_facts_as_of,
}
use agent_commerce_lab.GroundTruth.Windows.{of_jurisdiction, loads_agree_with_windows}

abbrev pub rate : String → String → Option String → GroundTruthFact
rate value from until = record {
  fact_key = "vat_rate";
  label = "VAT rate";
  value = value;
  unit = some "%";
  jurisdiction = "ZA";
  impact_class = money;
  applies_from = from;
  applies_until = until;
  source_tier = 1;
  source_ref = "act";
  approved_by = "a";
  approved_at = "2026-01-01";
  notes = none;
}

abbrev pub rates : List GroundTruthFact
rates = rate "14" "1993-04-07" (some "2018-04-01") ∷ rate "15" "2018-04-01" none ∷ []

active_test : active_facts_as_of rates "2026-08-20" ≡ rate "15" "2018-04-01" none ∷ []
unfolding active_facts_as_of
active_test = refl

loads_agree_with_windows_example :
    (load_active_facts rates "ZA" "2026-08-20"
      ≡ active_facts_as_of (of_jurisdiction "ZA" rates) "2026-08-20")
    × (load_superseded_facts rates "ZA" "2026-08-20"
        ≡ superseded_facts_as_of (of_jurisdiction "ZA" rates) "2026-08-20")
loads_agree_with_windows_example = loads_agree_with_windows rates "ZA" "2026-08-20"
