-- ===== src/Batch/Tests.antt =====
-- A batch request of src/batch.ts with two domains.
use agent_commerce_lab.Prelude.{
  ◌≡◌, ◌≤◌, ◌↔◌, refl, false, true, String, Option, none, List, [], ◌∷◌, ◌++◌, map, All,
}
use agent_commerce_lab.Prelude.Text.{decimal}
use agent_commerce_lab.Prelude.Match.{codes, is_space, trim_start, trim_end, trim}
use agent_commerce_lab.Batch.{format_batch_price}
use agent_commerce_lab.Batch.Validate.{
  Json, json_bool, json_string, json_array, json_object, no_item, item, no_field, field, accepted,
  entries_of, has_duplicate, validate_batch_domains,
}
use agent_commerce_lab.Batch.Pool.{
  Scanned, scan_threw, scan_one, running, finished, Pool, pool, workers, start, Step, claim, finish,
  Reaches, here, next,
}
use agent_commerce_lab.Batch.Results.{slot_domain, count_running}
use agent_commerce_lab.Batch.Finishes.{batch_finishes}
use agent_commerce_lab.Batch.Complete.{IsAnswered, batch_in_order}
use agent_commerce_lab.Batch.Sound.{IsRequest}
use agent_commerce_lab.Batch.Requests.{validate_batch_domains_iff}

abbrev body : Json
body = json_object (
    field "domains"
      (json_array
        (item (json_string (codes " a.com")) (item (json_string (codes "b.com ")) no_item)))
      (field "content" (json_bool true) no_field))

accepted_test : validate_batch_domains body ≡ accepted (codes "a.com" ∷ codes "b.com" ∷ []) true
unfolding validate_batch_domains entries_of has_duplicate is_space trim_start trim_end trim
accepted_test = refl

price_test : format_batch_price 20 ≡ "$0.20"
unfolding format_batch_price decimal
price_test = refl

validate_batch_domains_iff_example :
    (validate_batch_domains body ≡ accepted (codes "a.com" ∷ codes "b.com" ∷ []) true)
    ↔ IsRequest body (codes "a.com" ∷ codes "b.com" ∷ []) true
validate_batch_domains_iff_example =
    validate_batch_domains_iff body (codes "a.com" ∷ codes "b.com" ∷ []) true

abbrev protocol_of : String → Option String
protocol_of d = none

abbrev run_snapshot : String → Scanned
run_snapshot d = scan_threw "snapshot failed"

abbrev domains : List String
domains = "a" ∷ "b" ∷ []

abbrev one_claimed : Pool
one_claimed = pool (running "a" ∷ []) ("b" ∷ []) 1 false

abbrev one_stored : Pool
one_stored = pool (finished (scan_one protocol_of run_snapshot "a") ∷ []) ("b" ∷ []) 2 false

abbrev first_claim : Step (scan_one protocol_of run_snapshot) (start 5 domains) one_claimed
first_claim = claim [] "a" ("b" ∷ []) 1

batch_in_order_example :
    (count_running one_stored.claimed ≤ workers 5 domains)
    × (map slot_domain one_stored.claimed ++ one_stored.waiting ≡ domains)
    × All (IsAnswered (scan_one protocol_of run_snapshot)) one_stored.claimed
batch_in_order_example =
    batch_in_order protocol_of run_snapshot 5 domains one_stored
      (next (next here first_claim) (finish [] [] "a" ("b" ∷ []) 1 false))

batch_finishes_example :
    (t : Pool) × Reaches (scan_one protocol_of run_snapshot) one_claimed t
    × (t.waiting ≡ [])
    × (count_running t.claimed ≡ 0)
    × (map slot_domain t.claimed ≡ domains)
batch_finishes_example =
    batch_finishes protocol_of run_snapshot 5 domains one_claimed (next here first_claim)
