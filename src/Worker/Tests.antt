-- ===== src/Worker/Tests.antt =====
-- The routes of src/index.ts on small requests.
use agent_commerce_lab.Prelude.{◌≡◌, ◌↔◌, refl, true, none, some, String, [], ◌∷◌, or_else}
use agent_commerce_lab.Prelude.Match.{codes, is_space, trim_start, trim_end, trim}
use agent_commerce_lab.Batch.Validate.{
  Json, json_string, json_array, json_object, no_item, item, no_field, field, entries_of,
  has_duplicate, validate_batch_domains,
}
use agent_commerce_lab.Batch.Pool.{deadline_item}
use agent_commerce_lab.ContentCheck.Run.{threw}
use agent_commerce_lab.History.Wrapper.{storage_unavailable}
use agent_commerce_lab.Worker.{Env, text_read, batch_reply, post_batch}
use agent_commerce_lab.Worker.Paid.{IsPaidBatch, post_batch_iff}
use agent_commerce_lab.Worker.Review.{
  ruling_of, review_row, review_fields, null_body, review_threw, post_review,
}
use agent_commerce_lab.Worker.Rulings.{review_of, all_statements_work, ruling_of-post_review}

abbrev two_domains : Json
two_domains = json_object (
    field "domains"
      (json_array (item (json_string (codes "a.com")) (item (json_string (codes "b.com")) no_item)))
      no_field)

abbrev env : Env
env = record {
  limiter = λ ip. true;
  paid = λ price. true;
  parse_json = λ raw. some two_domains;
  run_batch = λ ds content. deadline_item "a.com" ∷ deadline_item "b.com" ∷ [];
  run_snapshot = λ url content. threw;
  with_history = λ s. storage_unavailable "2026-08-20T10:00:00.000Z";
}

-- The request is answered.
batch_test :
    post_batch env none (text_read "two")
    ≡ batch_reply (deadline_item "a.com" ∷ deadline_item "b.com" ∷ [])
unfolding post_batch validate_batch_domains entries_of has_duplicate is_space trim_start trim_end
    trim
batch_test = refl

post_batch_iff_example :
    (post_batch env none (text_read "two")
      ≡ batch_reply (deadline_item "a.com" ∷ deadline_item "b.com" ∷ []))
    ↔ ((env.limiter (or_else none "unknown") ≡ true)
        × IsPaidBatch env (text_read "two") (deadline_item "a.com" ∷ deadline_item "b.com" ∷ []))
post_batch_iff_example =
    post_batch_iff env (deadline_item "a.com" ∷ deadline_item "b.com" ∷ []) none (text_read "two")

abbrev domain_key : String → String
domain_key domain = "example.com"

ruling_of-post_review_example :
    ruling_of "example.com" "figure-mismatch:vat_rate"
      (post_review domain_key all_statements_work "2026-08-20"
        (review_fields (review_of "Example.com" "figure-mismatch:vat_rate" "confirmed" none))
        []).1
    ≡ some (
        review_row domain_key "2026-08-20" "Example.com" "figure-mismatch:vat_rate" "confirmed"
          none)
ruling_of-post_review_example =
    ruling_of-post_review domain_key "2026-08-20" "Example.com" "figure-mismatch:vat_rate"
      "confirmed" none [] "example.com" "figure-mismatch:vat_rate" refl

-- A body that is null is not answered with an error reply.
null_body_test :
    (post_review domain_key all_statements_work "2026-08-20" null_body []).0 ≡ review_threw
unfolding post_review
null_body_test = refl
