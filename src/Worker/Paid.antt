-- ===== src/Worker/Paid.antt =====
-- What the payment gate of src/index.ts protects.
use agent_commerce_lab.Prelude.{
  ℕ, ◌≡◌, ◌≤◌, ◌↔◌, refl, sym, ap, Bool, true, false, Option, none, some, String, List, [], ◌∷◌,
  length, or_else, arith, Bool-cases, inl, inr,
}
use agent_commerce_lab.Batch.{format_batch_price}
use agent_commerce_lab.Batch.Validate.{
  Json, BatchBodyValidation, accepted, refused, validate_batch_domains,
}
use agent_commerce_lab.Batch.Sound.{IsRequest}
use agent_commerce_lab.Batch.Requests.{validate_batch_domains_iff}
use agent_commerce_lab.Batch.Pool.{BatchResultItem}
use agent_commerce_lab.Worker.{
  Reply, batch_reply, BodyText, text_read, text_unreadable, Env, payment, json_of, validated,
  parsed_body, batch_body, batch_handler, post_batch,
}

-- The body is JSON that asks for a batch of these domains, the price of that many is paid, and the
-- results are those of these domains.
pub record IsPaidBatch (env : Env) (body : BodyText) (items : List BatchResultItem) : Type 0 where
  pub raw : String
  pub is_text : body ≡ text_read raw
  pub json : Json
  pub is_json : json_of env raw ≡ some json
  pub domains : List (List ℕ)
  pub content : Bool
  pub request : IsRequest json domains content
  pub price_paid : env.paid (format_batch_price (length domains)) ≡ true
  pub results_of : items ≡ env.run_batch domains content

batch_reply_injective : (xs ys : List BatchResultItem) → batch_reply xs ≡ batch_reply ys → xs ≡ ys
batch_reply_injective xs ys h = cc

module _ (env : Env) (items : List BatchResultItem) where
  -- What the handler answers behind the payment, for as many domains as a request may name.
  paid_iff :
      (ds : List (List ℕ)) (content : Bool)
      → 2 ≤ length ds
      → (payment env (format_batch_price (length ds)) (batch_handler env ds content)
          ≡ batch_reply items)
        ↔ ((env.paid (format_batch_price (length ds)) ≡ true) × (items ≡ env.run_batch ds content))
  paid_iff [] content low = absurd (omega arith)
  paid_iff (d ∷ ds) content low =
      elim (Bool-cases (env.paid (format_batch_price (length (d ∷ ds))))) [
        | inr unpaid ↦ rw unpaid (λ e. cc, λ e. let no : false ≡ true = e.0 in cc)
        | inl paid ↦ rw paid (
          λ e. (refl, sym (batch_reply_injective (env.run_batch (d ∷ ds) content) items e)),
          λ e. ap batch_reply (sym e.1),
        )
      ]

  abbrev handler : List (List ℕ) → Bool → Reply
  handler ds content = payment env (format_batch_price (length ds)) (batch_handler env ds content)

  validated_paid :
      (raw : String) (json : Json) (v : BatchBodyValidation)
      → json_of env raw ≡ some json
      → validate_batch_domains json ≡ v
      → validated handler v ≡ batch_reply items
      → IsPaidBatch env (text_read raw) items
  validated_paid raw json (refused e) read same h = cc
  validated_paid raw json (accepted ds content) read same h =
      let request : IsRequest json ds content =
        (validate_batch_domains_iff json ds content).0 same in
      let paid = (paid_iff ds content request.at_least).0 h in
      record {
        raw = raw;
        is_text = refl;
        json = json;
        is_json = read;
        domains = ds;
        content = content;
        request = request;
        price_paid = paid.0;
        results_of = paid.1;
      }

  parsed_paid :
      (raw : String) (o : Option Json)
      → json_of env raw ≡ o
      → parsed_body handler o ≡ batch_reply items
      → IsPaidBatch env (text_read raw) items
  parsed_paid raw none read h = cc
  parsed_paid raw (some json) read h =
      validated_paid raw json (validate_batch_domains json) read refl h

  read_paid :
      (body : BodyText)
      → batch_body env handler body ≡ batch_reply items
      → IsPaidBatch env body items
  read_paid text_unreadable h = cc
  read_paid (text_read raw) h = parsed_paid raw (json_of env raw) refl h

  paid_answer :
      (body : BodyText)
      → IsPaidBatch env body items
      → batch_body env handler body ≡ batch_reply items
  paid_answer body p =
      rw (p.is_text, p.is_json, (validate_batch_domains_iff p.json p.domains p.content).1 p.request)
        ((paid_iff p.domains p.content p.request.at_least).1 (p.price_paid, p.results_of))

  -- A batch is answered with results exactly if the caller is within the rate limit, the body is JSON
  -- that asks for a batch of 2 to 20 domains, the price of that many domains is paid, and the results are
  -- those of the domains that the body names.
  pub post_batch_iff :
      (ip : Option String) (body : BodyText)
      → (post_batch env ip body ≡ batch_reply items)
        ↔ ((env.limiter (or_else ip "unknown") ≡ true) × IsPaidBatch env body items)
  unfolding post_batch
  post_batch_iff ip body = elim (Bool-cases (env.limiter (or_else ip "unknown"))) [
    | inl within ↦ rw within (λ h. (refl, read_paid body h), λ p. paid_answer body p.1)
    | inr beyond ↦ rw beyond (λ h. cc, λ p. let no : false ≡ true = p.0 in cc)
  ]
