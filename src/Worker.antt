-- ===== src/Worker.antt =====
-- src/index.ts: the routes of the worker. The rate limiter, the payment middleware, the JSON parser, the
-- runs of the scans and a failing read of the storage are parameters; a reply is a value with its data.
pub mod Review
pub mod Paid
pub mod Rulings
pub mod Reads
mod Tests
use agent_commerce_lab.Prelude.{
  ℕ, Bool, true, false, ◌&&◌, Option, none, some, String, List, [], ◌∷◌, length, or_else,
  if◌then◌else◌,
}
use agent_commerce_lab.Prelude.Text.{str_eq, is_empty, truthy}
use agent_commerce_lab.Batch.{format_batch_price}
use agent_commerce_lab.Batch.Validate.{
  Json, json_null, BatchBodyValidation, accepted, refused, validate_batch_domains,
}
use agent_commerce_lab.Batch.Pool.{BatchResultItem}
use agent_commerce_lab.History.Types.{SecuritySnapshot, ChangeResponse}
use agent_commerce_lab.ContentCheck.Run.{Run, done, threw, endless}

-- The reply of a `/snapshot` route.
pub data Reply : Type 0 where
  error_reply : ℕ → String → Reply
  payment_required : String → Reply
  batch_reply : List BatchResultItem → Reply
  snapshot_reply : SecuritySnapshot → Option ChangeResponse → Reply

-- `await c.req.text()`: the text of the body, or an exception.
pub data BodyText : Type 0 where
  text_read : String → BodyText
  text_unreadable : BodyText

pub record SnapshotQuery : Type 0 where
  pub url : Option String
  pub content : Option String
  pub history : Option String

-- What the routes take from outside: whether the limiter lets the caller through, whether the payment of
-- a price is verified, the JSON parser, the scans, and the recording of a snapshot.
pub record Env : Type 0 where
  pub limiter : String → Bool
  pub paid : String → Bool
  pub parse_json : String → Option Json
  pub run_batch : List (List ℕ) → Bool → List BatchResultItem
  pub run_snapshot : String → Bool → Run SecuritySnapshot
  pub with_history : SecuritySnapshot → ChangeResponse

-- `rateLimitByIp`
abbrev pub rate_limit : Env → Option String → Reply → Reply
rate_limit env ip next =
    if env.limiter (or_else ip "unknown")
    then next
    else error_reply 429 "rate limit exceeded, try again shortly"

-- `paymentMiddleware` with the price of the request.
abbrev pub payment : Env → String → Reply → Reply
payment env price next = if env.paid price then next else payment_required price

-- The middleware on `/snapshot/batch`: a body without text is null.
abbrev pub json_of : Env → String → Option Json
json_of env raw = if is_empty raw then some json_null else env.parse_json raw

abbrev pub validated : (List (List ℕ) → Bool → Reply) → BatchBodyValidation → Reply
validated next (refused e) = error_reply 400 e
validated next (accepted ds content) = next ds content

abbrev pub parsed_body : (List (List ℕ) → Bool → Reply) → Option Json → Reply
parsed_body next none = error_reply 400 "request body must be valid JSON"
parsed_body next (some body) = validated next (validate_batch_domains body)

abbrev pub batch_body : Env → (List (List ℕ) → Bool → Reply) → BodyText → Reply
batch_body env next text_unreadable = error_reply 400 "unable to read request body"
batch_body env next (text_read raw) = parsed_body next (json_of env raw)

-- The handler; the validated domains are on the context.
abbrev pub batch_handler : Env → List (List ℕ) → Bool → Reply
batch_handler env [] content = error_reply 400 "invalid batch request"
batch_handler env (d ∷ ds) content = batch_reply (env.run_batch (d ∷ ds) content)

-- `POST /snapshot/batch`: limiter, body, payment, handler.
unfoldable pub post_batch : Env → Option String → BodyText → Reply
post_batch env ip body = rate_limit env ip (
    batch_body env
      (λ ds content. payment env (format_batch_price (length ds)) (batch_handler env ds content))
      body)

-- `c.req.query(name) === "true"`
abbrev pub is_true : Option String → Bool
is_true none = false
is_true (some s) = str_eq s "true"

abbrev pub snapshot_done : Env → SnapshotQuery → Run SecuritySnapshot → Run Reply
snapshot_done env q (done s) =
    done (snapshot_reply s (if is_true q.history then some (env.with_history s) else none))
snapshot_done env q threw = threw
snapshot_done env q endless = endless

abbrev pub snapshot_of : Env → SnapshotQuery → Option String → Run Reply
snapshot_of env q none = done (error_reply 400 "missing required query param: url")
snapshot_of env q (some url) =
    if is_empty url
    then done (error_reply 400 "missing required query param: url")
    else snapshot_done env q (env.run_snapshot url (is_true q.content))

-- `GET /snapshot/run`: limiter, payment of one scan, handler.
unfoldable pub get_snapshot : Env → Option String → SnapshotQuery → Run Reply
get_snapshot env ip q =
    if env.limiter (or_else ip "unknown")
    then (if env.paid "$0.01" then snapshot_of env q q.url else done (payment_required "$0.01"))
    else done (error_reply 429 "rate limit exceeded, try again shortly")
