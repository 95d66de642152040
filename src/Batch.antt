-- ===== src/Batch.antt =====
-- src/batch.ts: the constants of a batch and its price.
pub mod Validate
pub mod Sound
pub mod Requests
pub mod Pool
pub mod Results
pub mod Complete
pub mod Finishes
mod Tests
use agent_commerce_lab.Prelude.{ℕ, ◌*◌, ◌/◌, ◌%◌, String}
use agent_commerce_lab.Prelude.Text.{◌<>◌, decimal}

abbrev pub batch_min_domains : ℕ
batch_min_domains = 2

abbrev pub batch_max_domains : ℕ
batch_max_domains = 20

abbrev pub batch_concurrency : ℕ
batch_concurrency = 5

abbrev pub batch_price_cents_per_domain : ℕ
batch_price_cents_per_domain = 1

-- `(cents / 100).toFixed(2)`: the dollars, a point, two digits.
unfoldable pub format_batch_price : ℕ → String
format_batch_price domain_count =
    let cents = domain_count * batch_price_cents_per_domain in
    "$" <> decimal (cents / 100) <> "." <> decimal (cents % 100 / 10) <> decimal (cents % 10)
