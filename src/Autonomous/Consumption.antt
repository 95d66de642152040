-- ===== src/Autonomous/Consumption.antt =====
-- `consumeWithRetries` of src/autonomous/state-machine.ts: calling the paid service with retries.
pub mod Refines
pub mod Spend
pub mod Nonces
pub mod Bounds
use agent_commerce_lab.Prelude.{ℕ, zero, suc, ◌+◌, ◌-◌, Option, none, some, String}
use agent_commerce_lab.Prelude.Text.{◌<>◌, decimal}
use agent_commerce_lab.Autonomous.Types.{
  Draft, ServiceId, ServiceResult, success, failure, fatal, TransactionInput, result_text,
}
use agent_commerce_lab.Autonomous.Session.{Session, note, log_row, row}

-- `{ attempts, result }`
pub record ConsumeResult : Type 0 where
  pub attempts : ℕ
  pub result : ServiceResult

module _ (input : TransactionInput) (tx : String) (service : ServiceId) where
  abbrev pub failure_text : ℕ → ServiceResult → Option String
  failure_text attempt success = none
  failure_text attempt r = some ("service attempt " <> decimal attempt <> ": " <> result_text r)

  abbrev pub service_row : ℕ → ServiceResult → Draft
  service_row attempt r = record (row input tx (some service)) {
    service_result = some r;
    error_or_dispute = failure_text attempt r;
  }

  -- The call of one round, recorded and noted.
  abbrev pub call_service : ℕ → Session → Session
  call_service attempt s =
      let r = input.world.service_outcome service attempt in
      note ("service attempt " <> decimal attempt <> ": " <> result_text r)
        (log_row (service_row attempt r) s)

  -- What follows a call: the loop ends at success and at a fatal failure, and goes on otherwise.
  abbrev pub after_call :
      ℕ → (Session → ConsumeResult × Session) → ServiceResult → Session → ConsumeResult × Session
  after_call attempt more success s = (record { attempts = attempt; result = success }, s)
  after_call attempt more fatal s = (record { attempts = attempt; result = fatal }, s)
  after_call attempt more failure s = more s

  -- The loop from `attempt`, with `rounds` attempts left.
  unfoldable pub consume_from : ℕ → ℕ → Session → ConsumeResult × Session
  consume_from zero attempt s = (record { attempts = attempt - 1; result = failure }, s)
  consume_from (suc rounds) attempt s =
      after_call attempt (consume_from rounds (attempt + 1))
        (input.world.service_outcome service attempt) (call_service attempt s)

  unfoldable pub consume_with_retries : Session → ConsumeResult × Session
  consume_with_retries s = consume_from (1 + input.policy.retry_limits.max_service_retries) 1 s
