-- ===== src/Autonomous/Types.antt =====
-- src/autonomous/types.ts: services, policy, ledger rows, the injected world, and the task map.
-- Money is a whole number of USDC cents; a nullable field is an `Option`; a timestamp is its text.
use agent_commerce_lab.Prelude.{ℕ, Bool, true, false, Option, String, List, [], ◌∷◌, if◌then◌else◌}
use agent_commerce_lab.Prelude.Text.{str_eq}

pub data ServiceId : Type 0 where
  sitehealth vat_api : ServiceId

pub record EligibleService : Type 0 where
  pub id : ServiceId
  pub canonical_url : String
  pub pay_to : String
  pub price_cents : ℕ
  pub max_per_tx_cents : ℕ

-- `Record<ServiceId, number>`
pub record PerService : Type 0 where
  pub sitehealth_cents : ℕ
  pub vat_api_cents : ℕ

pub record SpendingCeilings : Type 0 where
  pub per_tx_cents : ℕ
  pub daily_cents : ℕ
  pub monthly_cents : ℕ
  pub per_service_cents : PerService

pub record RetryLimits : Type 0 where
  pub max_payment_retries : ℕ
  pub max_service_retries : ℕ

pub record KillSwitchState : Type 0 where
  pub autonomous_commerce_enabled : Bool
  pub disabled_services : List ServiceId

pub record Policy : Type 0 where
  pub version : ℕ
  pub eligible_services : List EligibleService
  pub ceilings : SpendingCeilings
  pub retry_limits : RetryLimits
  pub kill_switch : KillSwitchState

pub data SettlementStatus : Type 0 where
  settled pending failed unknown : SettlementStatus

-- The answer of `verifySettlement`: `"settled" | "failed"`.
pub data Verified : Type 0 where
  verified_settled verified_failed : Verified

pub data ServiceResult : Type 0 where
  success failure fatal : ServiceResult

pub data PolicyDecision : Type 0 where
  accepted rejected_per_tx rejected_per_service rejected_daily : PolicyDecision
  rejected_monthly rejected_ineligible rejected_kill : PolicyDecision

pub data TxOutcome : Type 0 where
  completed aborted_ineligible aborted_policy aborted_kill escalated : TxOutcome
  duplicate_payment_prevented : TxOutcome

-- `Omit<LedgerEntry, "entryId">`
pub record Draft : Type 0 where
  pub tx_id : String
  pub agent_id : String
  pub service_id : Option ServiceId
  pub request : String
  pub quoted_price_cents : Option ℕ
  pub policy_limit_cents : Option ℕ
  pub policy_decision : Option PolicyDecision
  pub payment_attempt : Option ℕ
  pub nonce : Option String
  pub network : String
  pub settlement_status : Option SettlementStatus
  pub service_result : Option ServiceResult
  pub retry_count : Option ℕ
  pub final_outcome : Option TxOutcome
  pub timestamp : String
  pub error_or_dispute : Option String

pub record LedgerEntry : Type 0 where
  pub entry_id : ℕ
  pub draft : Draft
  pub open draft use *

abbrev pub TaskMap : Type 0
TaskMap = List (String × List ServiceId)

pub record World : Type 0 where
  pub payment_outcome : ServiceId → ℕ → SettlementStatus
  pub verify_settlement : ServiceId → ℕ → Verified
  pub service_outcome : ServiceId → ℕ → ServiceResult

pub record TransactionInput : Type 0 where
  pub tx_id : String
  pub agent_id : String
  pub task : String
  pub policy : Policy
  pub task_map : TaskMap
  pub world : World
  pub now : String

pub record TransactionResult : Type 0 where
  pub outcome : TxOutcome
  pub selected_service_id : Option ServiceId
  pub payment_attempts : ℕ
  pub payments_settled : ℕ
  pub service_attempts : ℕ
  pub payment_retries_used : ℕ
  pub service_retries_used : ℕ
  pub nonces : List String
  pub notes : List String

-- `a === b` on service ids
abbrev pub service_eq : ServiceId → ServiceId → Bool
service_eq sitehealth sitehealth = true
service_eq vat_api vat_api = true
service_eq _ _ = false

abbrev pub service_text : ServiceId → String
service_text sitehealth = "sitehealth"
service_text vat_api = "vat-api"

abbrev pub service_limit : PerService → ServiceId → ℕ
service_limit r sitehealth = r.sitehealth_cents
service_limit r vat_api = r.vat_api_cents

-- `taskMap[task] ?? []`
abbrev pub tasks_for : TaskMap → String → List ServiceId
tasks_for [] task = []
tasks_for ((t, ids) ∷ m) task = if str_eq t task then ids else tasks_for m task

abbrev pub status_text : SettlementStatus → String
status_text settled = "settled"
status_text pending = "pending"
status_text failed = "failed"
status_text unknown = "unknown"

abbrev pub verified_text : Verified → String
verified_text verified_settled = "settled"
verified_text verified_failed = "failed"

abbrev pub result_text : ServiceResult → String
result_text success = "success"
result_text failure = "failure"
result_text fatal = "fatal"

abbrev pub decision_text : PolicyDecision → String
decision_text accepted = "accepted"
decision_text rejected_per_tx = "rejected-per-tx"
decision_text rejected_per_service = "rejected-per-service"
decision_text rejected_daily = "rejected-daily"
decision_text rejected_monthly = "rejected-monthly"
decision_text rejected_ineligible = "rejected-ineligible"
decision_text rejected_kill = "rejected-kill"
