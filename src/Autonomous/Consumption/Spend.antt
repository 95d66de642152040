-- ===== src/Autonomous/Consumption/Spend.antt =====
-- Calling the service, as src/autonomous/state-machine.ts does, spends nothing.
use agent_commerce_lab.Prelude.{ℕ, zero, suc, ◌+◌, ◌≡◌, refl, String, arith}
use agent_commerce_lab.Autonomous.Types.{
  ServiceId, ServiceResult, success, failure, fatal, TransactionInput,
}
use agent_commerce_lab.Autonomous.Ledger.{settled_spend_cents}
use agent_commerce_lab.Autonomous.Ledger.Laws.{settled_spend_cents-record_row}
use agent_commerce_lab.Autonomous.Session.{Session}
use agent_commerce_lab.Autonomous.Consumption.{
  ConsumeResult, service_row, call_service, after_call, consume_from, consume_with_retries,
}

module _ (input : TransactionInput) (tx : String) (service : ServiceId) (since until : String) where
  after_call_spend :
      (attempt : ℕ) (more : Session → ConsumeResult × Session) (r : ServiceResult) (n : ℕ)
      (s : Session)
      → settled_spend_cents since until s.ledger ≡ n
      → settled_spend_cents since until (more s).1.ledger ≡ n
      → settled_spend_cents since until (after_call input tx service attempt more r s).1.ledger ≡ n
  after_call_spend attempt more success n s h k = h
  after_call_spend attempt more fatal n s h k = h
  after_call_spend attempt more failure n s h k = k

  consume_from_spend :
      (rounds attempt : ℕ) (n : ℕ) (s : Session)
      → settled_spend_cents since until s.ledger ≡ n
      → settled_spend_cents since until (consume_from input tx service rounds attempt s).1.ledger
        ≡ n
  unfolding consume_from
  consume_from_spend zero attempt n s h = h
  consume_from_spend (suc rounds) attempt n s h =
      let r = input.world.service_outcome service attempt in
      let s' = call_service input tx service attempt s in
      let same : settled_spend_cents since until s'.ledger ≡ n = omega (
        arith,
        h,
        settled_spend_cents-record_row since until (service_row input tx service attempt r)
            s.ledger,
      ) in
      after_call_spend attempt (consume_from input tx service rounds (attempt + 1)) r n s' same
        (consume_from_spend rounds (attempt + 1) n s' same)

  pub consume_with_retries_spend :
      (s : Session)
      → settled_spend_cents since until (consume_with_retries input tx service s).1.ledger
        ≡ settled_spend_cents since until s.ledger
  unfolding consume_with_retries
  consume_with_retries_spend s =
      consume_from_spend (1 + input.policy.retry_limits.max_service_retries) 1 _ s refl
