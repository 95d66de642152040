-- ===== src/Autonomous/Consumption/Nonces.antt =====
-- Calling the service, as src/autonomous/state-machine.ts does, uses no nonce.
use agent_commerce_lab.Prelude.{ℕ, zero, suc, ◌+◌, ◌≡◌, refl, String, false}
use agent_commerce_lab.Autonomous.Types.{
  ServiceId, ServiceResult, success, failure, fatal, TransactionInput,
}
use agent_commerce_lab.Autonomous.Ledger.{nonce_used}
use agent_commerce_lab.Autonomous.Session.{Session}
use agent_commerce_lab.Autonomous.Payment.Nonces.{unused-record_row}
use agent_commerce_lab.Autonomous.Consumption.{
  ConsumeResult, service_row, call_service, after_call, consume_from, consume_with_retries,
}

module _ (input : TransactionInput) (tx : String) (service : ServiceId) (n : String) where
  after_call-unused :
      (attempt : ℕ) (more : Session → ConsumeResult × Session) (r : ServiceResult) (s : Session)
      → nonce_used n s.ledger ≡ false
      → nonce_used n (more s).1.ledger ≡ false
      → nonce_used n (after_call input tx service attempt more r s).1.ledger ≡ false
  after_call-unused attempt more success s h k = h
  after_call-unused attempt more fatal s h k = h
  after_call-unused attempt more failure s h k = k

  consume_from-unused :
      (rounds attempt : ℕ) (s : Session)
      → nonce_used n s.ledger ≡ false
      → nonce_used n (consume_from input tx service rounds attempt s).1.ledger ≡ false
  unfolding consume_from
  consume_from-unused zero attempt s h = h
  consume_from-unused (suc rounds) attempt s h =
      let r = input.world.service_outcome service attempt in
      let s' = call_service input tx service attempt s in
      let h' = unused-record_row n (service_row input tx service attempt r) s.ledger refl h in
      after_call-unused attempt (consume_from input tx service rounds (attempt + 1)) r s' h'
        (consume_from-unused rounds (attempt + 1) s' h')

  pub consume_with_retries-unused :
      (s : Session)
      → nonce_used n s.ledger ≡ false
      → nonce_used n (consume_with_retries input tx service s).1.ledger ≡ false
  unfolding consume_with_retries
  consume_with_retries-unused s h =
      consume_from-unused (1 + input.policy.retry_limits.max_service_retries) 1 s h
