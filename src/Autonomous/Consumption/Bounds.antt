-- ===== src/Autonomous/Consumption/Bounds.antt =====
-- The consumption loop of src/autonomous/state-machine.ts makes at most one attempt more than there
-- are retries.
use agent_commerce_lab.Prelude.{ℕ, zero, suc, ◌+◌, ◌≤◌, String, arith}
use agent_commerce_lab.Autonomous.Types.{
  ServiceId, ServiceResult, success, failure, fatal, TransactionInput,
}
use agent_commerce_lab.Autonomous.Session.{Session}
use agent_commerce_lab.Autonomous.Consumption.{
  ConsumeResult, call_service, after_call, consume_from, consume_with_retries,
}

module _ (input : TransactionInput) (tx : String) (service : ServiceId) where
  after_call_bound :
      (most attempt : ℕ) (more : Session → ConsumeResult × Session) (r : ServiceResult)
      (s : Session)
      → attempt ≤ most
      → (more s).0.attempts ≤ most
      → (after_call input tx service attempt more r s).0.attempts ≤ most
  after_call_bound most attempt more success s h k = h
  after_call_bound most attempt more fatal s h k = h
  after_call_bound most attempt more failure s h k = k

  consume_from_bound :
      (most rounds attempt : ℕ) (s : Session)
      → attempt + rounds ≤ most + 1
      → (consume_from input tx service rounds attempt s).0.attempts ≤ most
  unfolding consume_from
  consume_from_bound most zero attempt s h = omega arith
  consume_from_bound most (suc rounds) attempt s h =
      let s' = call_service input tx service attempt s in
      after_call_bound most attempt (consume_from input tx service rounds (attempt + 1))
        (input.world.service_outcome service attempt) s' (omega arith)
        (consume_from_bound most rounds (attempt + 1) s' (omega arith))

  pub consume_with_retries_bound :
      (s : Session)
      → (consume_with_retries input tx service s).0.attempts
        ≤ 1 + input.policy.retry_limits.max_service_retries
  unfolding consume_with_retries
  consume_with_retries_bound s =
      let most = 1 + input.policy.retry_limits.max_service_retries in
      consume_from_bound most most 1 s (omega arith)
