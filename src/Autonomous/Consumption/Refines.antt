-- ===== src/Autonomous/Consumption/Refines.antt =====
-- The consumption loop of src/autonomous/state-machine.ts follows the protocol, once the payment is
-- settled.
use agent_commerce_lab.Prelude.{ℕ, zero, suc, ◌+◌, ◌≡◌, refl, true, String, arith}
use agent_commerce_lab.Autonomous.Types.{
  ServiceId, ServiceResult, success, failure, fatal, TransactionInput,
}
use agent_commerce_lab.Autonomous.Ledger.Laws.{last_payment_for-record_row}
use agent_commerce_lab.Autonomous.Session.{Session}
use agent_commerce_lab.Autonomous.Consumption.{
  ConsumeResult, service_row, call_service, after_call, consume_from, consume_with_retries,
}
use agent_commerce_lab.Autonomous.Protocol.{Reaches, here, next, Reaches-trans, serve, is_paid}

module _ (input : TransactionInput) (tx : String) (service : ServiceId) where
  -- A call of the service is no payment event.
  is_paid-call_service :
      (attempt : ℕ) (s : Session)
      → is_paid tx s.ledger ≡ true
      → is_paid tx (call_service input tx service attempt s).ledger ≡ true
  is_paid-call_service attempt s h = ground (
    arith,
    last_payment_for-record_row tx
        (service_row input tx service attempt (input.world.service_outcome service attempt))
        s.ledger,
  )

  Reaches-call_service :
      (attempt : ℕ) (s : Session)
      → is_paid tx s.ledger ≡ true
      → Reaches s.ledger (call_service input tx service attempt s).ledger
  Reaches-call_service attempt s h =
      next here (serve (input.world.service_outcome service attempt) refl refl refl refl h)

  after_call_lem :
      (attempt : ℕ) (more : Session → ConsumeResult × Session) (r : ServiceResult) (s s' : Session)
      → Reaches s.ledger s'.ledger
      → Reaches s'.ledger (more s').1.ledger
      → Reaches s.ledger (after_call input tx service attempt more r s').1.ledger
  after_call_lem attempt more success s s' h k = h
  after_call_lem attempt more fatal s s' h k = h
  after_call_lem attempt more failure s s' h k = Reaches-trans h k

  consume_from_lem :
      (rounds attempt : ℕ) (s : Session)
      → is_paid tx s.ledger ≡ true
      → Reaches s.ledger (consume_from input tx service rounds attempt s).1.ledger
  unfolding consume_from
  consume_from_lem zero attempt s h = here
  consume_from_lem (suc rounds) attempt s h =
      let s' = call_service input tx service attempt s in
      after_call_lem attempt (consume_from input tx service rounds (attempt + 1))
        (input.world.service_outcome service attempt) s s' (Reaches-call_service attempt s h)
        (consume_from_lem rounds (attempt + 1) s' (is_paid-call_service attempt s h))

  -- Calling a paid service follows the protocol.
  pub consume_with_retries_lem :
      (s : Session)
      → is_paid tx s.ledger ≡ true
      → Reaches s.ledger (consume_with_retries input tx service s).1.ledger
  unfolding consume_with_retries
  consume_with_retries_lem s h =
      consume_from_lem (1 + input.policy.retry_limits.max_service_retries) 1 s h
