-- ===== src/Autonomous/Payment/Bounds.antt =====
-- The payment loop of src/autonomous/state-machine.ts makes at most one attempt more than there are
-- retries, and counts at most one settled payment.
use agent_commerce_lab.Prelude.{ℕ, zero, suc, ◌+◌, ◌≤◌, ◌≡◌, inl, inr, Bool-cases, String, arith}
use agent_commerce_lab.Autonomous.Types.{
  ServiceId, SettlementStatus, settled, pending, failed, unknown, Verified, verified_settled,
  verified_failed, TransactionInput,
}
use agent_commerce_lab.Autonomous.Ledger.{can_issue_payment, nonce_used}
use agent_commerce_lab.Autonomous.Session.{Session, Thrown, returned, threw}
use agent_commerce_lab.Autonomous.Payment.{
  PayResult, Turn, done, again, broke, nonce_for, after_verify, verify_turn, after_pay, pay_turn,
  after_turn, pay_from, pay_with_retries,
}

abbrev pub ResultIsBounded : TransactionInput → Thrown PayResult → Type 0
ResultIsBounded input (returned r) =
    (r.attempts ≤ 1 + input.policy.retry_limits.max_payment_retries) × (r.settled_payments ≤ 1)
ResultIsBounded input (threw m) = Unit

module _ (input : TransactionInput) (tx : String) (service : ServiceId) (price : ℕ) where
  -- A round that ends the loop ends it at its own attempt.
  abbrev TurnIsBounded : ℕ → Turn → Type 0
  TurnIsBounded attempt (done r) = (r.attempts ≡ attempt) × (r.settled_payments ≤ 1)
  TurnIsBounded attempt again = Unit
  TurnIsBounded attempt (broke m) = Unit

  after_verify-IsBounded :
      (attempt : ℕ) (v : Verified) (t : Session)
      → TurnIsBounded attempt (after_verify input tx service price attempt v t).0
  unfolding after_verify
  after_verify-IsBounded attempt verified_settled t = omega arith
  after_verify-IsBounded attempt verified_failed t = tt

  after_pay-IsBounded :
      (attempt : ℕ) (outcome : SettlementStatus) (t : Session)
      → TurnIsBounded attempt (after_pay input tx service price attempt outcome t).0
  unfolding after_pay verify_turn
  after_pay-IsBounded attempt settled t = omega arith
  after_pay-IsBounded attempt failed t = tt
  after_pay-IsBounded attempt pending t = after_verify-IsBounded attempt _ _
  after_pay-IsBounded attempt unknown t = after_verify-IsBounded attempt _ _

  pay_turn-IsBounded :
      (attempt : ℕ) (s : Session)
      → TurnIsBounded attempt (pay_turn input tx service price attempt s).0
  unfolding pay_turn
  pay_turn-IsBounded attempt s =
      elim (Bool-cases input.policy.kill_switch.autonomous_commerce_enabled) [
        | inr off ↦ rw off (omega arith)
        | inl on ↦ rw on (elim (Bool-cases (can_issue_payment tx s.ledger).ok) [
          | inr refused ↦ rw refused (omega arith)
          | inl allowed ↦
              rw allowed (elim (Bool-cases (nonce_used (nonce_for tx attempt) s.ledger)) [
                | inl used ↦ rw used tt
                | inr unused ↦
                    rw unused
                      (after_pay-IsBounded attempt (input.world.payment_outcome service attempt) _)
              ])
        ])
      ]

  abbrev Bounded : ℕ → Thrown PayResult → Type 0
  Bounded most (returned r) = (r.attempts ≤ most) × (r.settled_payments ≤ 1)
  Bounded most (threw m) = Unit

  after_turn-IsBounded :
      (most attempt : ℕ) (more : Session → Thrown PayResult × Session) (turn : Turn) (s' : Session)
      → attempt ≤ most
      → TurnIsBounded attempt turn
      → Bounded most (more s').0
      → Bounded most (after_turn input tx service price more turn s').0
  after_turn-IsBounded most attempt more (done r) s' le h k = omega arith
  after_turn-IsBounded most attempt more again s' le h k = k
  after_turn-IsBounded most attempt more (broke m) s' le h k = tt

  pay_from-IsBounded :
      (most rounds attempt : ℕ) (s : Session)
      → attempt + rounds ≤ most + 1
      → Bounded most (pay_from input tx service price rounds attempt s).0
  unfolding pay_from
  pay_from-IsBounded most zero attempt s h = omega arith
  pay_from-IsBounded most (suc rounds) attempt s h =
      let (turn, s') = pay_turn input tx service price attempt s in
      after_turn-IsBounded most attempt (pay_from input tx service price rounds (attempt + 1)) turn
        s' (omega arith) (pay_turn-IsBounded attempt s)
        (pay_from-IsBounded most rounds (attempt + 1) s' (omega arith))

  pub pay_with_retries-IsBounded :
      (s : Session) → ResultIsBounded input (pay_with_retries input tx service price s).0
  unfolding pay_with_retries
  pay_with_retries-IsBounded s =
      let most = 1 + input.policy.retry_limits.max_payment_retries in
      as_result (pay_from input tx service price most 1 s).0
        (pay_from-IsBounded most most 1 s (omega arith))
    where
      as_result :
          (r : Thrown PayResult)
          → Bounded (1 + input.policy.retry_limits.max_payment_retries) r
          → ResultIsBounded input r
      as_result (returned r) h = h
      as_result (threw m) h = h
