-- ===== src/Autonomous/Payment/Spend.antt =====
-- What the payment loop of src/autonomous/state-machine.ts adds to the settled spend of a window:
-- the price, once, if it returns a settled payment, and nothing otherwise.
use agent_commerce_lab.Prelude.{
  ℕ, zero, suc, ◌+◌, ◌*◌, ◌≤◌, ◌≡◌, refl, inl, inr, String, arith, Bool-cases,
}
use agent_commerce_lab.Autonomous.Types.{
  ServiceId, SettlementStatus, settled, pending, failed, unknown, Verified, verified_settled,
  verified_failed, TransactionInput,
}
use agent_commerce_lab.Autonomous.Ledger.{
  Ledger, can_issue_payment, nonce_used, settled_spend_cents,
}
use agent_commerce_lab.Autonomous.Ledger.Laws.{settled_spend_cents-record_row, spend_of}
use agent_commerce_lab.Autonomous.Session.{Session, Thrown, returned, threw, log_row}
use agent_commerce_lab.Autonomous.Payment.{
  PayResult, Turn, done, again, broke, nonce_for, pay_row, verify_row, killed_row, refused_row,
  after_verify, verify_turn, after_pay, pay_turn, after_turn, pay_from, pay_with_retries,
}

abbrev pub turn_settled : Turn → ℕ
turn_settled (done r) = r.settled_payments
turn_settled _ = 0

abbrev pub result_settled : Thrown PayResult → ℕ
result_settled (returned r) = r.settled_payments
result_settled (threw m) = 0

module _ (input : TransactionInput) (tx : String) (service : ServiceId) (price : ℕ)
    (since until : String) where
  abbrev spend : Ledger → ℕ
  spend l = settled_spend_cents since until l

  -- At most one payment is counted, and the spend grows by its price at most.
  abbrev Spends : ℕ → Ledger → Ledger → Type 0
  Spends count l l' = (count ≤ 1) × (spend l' ≤ spend l + count * price)

  after_verify-Spends :
      (attempt : ℕ) (v : Verified) (s t : Session)
      → t.ledger ≡ (log_row (verify_row input tx service price attempt v) s).ledger
      → let (turn, s') = after_verify input tx service price attempt v t in
        Spends (turn_settled turn) s.ledger s'.ledger
  unfolding after_verify
  after_verify-Spends attempt verified_settled s t e = rw e (
      ground (
        arith,
        settled_spend_cents-record_row since until
            (verify_row input tx service price attempt verified_settled) s.ledger,
      ))
  after_verify-Spends attempt verified_failed s t e = rw e (
      ground (
        arith,
        settled_spend_cents-record_row since until
            (verify_row input tx service price attempt verified_failed) s.ledger,
      ))

  -- A verification follows a payment that added nothing.
  verify_turn-Spends :
      (attempt : ℕ) (outcome : SettlementStatus) (s : Session)
      → let (turn, s') = verify_turn input tx service price attempt outcome s in
        Spends (turn_settled turn) s.ledger s'.ledger
  unfolding verify_turn
  verify_turn-Spends attempt outcome s =
      after_verify-Spends attempt (input.world.verify_settlement service attempt) s _ refl

  after_pay-Spends :
      (attempt : ℕ) (outcome : SettlementStatus) (l : Ledger) (t : Session)
      → spend t.ledger
        ≡ spend l + spend_of since until (pay_row input tx service price attempt outcome)
      → let (turn, s') = after_pay input tx service price attempt outcome t in
        Spends (turn_settled turn) l s'.ledger
  unfolding after_pay
  after_pay-Spends attempt settled l t e = ground arith
  after_pay-Spends attempt failed l t e = ground arith
  after_pay-Spends attempt pending l t e = ground (arith, verify_turn-Spends attempt pending t)
  after_pay-Spends attempt unknown l t e = ground (arith, verify_turn-Spends attempt unknown t)

  pay_turn-Spends :
      (attempt : ℕ) (s : Session)
      → let (turn, s') = pay_turn input tx service price attempt s in
        Spends (turn_settled turn) s.ledger s'.ledger
  unfolding pay_turn
  pay_turn-Spends attempt s =
      let guard = can_issue_payment tx s.ledger in
      let outcome = input.world.payment_outcome service attempt in
      elim (Bool-cases input.policy.kill_switch.autonomous_commerce_enabled) [
        | inr off ↦ rw off (
            ground (
              arith,
              settled_spend_cents-record_row since until (killed_row input tx service price attempt)
                  s.ledger,
            ))
        | inl on ↦ rw on (elim (Bool-cases guard.ok) [
          | inr refused ↦ rw refused (
              ground (
                arith,
                settled_spend_cents-record_row since until
                    (refused_row input tx service price attempt guard.reason) s.ledger,
              ))
          | inl allowed ↦
              rw allowed (elim (Bool-cases (nonce_used (nonce_for tx attempt) s.ledger)) [
                | inl used ↦ rw used (omega arith)
                | inr unused ↦ rw unused (
                    after_pay-Spends attempt outcome s.ledger _ (
                      settled_spend_cents-record_row since until
                        (pay_row input tx service price attempt outcome) s.ledger))
              ])
        ])
      ]

  after_turn-Spends :
      (more : Session → Thrown PayResult × Session) (turn : Turn) (l : Ledger) (s' : Session)
      → Spends (turn_settled turn) l s'.ledger
      → (let (r, s2) = more s' in Spends (result_settled r) s'.ledger s2.ledger)
      → let (r, s2) = after_turn input tx service price more turn s' in
        Spends (result_settled r) l s2.ledger
  after_turn-Spends more (done r) l s' h k = h
  after_turn-Spends more again l s' h k = omega arith
  after_turn-Spends more (broke m) l s' h k = h

  pay_from-Spends :
      (rounds attempt : ℕ) (s : Session)
      → let (r, s') = pay_from input tx service price rounds attempt s in
        Spends (result_settled r) s.ledger s'.ledger
  unfolding pay_from
  pay_from-Spends zero attempt s = omega arith
  pay_from-Spends (suc rounds) attempt s =
      let (turn, s') = pay_turn input tx service price attempt s in
      after_turn-Spends (pay_from input tx service price rounds (attempt + 1)) turn s.ledger s'
        (pay_turn-Spends attempt s) (pay_from-Spends rounds (attempt + 1) s')

  -- Paying adds the price to a window's settled spend at most once, and nothing if it does not
  -- return a settled payment.
  pub pay_with_retries-Spends :
      (s : Session)
      → let (r, s') = pay_with_retries input tx service price s in
        (result_settled r ≤ 1)
        × (settled_spend_cents since until s'.ledger
            ≤ settled_spend_cents since until s.ledger + result_settled r * price)
  unfolding pay_with_retries
  pay_with_retries-Spends s =
      pay_from-Spends (1 + input.policy.retry_limits.max_payment_retries) 1 s
