-- ===== src/Autonomous/Payment/Refines.antt =====
-- The payment loop of src/autonomous/state-machine.ts follows the protocol, and what it returns as
-- settled is settled in the ledger.
use agent_commerce_lab.Prelude.{
  ℕ, zero, suc, ◌+◌, ◌<◌, ◌≡◌, refl, inl, inr, true, false, some, String, Bool-cases,
}
use agent_commerce_lab.Autonomous.Types.{
  ServiceId, SettlementStatus, settled, pending, failed, unknown, Verified, verified_settled,
  verified_failed, TransactionInput,
}
use agent_commerce_lab.Autonomous.Ledger.{Ledger, can_issue_payment, nonce_used, last_payment_for}
use agent_commerce_lab.Autonomous.Ledger.Laws.{last_payment_for-record_row}
use agent_commerce_lab.Autonomous.Session.{Session, Thrown, returned, threw, log_row}
use agent_commerce_lab.Autonomous.Payment.{
  PayResult, Turn, done, again, broke, nonce_for, pay_row, verify_row, after_verify, verify_turn,
  after_pay, issue_payment, pay_turn, after_turn, pay_from, pay_with_retries,
}
use agent_commerce_lab.Autonomous.Protocol.{
  Reaches, here, next, Reaches-trans, quiet, pay, verify, is_paid, is_ambiguous, status_of,
}
use text.Mathlib.TextPositions.{eq_refl}

-- A result that counts a settled payment stands on a ledger where the payment is settled.
abbrev pub TurnIsPaid : String → Turn → Ledger → Type 0
TurnIsPaid tx (done r) l = 0 < r.settled_payments → is_paid tx l ≡ true
TurnIsPaid tx again l = Unit
TurnIsPaid tx (broke m) l = Unit

abbrev pub ResultIsPaid : String → Thrown PayResult → Ledger → Type 0
ResultIsPaid tx (returned r) l = 0 < r.settled_payments → is_paid tx l ≡ true
ResultIsPaid tx (threw m) l = Unit

module _ (input : TransactionInput) (tx : String) (service : ServiceId) (price : ℕ) where
  last_of_pay_row :
      (attempt : ℕ) (outcome : SettlementStatus) (s : Session)
      → status_of
          (last_payment_for tx (log_row (pay_row input tx service price attempt outcome) s).ledger)
        ≡ some outcome
  last_of_pay_row attempt outcome s =
      rw (last_payment_for-record_row tx (pay_row input tx service price attempt outcome) s.ledger)
        (rw (eq_refl tx) refl)

  last_of_verify_row :
      (attempt : ℕ) (s : Session)
      → is_paid tx (log_row (verify_row input tx service price attempt verified_settled) s).ledger
        ≡ true
  last_of_verify_row attempt s =
      rw
        (last_payment_for-record_row tx (verify_row input tx service price attempt verified_settled)
          s.ledger)
        (rw (eq_refl tx) refl)

  after_verify_lem :
      (attempt : ℕ) (v : Verified) (s : Session)
      → is_ambiguous tx s.ledger ≡ true
      → let s1 = log_row (verify_row input tx service price attempt v) s in
        (t : Session)
        → t.ledger ≡ s1.ledger
        → let (turn, s') = after_verify input tx service price attempt v t in
          Reaches s.ledger s'.ledger × TurnIsPaid tx turn s'.ledger
  unfolding after_verify
  after_verify_lem attempt verified_settled s h t e = (
    rw e (next here (verify attempt settled refl refl refl refl h)),
    λ _. rw e (last_of_verify_row attempt s),
  )
  after_verify_lem attempt verified_failed s h t e =
      (rw e (next here (verify attempt failed refl refl refl refl h)), tt)

  verify_turn_lem :
      (attempt : ℕ) (outcome : SettlementStatus) (s : Session)
      → is_ambiguous tx s.ledger ≡ true
      → let (turn, s') = verify_turn input tx service price attempt outcome s in
        Reaches s.ledger s'.ledger × TurnIsPaid tx turn s'.ledger
  unfolding verify_turn
  verify_turn_lem attempt outcome s h =
      after_verify_lem attempt (input.world.verify_settlement service attempt) s h _ refl

  after_pay_lem :
      (attempt : ℕ) (outcome : SettlementStatus) (s : Session)
      → status_of (last_payment_for tx s.ledger) ≡ some outcome
      → let (turn, s') = after_pay input tx service price attempt outcome s in
        Reaches s.ledger s'.ledger × TurnIsPaid tx turn s'.ledger
  unfolding after_pay
  after_pay_lem attempt settled s h = (here, λ _. rw h refl)
  after_pay_lem attempt failed s h = (here, tt)
  after_pay_lem attempt pending s h = verify_turn_lem attempt pending s (rw h refl)
  after_pay_lem attempt unknown s h = verify_turn_lem attempt unknown s (rw h refl)

  issue_payment_lem :
      (attempt : ℕ) (s : Session)
      → nonce_used (nonce_for tx attempt) s.ledger ≡ false
      → (can_issue_payment tx s.ledger).ok ≡ true
      → let (turn, s') = issue_payment input tx service price attempt s in
        Reaches s.ledger s'.ledger × TurnIsPaid tx turn s'.ledger
  unfolding issue_payment
  issue_payment_lem attempt s unused allowed =
      let outcome = input.world.payment_outcome service attempt in
      let (r, p) = after_pay_lem attempt outcome _ (last_of_pay_row attempt outcome s) in
      (
        Reaches-trans
            (next here
              (pay attempt (nonce_for tx attempt) outcome refl refl refl refl unused allowed))
            r,
        p,
      )

  pay_turn_lem :
      (attempt : ℕ) (s : Session)
      → let (turn, s') = pay_turn input tx service price attempt s in
        Reaches s.ledger s'.ledger × TurnIsPaid tx turn s'.ledger
  unfolding pay_turn
  pay_turn_lem attempt s = elim (Bool-cases input.policy.kill_switch.autonomous_commerce_enabled) [
    | inr off ↦ rw off (next here (quiet refl refl refl), λ h. elim h [ ])
    | inl on ↦ rw on (elim (Bool-cases (can_issue_payment tx s.ledger).ok) [
      | inr refused ↦ rw refused (next here (quiet refl refl refl), λ h. elim h [ ])
      | inl allowed ↦ rw allowed (elim (Bool-cases (nonce_used (nonce_for tx attempt) s.ledger)) [
        | inl used ↦ rw used (here, tt)
        | inr unused ↦ rw unused (issue_payment_lem attempt s unused allowed)
      ])
    ])
  ]

  after_turn_lem :
      (more : Session → Thrown PayResult × Session) (turn : Turn) (s s' : Session)
      → Reaches s.ledger s'.ledger × TurnIsPaid tx turn s'.ledger
      → (let (r, s2) = more s' in Reaches s'.ledger s2.ledger × ResultIsPaid tx r s2.ledger)
      → let (r, s2) = after_turn input tx service price more turn s' in
        Reaches s.ledger s2.ledger × ResultIsPaid tx r s2.ledger
  after_turn_lem more (done r) s s' h k = h
  after_turn_lem more again s s' h k = (Reaches-trans h.0 k.0, k.1)
  after_turn_lem more (broke m) s s' h k = (h.0, tt)

  pay_from_lem :
      (rounds attempt : ℕ) (s : Session)
      → let (r, s') = pay_from input tx service price rounds attempt s in
        Reaches s.ledger s'.ledger × ResultIsPaid tx r s'.ledger
  unfolding pay_from
  pay_from_lem zero attempt s = (here, λ h. elim h [ ])
  pay_from_lem (suc rounds) attempt s =
      let (turn, s') = pay_turn input tx service price attempt s in
      after_turn_lem (pay_from input tx service price rounds (attempt + 1)) turn s s'
        (pay_turn_lem attempt s) (pay_from_lem rounds (attempt + 1) s')

  -- Paying follows the protocol, and a payment counted as settled is settled in the ledger.
  pub pay_with_retries_lem :
      (s : Session)
      → let (r, s') = pay_with_retries input tx service price s in
        Reaches s.ledger s'.ledger × ResultIsPaid tx r s'.ledger
  unfolding pay_with_retries
  pay_with_retries_lem s = pay_from_lem (1 + input.policy.retry_limits.max_payment_retries) 1 s
