-- ===== src/Autonomous/Payment.antt =====
-- `payWithRetries` of src/autonomous/state-machine.ts: paying with retries, and the settlement check
-- that comes before any further payment. One round of the loop is `pay_turn`.
pub mod Refines
pub mod Spend
pub mod Nonces
pub mod Bounds
use agent_commerce_lab.Prelude.{
  ℕ, zero, suc, ◌+◌, ◌-◌, Bool, true, false, not, Option, none, some, String, min, if◌then◌else◌,
  or_else,
}
use agent_commerce_lab.Prelude.Text.{◌<>◌, decimal}
use agent_commerce_lab.Autonomous.Types.{
  Draft, ServiceId, SettlementStatus, settled, pending, failed, unknown, Verified, verified_settled,
  verified_failed, accepted, rejected_per_tx, rejected_kill, aborted_kill,
  duplicate_payment_prevented, TransactionInput, status_text, verified_text,
}
use agent_commerce_lab.Autonomous.Ledger.{can_issue_payment, nonce_used}
use agent_commerce_lab.Autonomous.Session.{
  Session, note, push_nonce, log_row, Thrown, returned, threw, row,
}

-- `{ attempts, settled, note?, verificationRequiredButKilled? }`
pub record PayResult : Type 0 where
  pub attempts : ℕ
  pub settled_payments : ℕ
  pub pay_note : Option String
  pub required_but_killed : Bool

-- How a round ends: by a `return`, by going on to the next attempt, or by a `throw`.
pub data Turn : Type 0 where
  done : PayResult → Turn
  again : Turn
  broke : String → Turn

-- `${txId}:pay:${attempt}`
unfoldable pub nonce_for : String → ℕ → String
nonce_for tx attempt = tx <> ":pay:" <> decimal attempt

module _ (input : TransactionInput) (tx : String) (service : ServiceId) (price : ℕ) where
  -- The row that a payment attempt leaves, whatever became of it.
  abbrev pub attempt_row : ℕ → Draft
  attempt_row attempt = record (row input tx (some service)) {
    quoted_price_cents = some price;
    payment_attempt = some attempt;
    retry_count = some (attempt - 1);
  }

  abbrev pub killed_row : ℕ → Draft
  killed_row attempt = record (attempt_row attempt) {
    policy_decision = some rejected_kill;
    final_outcome = some aborted_kill;
    error_or_dispute = some "kill switch";
  }

  abbrev pub refused_row : ℕ → Option String → Draft
  refused_row attempt reason = record (attempt_row attempt) {
    policy_decision = some rejected_per_tx;
    final_outcome = some duplicate_payment_prevented;
    error_or_dispute = reason;
  }

  abbrev pub ambiguity : SettlementStatus → Option String
  ambiguity settled = none
  ambiguity failed = none
  ambiguity s = some ("ambiguous: " <> status_text s)

  abbrev pub pay_row : ℕ → SettlementStatus → Draft
  pay_row attempt outcome = record (attempt_row attempt) {
    policy_limit_cents = some (min input.policy.ceilings.per_tx_cents price);
    policy_decision = some accepted;
    nonce = some (nonce_for tx attempt);
    settlement_status = some outcome;
    error_or_dispute = ambiguity outcome;
  }

  abbrev pub status_of_verified : Verified → SettlementStatus
  status_of_verified verified_settled = settled
  status_of_verified verified_failed = failed

  abbrev pub verify_row : ℕ → Verified → Draft
  verify_row attempt v = record (attempt_row attempt) {
    settlement_status = some (status_of_verified v);
    error_or_dispute = some ("settlement verified: " <> verified_text v);
  }

  after_verify : ℕ → Verified → Session → Turn × Session
  after_verify attempt verified_settled s = (
    done (record {
      attempts = attempt;
      settled_payments = 1;
      pay_note = some "settled after verification — no re-purchase";
      required_but_killed = false;
    }),
    s,
  )
  after_verify attempt verified_failed s =
      (again, note ("verified failed on attempt " <> decimal attempt <> " — retry permitted") s)

  -- A pending or unknown settlement is verified, and never paid again.
  verify_turn : ℕ → SettlementStatus → Session → Turn × Session
  unfolding after_verify
  verify_turn attempt outcome s =
      let v = input.world.verify_settlement service attempt in
      after_verify attempt v (
        note ("settlement verified: " <> verified_text v) (
          log_row (verify_row attempt v) (
            note
              ("settlement ambiguous ("
                <> status_text outcome
                <> ") on attempt "
                <> decimal attempt
                <> " — verifying before any further payment")
              s)))

  after_pay : ℕ → SettlementStatus → Session → Turn × Session
  unfolding verify_turn
  after_pay attempt settled s = (
    done (record {
      attempts = attempt;
      settled_payments = 1;
      pay_note = none;
      required_but_killed = false;
    }),
    s,
  )
  after_pay attempt failed s = (again, note ("payment failed on attempt " <> decimal attempt) s)
  after_pay attempt pending s = verify_turn attempt pending s
  after_pay attempt unknown s = verify_turn attempt unknown s

  -- The payment itself, under a fresh nonce.
  issue_payment : ℕ → Session → Turn × Session
  unfolding after_pay
  issue_payment attempt s =
      let n = nonce_for tx attempt in
      let outcome = input.world.payment_outcome service attempt in
      after_pay attempt outcome (
        note
          ("pay attempt "
            <> decimal attempt
            <> ": "
            <> status_text outcome
            <> " (nonce "
            <> n
            <> ")")
          (log_row (pay_row attempt outcome) (push_nonce n s)))

  -- One round: the kill switch, the duplicate-payment guard, the nonce check, the payment.
  unfoldable pub pay_turn : ℕ → Session → Turn × Session
  unfolding issue_payment
  pay_turn attempt s =
      let guard = can_issue_payment tx s.ledger in
      if not input.policy.kill_switch.autonomous_commerce_enabled
      then (
        done (record {
          attempts = attempt;
          settled_payments = 0;
          pay_note = some "killed";
          required_but_killed = true;
        }),
        log_row (killed_row attempt) (note "kill switch active — payment aborted" s),
      )
      else if not guard.ok
      then (
        done (record {
          attempts = attempt;
          settled_payments = 0;
          pay_note = guard.reason;
          required_but_killed = false;
        }),
        log_row (refused_row attempt guard.reason)
            (note ("duplicate-payment prevented: " <> or_else guard.reason "undefined") s),
      )
      else if nonce_used (nonce_for tx attempt) s.ledger
      then (broke ("nonce reuse detected: " <> nonce_for tx attempt), s)
      else issue_payment attempt s

  -- What follows a round: the loop ends with its result, or goes on.
  abbrev pub after_turn :
      (Session → Thrown PayResult × Session) → Turn → Session → Thrown PayResult × Session
  after_turn more (done r) s = (returned r, s)
  after_turn more again s = more s
  after_turn more (broke m) s = (threw m, s)

  -- The loop from `attempt`, with `rounds` attempts left.
  unfoldable pub pay_from : ℕ → ℕ → Session → Thrown PayResult × Session
  pay_from zero attempt s = (
    returned (record {
      attempts = attempt - 1;
      settled_payments = 0;
      pay_note = some "payment retries exhausted";
      required_but_killed = false;
    }),
    s,
  )
  pay_from (suc rounds) attempt s =
      let (turn, s') = pay_turn attempt s in after_turn (pay_from rounds (attempt + 1)) turn s'

  unfoldable pub pay_with_retries : Session → Thrown PayResult × Session
  pay_with_retries s = pay_from (1 + input.policy.retry_limits.max_payment_retries) 1 s
