-- ===== src/Autonomous/Machine/Bounds.antt =====
-- The bounds on what a run of src/autonomous/state-machine.ts reports: attempts within the retry
-- limits, one settled payment at most, and nothing delivered without one.
use agent_commerce_lab.Prelude.{
  ◌+◌, ◌≤◌, ◌<◌, ◌≡◌, inl, inr, none, String, List, [], ◌∷◌, arith, any, ◌==◌, Bool-cases,
}
use agent_commerce_lab.Autonomous.Types.{
  EligibleService, ServiceResult, success, failure, fatal, PolicyDecision, accepted, rejected_kill,
  completed, TransactionInput, TransactionResult, service_eq,
}
use agent_commerce_lab.Autonomous.Ledger.{Ledger}
use agent_commerce_lab.Autonomous.Session.{Session, Thrown, returned, threw, log_row}
use agent_commerce_lab.Autonomous.Payment.{PayResult, pay_with_retries}
use agent_commerce_lab.Autonomous.Payment.Bounds.{ResultIsBounded, pay_with_retries-IsBounded}
use agent_commerce_lab.Autonomous.Consumption.{consume_with_retries}
use agent_commerce_lab.Autonomous.Consumption.Bounds.{consume_with_retries_bound}
use agent_commerce_lab.Autonomous.Machine.{
  Ran, Rerun, selected, priced, alternative_chosen, consumed_base, policy_row, check_spend_policy,
  close_alternative, after_fatal, after_consume, after_payment, after_decision, purchase,
  with_candidates, run_internal, run, select_services,
}

-- What a reported result is held to.
pub record IsSound (input : TransactionInput) (r : TransactionResult) : Type 0 where
  pub payments_bounded : r.payment_attempts ≤ 1 + input.policy.retry_limits.max_payment_retries
  pub payment_retries_bounded :
      r.payment_retries_used ≤ input.policy.retry_limits.max_payment_retries
  pub calls_bounded : r.service_attempts ≤ 1 + input.policy.retry_limits.max_service_retries
  pub service_retries_bounded :
      r.service_retries_used ≤ input.policy.retry_limits.max_service_retries
  pub settled_bounded : r.payments_settled ≤ 1
  pub completed_settled : r.outcome ≡ completed → r.payments_settled ≡ 1
  pub served_settled : 0 < r.service_attempts → r.payments_settled ≡ 1

abbrev pub RanIsSound : TransactionInput → Thrown TransactionResult → Type 0
RanIsSound input (returned r) = IsSound input r
RanIsSound input (threw m) = Unit

module _ (input : TransactionInput) where
  module _ (rerun : Rerun input) (tx : String) (service : EligibleService)
      (others : List EligibleService) where
    -- The fields of a base that has been paid for.
    record IsPaidBase (r : TransactionResult) : Type 0 where
      payments : r.payment_attempts ≤ 1 + input.policy.retry_limits.max_payment_retries
      payment_retries : r.payment_retries_used ≤ input.policy.retry_limits.max_payment_retries
      calls : r.service_attempts ≤ 1 + input.policy.retry_limits.max_service_retries
      service_retries : r.service_retries_used ≤ input.policy.retry_limits.max_service_retries
      one : r.payments_settled ≡ 1

    close_alternative-IsSound :
        (base : TransactionResult) (alt : EligibleService) (s : Session) (r : Ran input)
        → IsPaidBase base
        → RanIsSound input (close_alternative input rerun tx service others base alt s r).0
    unfolding close_alternative
    close_alternative-IsSound base alt s (threw m, l) h = tt
    close_alternative-IsSound base alt s (returned res, l) h = ground arith

    after_fatal-IsSound :
        (base : TransactionResult) (alternatives : List EligibleService) (s : Session)
        → IsPaidBase base
        → RanIsSound input (after_fatal input rerun tx service others base alternatives s).0
    unfolding after_fatal
    after_fatal-IsSound base [] s h = ground arith
    after_fatal-IsSound base (alt ∷ more) s h =
        close_alternative-IsSound base alt (alternative_chosen input rerun tx service others alt s)
          _ h

    after_consume-IsSound :
        (base : TransactionResult) (r : ServiceResult) (s : Session)
        → IsPaidBase base
        → RanIsSound input (after_consume input rerun tx service others base r s).0
    unfolding after_consume
    after_consume-IsSound base success s h = ground arith
    after_consume-IsSound base failure s h = ground arith
    after_consume-IsSound base fatal s h = after_fatal-IsSound base _ s h

    after_payment-IsSound :
        (r : Thrown PayResult) (s : Session)
        → ResultIsBounded input r
        → RanIsSound input (after_payment input rerun tx service others (r, s)).0
    unfolding after_payment
    after_payment-IsSound (threw m) s h = tt
    after_payment-IsSound (returned p) s h =
        let (c, s') = consume_with_retries input tx service.id s in
        elim (Bool-cases (p.settled_payments == 0)) [
          | inl e ↦ rw e (elim (Bool-cases p.required_but_killed) [
            | inl k ↦ rw k (ground arith)
            | inr k ↦ rw k (ground arith)
          ])
          | inr e ↦ rw e (
              after_consume-IsSound (consumed_base input rerun tx service others p c) c.result s'
                (ground (arith, consume_with_retries_bound input tx service.id s)))
        ]

    after_decision-IsSound :
        (d : PolicyDecision) (s : Session)
        → RanIsSound input (after_decision input rerun tx service others d s).0
    unfolding after_decision
    after_decision-IsSound accepted s =
        let s1 = priced input rerun tx service others s in
        let (r, s') = pay_with_retries input tx service.id service.price_cents s1 in
        after_payment-IsSound r s'
          (pay_with_retries-IsBounded input tx service.id service.price_cents s1)
    after_decision-IsSound rejected_kill s = ground arith
    after_decision-IsSound _ s = ground arith

    purchase-IsSound : (s : Session) → RanIsSound input (purchase input rerun tx service others s).0
    unfolding purchase
    purchase-IsSound s =
        let d = check_spend_policy input service.id service.price_cents s.ledger in
        elim (Bool-cases (any (service_eq service.id) input.policy.kill_switch.disabled_services)) [
          | inl e ↦ rw e (ground arith)
          | inr e ↦
              rw e
                (after_decision-IsSound d (log_row (policy_row input rerun tx service others d) s))
        ]

  with_candidates-IsSound :
      (rerun : Rerun input) (tx : String) (cs : List EligibleService) (l : Ledger)
      → RanIsSound input (with_candidates input rerun tx cs l).0
  unfolding with_candidates
  with_candidates-IsSound rerun tx [] l = ground arith
  with_candidates-IsSound rerun tx (s ∷ cs) l = purchase-IsSound rerun tx s cs (selected input s l)

  -- A result that a run returns reports at most one payment attempt more than there are payment
  -- retries, likewise for the service, at most one settled payment, and exactly one if the outcome is
  -- completed or the service was called.
  pub run-IsSound : (l : Ledger) → RanIsSound input (run input l).0
  unfolding run
  run-IsSound l =
      with_candidates-IsSound (run_internal input 3) input.tx_id (select_services input none) l
