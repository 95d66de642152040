-- ===== src/Autonomous/Machine/Refines.antt =====
-- Every run of the machine in src/autonomous/state-machine.ts is a run of the protocol.
use agent_commerce_lab.Prelude.{
  ℕ, zero, suc, refl, inl, inr, Option, none, some, String, List, [], ◌∷◌, arith, Bool-cases, any,
  ◌==◌,
}
use agent_commerce_lab.Autonomous.Types.{
  EligibleService, ServiceId, ServiceResult, success, failure, fatal, PolicyDecision, accepted,
  rejected_kill, TransactionInput, TransactionResult, service_eq,
}
use agent_commerce_lab.Autonomous.Ledger.{Ledger}
use agent_commerce_lab.Autonomous.Session.{Session, Thrown, returned, threw, log_row}
use agent_commerce_lab.Autonomous.Payment.{PayResult}
use agent_commerce_lab.Autonomous.Payment.Refines.{ResultIsPaid, pay_with_retries_lem}
use agent_commerce_lab.Autonomous.Consumption.{consume_with_retries}
use agent_commerce_lab.Autonomous.Consumption.Refines.{consume_with_retries_lem}
use agent_commerce_lab.Autonomous.Protocol.{Reaches, here, next, Reaches-trans, quiet}
use agent_commerce_lab.Autonomous.Machine.{
  Ran, Rerun, selected, consumed_base, policy_row, check_spend_policy, close_alternative,
  after_fatal, after_consume, after_payment, after_decision, purchase, with_candidates,
  run_internal, run, select_services,
}

module _ (input : TransactionInput) where
  -- A way to run an alternative that follows the protocol.
  abbrev Follows : Rerun input → Type 0
  Follows rerun = (tx : String) (ex : Option ServiceId) (l : Ledger) → Reaches l (rerun tx ex l).1

  module _ (rerun : Rerun input) (follows : Follows rerun) (tx : String) (service : EligibleService)
      (others : List EligibleService) where
    close_alternative-Reaches :
        (base : TransactionResult) (alt : EligibleService) (s : Session) (r : Ran input)
        → Reaches s.ledger r.1
        → Reaches s.ledger (close_alternative input rerun tx service others base alt s r).1
    unfolding close_alternative
    close_alternative-Reaches base alt s (threw m, l) h = h
    close_alternative-Reaches base alt s (returned res, l) h = next h (quiet refl refl refl)

    after_fatal-Reaches :
        (base : TransactionResult) (alternatives : List EligibleService) (s : Session)
        → Reaches s.ledger (after_fatal input rerun tx service others base alternatives s).1
    unfolding after_fatal
    after_fatal-Reaches base [] s = next here (quiet refl refl refl)
    after_fatal-Reaches base (alt ∷ more) s =
        close_alternative-Reaches base alt _ _ (follows _ (some service.id) s.ledger)

    after_consume-Reaches :
        (base : TransactionResult) (r : ServiceResult) (s : Session)
        → Reaches s.ledger (after_consume input rerun tx service others base r s).1
    unfolding after_consume
    after_consume-Reaches base success s = next here (quiet refl refl refl)
    after_consume-Reaches base failure s = next here (quiet refl refl refl)
    after_consume-Reaches base fatal s = after_fatal-Reaches base _ s

    after_payment-Reaches :
        (r : Thrown PayResult) (s : Session)
        → ResultIsPaid tx r s.ledger
        → Reaches s.ledger (after_payment input rerun tx service others (r, s)).1
    unfolding after_payment
    after_payment-Reaches (threw m) s paid = here
    after_payment-Reaches (returned p) s paid = elim (Bool-cases (p.settled_payments == 0)) [
      | inl e ↦ rw e (next here (quiet refl refl refl))
      | inr e ↦
          let (c, s') = consume_with_retries input tx service.id s in
          rw e (
            Reaches-trans (consume_with_retries_lem input tx service.id s (paid (ground arith)))
              (after_consume-Reaches (consumed_base input rerun tx service others p c) c.result s'))
    ]

    after_decision-Reaches :
        (d : PolicyDecision) (s : Session)
        → Reaches s.ledger (after_decision input rerun tx service others d s).1
    unfolding after_decision
    after_decision-Reaches accepted s =
        let (r, p) = pay_with_retries_lem input tx service.id service.price_cents _ in
        Reaches-trans r (after_payment-Reaches _ _ p)
    after_decision-Reaches rejected_kill s = next here (quiet refl refl refl)
    after_decision-Reaches _ s = next here (quiet refl refl refl)

    purchase-Reaches : (s : Session) → Reaches s.ledger (purchase input rerun tx service others s).1
    unfolding purchase
    purchase-Reaches s =
        elim (Bool-cases (any (service_eq service.id) input.policy.kill_switch.disabled_services)) [
          | inl e ↦ rw e (next here (quiet refl refl refl))
          | inr e ↦
              let d = check_spend_policy input service.id service.price_cents s.ledger in
              let s' = log_row (policy_row input rerun tx service others d) s in
              rw e (
                Reaches-trans {m = s'.ledger} (next here (quiet refl refl refl))
                  (after_decision-Reaches d s'))
        ]

  with_candidates-Reaches :
      (rerun : Rerun input)
      → Follows rerun
      → (tx : String) (cs : List EligibleService) (l : Ledger)
      → Reaches l (with_candidates input rerun tx cs l).1
  unfolding with_candidates
  with_candidates-Reaches rerun follows tx [] l = next here (quiet refl refl refl)
  with_candidates-Reaches rerun follows tx (service ∷ others) l =
      purchase-Reaches rerun follows tx service others (selected input service l)

  pub run_internal-Reaches : (levels : ℕ) → Follows (run_internal input levels)
  unfolding run_internal
  run_internal-Reaches zero tx ex l = next here (quiet refl refl refl)
  run_internal-Reaches (suc levels) tx ex l =
      with_candidates-Reaches (run_internal input levels) (run_internal-Reaches levels) tx
        (select_services input ex) l

  -- A run leaves a ledger that the protocol reaches from the one it was given.
  pub run-Reaches : (l : Ledger) → Reaches l (run input l).1
  unfolding run
  run-Reaches l = run_internal-Reaches 4 input.tx_id none l
