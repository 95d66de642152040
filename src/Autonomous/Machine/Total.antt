-- ===== src/Autonomous/Machine/Total.antt =====
-- A transaction of src/autonomous/state-machine.ts whose nonces are unused comes to a result: the
-- exception on a reused nonce is not thrown.
use agent_commerce_lab.Prelude.{
  ℕ, ◌≤◌, ◌≡◌, ◌≢◌, refl, sym, ◌∙◌, inl, inr, false, Option, none, some, String, List, [], ◌∷◌,
  Bool-cases, any, ◌==◌,
}
use agent_commerce_lab.Prelude.Text.{◌<>◌}
use agent_commerce_lab.Autonomous.Types.{
  EligibleService, ServiceId, ServiceResult, success, failure, fatal, PolicyDecision, accepted,
  rejected_kill, TransactionInput, TransactionResult, service_eq,
}
use agent_commerce_lab.Autonomous.Ledger.{Ledger, nonce_used}
use agent_commerce_lab.Autonomous.Session.{Session, Thrown, returned, threw, log_row}
use agent_commerce_lab.Autonomous.Payment.{PayResult, nonce_for, pay_with_retries}
use agent_commerce_lab.Autonomous.Payment.Nonces.{
  UnusedFrom, IsReturned, unused-record_row, nonce_for_alternative, pay_with_retries-keeps,
  pay_with_retries-returns,
}
use agent_commerce_lab.Autonomous.Consumption.{consume_with_retries}
use agent_commerce_lab.Autonomous.Consumption.Nonces.{consume_with_retries-unused}
use agent_commerce_lab.Autonomous.Machine.{
  Ran, Rerun, selected, priced, alternative_chosen, consumed_base, policy_row, check_spend_policy,
  close_alternative, after_fatal, after_consume, after_payment, after_decision, purchase,
  with_candidates, run_internal, run, select_services,
}
use agent_commerce_lab.Autonomous.Machine.Depth.{run_two_levels}

-- `kept` is a set of nonces that the alternative counts on.
module _ (input : TransactionInput) (kept : String → Type 0) where
  abbrev Unused : Ledger → Type 0
  Unused l = (n : String) → kept n → nonce_used n l ≡ false

  module _ (rerun : Rerun input) (tx : String)
      (alternative_returns : (ex : Option ServiceId) (l : Ledger)
        → Unused l
        → IsReturned (rerun (tx <> "-alt") ex l).0)
      (service : EligibleService) (others : List EligibleService) where
    close_alternative-returns :
        (base : TransactionResult) (alt : EligibleService) (s : Session) (r : Ran input)
        → IsReturned r.0
        → IsReturned (close_alternative input rerun tx service others base alt s r).0
    unfolding close_alternative
    close_alternative-returns base alt s (threw m, l) h = h
    close_alternative-returns base alt s (returned res, l) h = tt

    after_fatal-returns :
        (base : TransactionResult) (alternatives : List EligibleService) (s : Session)
        → Unused s.ledger
        → IsReturned (after_fatal input rerun tx service others base alternatives s).0
    unfolding after_fatal
    after_fatal-returns base [] s u = tt
    after_fatal-returns base (alt ∷ more) s u =
        close_alternative-returns base alt (alternative_chosen input rerun tx service others alt s)
          _ (alternative_returns (some service.id) s.ledger u)

    after_consume-returns :
        (base : TransactionResult) (r : ServiceResult) (s : Session)
        → Unused s.ledger
        → IsReturned (after_consume input rerun tx service others base r s).0
    unfolding after_consume
    after_consume-returns base success s u = tt
    after_consume-returns base failure s u = tt
    after_consume-returns base fatal s u = after_fatal-returns base _ s u

    after_payment-returns :
        (r : Thrown PayResult) (s : Session)
        → IsReturned r
        → Unused s.ledger
        → IsReturned (after_payment input rerun tx service others (r, s)).0
    unfolding after_payment
    after_payment-returns (threw m) s h u = h
    after_payment-returns (returned p) s h u =
        let (c, s') = consume_with_retries input tx service.id s in
        elim (Bool-cases (p.settled_payments == 0)) [
          | inl e ↦ rw e tt
          | inr e ↦ rw e (
              after_consume-returns (consumed_base input rerun tx service others p c) c.result s'
                (λ n k. consume_with_retries-unused input tx service.id n s (u n k)))
        ]

    module _ (apart : (n : String) → kept n → (k : ℕ) → nonce_for tx k ≢ n) where
      after_decision-returns :
          (d : PolicyDecision) (s : Session)
          → UnusedFrom 1 tx s.ledger
          → Unused s.ledger
          → IsReturned (after_decision input rerun tx service others d s).0
      unfolding after_decision
      after_decision-returns accepted s own u =
          let s1 = priced input rerun tx service others s in
          let (r, s') = pay_with_retries input tx service.id service.price_cents s1 in
          after_payment-returns r s'
            (pay_with_retries-returns input tx service.id service.price_cents s1 own)
            (λ n k.
              (pay_with_retries-keeps input tx service.id service.price_cents n s1 own (apart n k)
                (u n k)).0)
      after_decision-returns rejected_kill s own u = tt
      after_decision-returns _ s own u = tt

      purchase-returns :
          (s : Session)
          → UnusedFrom 1 tx s.ledger
          → Unused s.ledger
          → IsReturned (purchase input rerun tx service others s).0
      unfolding purchase
      purchase-returns s own u =
          let d = check_spend_policy input service.id service.price_cents s.ledger in
          let row = policy_row input rerun tx service others d in
          elim (Bool-cases
            (any (service_eq service.id) input.policy.kill_switch.disabled_services)) [
              | inl e ↦ rw e tt
              | inr e ↦ rw e (
                  after_decision-returns d (log_row row s)
                    (λ k le. unused-record_row (nonce_for tx k) row s.ledger refl (own k le))
                    (λ n k. unused-record_row n row s.ledger refl (u n k)))
            ]

  with_candidates-returns :
      (rerun : Rerun input) (tx : String) (cs : List EligibleService) (l : Ledger)
      → ((ex : Option ServiceId) (m : Ledger) → Unused m → IsReturned (rerun (tx <> "-alt") ex m).0)
      → ((n : String) → kept n → (k : ℕ) → nonce_for tx k ≢ n)
      → UnusedFrom 1 tx l
      → Unused l
      → IsReturned (with_candidates input rerun tx cs l).0
  unfolding with_candidates
  with_candidates-returns rerun tx [] l alt apart own u = tt
  with_candidates-returns rerun tx (s ∷ cs) l alt apart own u =
      purchase-returns rerun tx alt s cs apart (selected input s l) own u

-- At the level of the alternative no further nonce counts.
run_internal-alternative :
    (input : TransactionInput) (tx : String) (ex : Option ServiceId) (l : Ledger)
    → UnusedFrom 1 tx l
    → IsReturned (run_internal input 1 tx ex l).0
unfolding run_internal
run_internal-alternative input tx ex l own =
    with_candidates-returns input (λ n. ⊥) (run_internal input 0) tx (select_services input ex) l
      (λ x m u. tt) (λ n k. absurd k) own (λ n k. absurd k)

-- If the ledger holds none of the nonces of the transaction and of its alternative, the run returns a
-- result: it does not throw.
pub run-returns :
    (input : TransactionInput) (l : Ledger)
    → UnusedFrom 1 input.tx_id l
    → UnusedFrom 1 (input.tx_id <> "-alt") l
    → IsReturned (run input l).0
unfolding run_internal
run-returns input l own alt =
    let tx = input.tx_id in
    let kept : String → Type 0 = λ n. (k : ℕ) × (1 ≤ k) × (n ≡ nonce_for (tx <> "-alt") k) in
    rw (run_two_levels input 0 l) (
      with_candidates-returns input kept (run_internal input 1) tx (select_services input none) l
        (λ x m u.
          run_internal-alternative input (tx <> "-alt") x m
            (λ k le. u (nonce_for (tx <> "-alt") k) (k, le, refl)))
        (λ n (j, le, e) k same. nonce_for_alternative tx j k (sym e ∙ sym same)) own
        (λ n (j, le, e). rw e (alt j le)))
