-- ===== src/Autonomous/Machine/Depth.antt =====
-- The depth guard of src/autonomous/state-machine.ts: with two services an alternative has no
-- alternative of its own, so the chain ends after two transactions.
use agent_commerce_lab.Prelude.{
  ℕ, suc, ◌≡◌, refl, inl, inr, true, false, not, Option, none, some, String, List, [], ◌∷◌, arith,
  All, any, filter, Bool-cases, ◌==◌,
}
use agent_commerce_lab.Prelude.Text.{◌<>◌}
use agent_commerce_lab.Autonomous.Types.{
  EligibleService, ServiceId, ServiceResult, success, failure, fatal, PolicyDecision, accepted,
  rejected_kill, TransactionInput, TransactionResult, service_eq, tasks_for,
}
use agent_commerce_lab.Autonomous.Ledger.{Ledger}
use agent_commerce_lab.Autonomous.Session.{Session, Thrown, returned, threw, log_row}
use agent_commerce_lab.Autonomous.Payment.{PayResult, pay_with_retries}
use agent_commerce_lab.Autonomous.Consumption.{consume_with_retries}
use agent_commerce_lab.Autonomous.Machine.{
  Ran, Rerun, by_id, keep_found, select_from, select_services, selected, priced, alternative_chosen,
  consumed_base, policy_row, check_spend_policy, close_alternative, after_fatal, after_consume,
  after_payment, after_decision, purchase, with_candidates, run_internal, run,
}

-- Every candidate is another service than the excluded one.
abbrev Others : ServiceId → List EligibleService → Type 0
Others x cs = All (λ c. service_eq c.id x ≡ false) cs

keep_found-Others :
    (x : ServiceId) (found : Option EligibleService) (rest : List EligibleService)
    → Others x rest
    → Others x (keep_found (some x) found rest)
keep_found-Others x none rest h = h
keep_found-Others x (some s) rest h = ground arith

select_from-Others :
    (x : ServiceId) (services : List EligibleService) (ids : List ServiceId)
    → Others x (select_from services (some x) ids)
unfolding select_from
select_from-Others x services [] = tt
select_from-Others x services (id ∷ ids) =
    keep_found-Others x (by_id services id) _ (select_from-Others x services ids)

-- Two services that both differ from a third are the same one, since there are only two.
same_of_others :
    (a b x : ServiceId) → service_eq a x ≡ false → service_eq b x ≡ false → service_eq a b ≡ true
same_of_others a b x h k = ground arith

no_alternative :
    (x : ServiceId) (s : EligibleService) (cs : List EligibleService)
    → service_eq s.id x ≡ false
    → Others x cs
    → filter (λ c. not (service_eq c.id s.id)) cs ≡ []
no_alternative x s [] h k = refl
no_alternative x s (c ∷ cs) h k =
    rw (same_of_others c.id s.id x k.0 h, no_alternative x s cs h k.1) refl

module _ (input : TransactionInput) (rerun rerun' : Rerun input) where
  module _ (tx : String) (service : EligibleService) (others : List EligibleService) where
    -- Both ways to run an alternative agree where one is run at all.
    abbrev Agree : List EligibleService → Type 0
    Agree [] = Unit
    Agree (alt ∷ more) =
        (l : Ledger)
        → rerun (tx <> "-alt") (some service.id) l ≡ rerun' (tx <> "-alt") (some service.id) l

    close_alternative-eq :
        (base : TransactionResult) (alt : EligibleService) (s : Session) (r r' : Ran input)
        → r ≡ r'
        → close_alternative input rerun tx service others base alt s r
          ≡ close_alternative input rerun' tx service others base alt s r'
    unfolding close_alternative
    close_alternative-eq base alt s (threw m, l) r' e = rw (← e) refl
    close_alternative-eq base alt s (returned res, l) r' e = rw (← e) refl

    after_fatal-eq :
        (base : TransactionResult) (alternatives : List EligibleService) (s : Session)
        → Agree alternatives
        → after_fatal input rerun tx service others base alternatives s
          ≡ after_fatal input rerun' tx service others base alternatives s
    unfolding after_fatal
    after_fatal-eq base [] s h = refl
    after_fatal-eq base (alt ∷ more) s h =
        close_alternative-eq base alt (alternative_chosen input rerun tx service others alt s) _ _
          (h s.ledger)

    abbrev alternatives : List EligibleService
    alternatives = filter (λ c. not (service_eq c.id service.id)) (service ∷ others)

    after_consume-eq :
        (base : TransactionResult) (r : ServiceResult) (s : Session)
        → Agree alternatives
        → after_consume input rerun tx service others base r s
          ≡ after_consume input rerun' tx service others base r s
    unfolding after_consume
    after_consume-eq base success s h = refl
    after_consume-eq base failure s h = refl
    after_consume-eq base fatal s h = after_fatal-eq base alternatives s h

    after_payment-eq :
        (r : Thrown PayResult) (s : Session)
        → Agree alternatives
        → after_payment input rerun tx service others (r, s)
          ≡ after_payment input rerun' tx service others (r, s)
    unfolding after_payment
    after_payment-eq (threw m) s h = refl
    after_payment-eq (returned p) s h =
        let (c, s') = consume_with_retries input tx service.id s in
        elim (Bool-cases (p.settled_payments == 0)) [
          | inl e ↦ rw e refl
          | inr e ↦
              rw e
                (after_consume-eq (consumed_base input rerun tx service others p c) c.result s' h)
        ]

    after_decision-eq :
        (d : PolicyDecision) (s : Session)
        → Agree alternatives
        → after_decision input rerun tx service others d s
          ≡ after_decision input rerun' tx service others d s
    unfolding after_decision
    after_decision-eq accepted s h =
        let (r, s') =
          pay_with_retries input tx service.id service.price_cents
            (priced input rerun tx service others s) in
        after_payment-eq r s' h
    after_decision-eq rejected_kill s h = refl
    after_decision-eq _ s h = refl

    purchase-eq :
        (s : Session)
        → Agree alternatives
        → purchase input rerun tx service others s ≡ purchase input rerun' tx service others s
    unfolding purchase
    purchase-eq s h =
        let d = check_spend_policy input service.id service.price_cents s.ledger in
        elim (Bool-cases (any (service_eq service.id) input.policy.kill_switch.disabled_services)) [
          | inl e ↦ rw e refl
          | inr e ↦
              rw e (after_decision-eq d (log_row (policy_row input rerun tx service others d) s) h)
        ]

  Agree-nil :
      (tx : String) (service : EligibleService) (others cs : List EligibleService)
      → cs ≡ []
      → Agree tx service others cs
  Agree-nil tx service others cs e = rw e tt

  Agree-everywhere :
      (tx : String) (service : EligibleService) (others cs : List EligibleService)
      → ((l : Ledger)
          → rerun (tx <> "-alt") (some service.id) l ≡ rerun' (tx <> "-alt") (some service.id) l)
      → Agree tx service others cs
  Agree-everywhere tx service others [] h = tt
  Agree-everywhere tx service others (c ∷ cs) h = h

  -- With one service excluded no alternative is run.
  with_rest-eq :
      (tx : String) (x : ServiceId) (cs : List EligibleService) (l : Ledger)
      → Others x cs
      → with_candidates input rerun tx cs l ≡ with_candidates input rerun' tx cs l
  unfolding with_candidates
  with_rest-eq tx x [] l h = refl
  with_rest-eq tx x (s ∷ cs) l h =
      purchase-eq tx s cs (selected input s l)
        (Agree-nil tx s cs _ (no_alternative x s (s ∷ cs) h.0 h))

  with_candidates-eq :
      (tx : String) (cs : List EligibleService) (l : Ledger)
      → ((t : String) (x : ServiceId) (m : Ledger) → rerun t (some x) m ≡ rerun' t (some x) m)
      → with_candidates input rerun tx cs l ≡ with_candidates input rerun' tx cs l
  unfolding with_candidates
  with_candidates-eq tx [] l h = refl
  with_candidates-eq tx (s ∷ cs) l h =
      purchase-eq tx s cs (selected input s l) (Agree-everywhere tx s cs _ (h (tx <> "-alt") s.id))

-- A call with one service excluded does not depend on how many levels are left below it.
run_internal-excluded :
    (input : TransactionInput) (n m : ℕ) (tx : String) (x : ServiceId) (l : Ledger)
    → run_internal input (suc n) tx (some x) l ≡ run_internal input (suc m) tx (some x) l
unfolding run_internal select_services
run_internal-excluded input n m tx x l =
    with_rest-eq input (run_internal input n) (run_internal input m) tx x _ l
      (select_from-Others x input.policy.eligible_services (tasks_for input.task_map input.task))

run_internal-levels :
    (input : TransactionInput) (n m : ℕ) (tx : String) (l : Ledger)
    → run_internal input (suc (suc n)) tx none l ≡ run_internal input (suc (suc m)) tx none l
unfolding run_internal
run_internal-levels input n m tx l =
    with_candidates-eq input (run_internal input (suc n)) (run_internal input (suc m)) tx
      (select_services input none) l (λ t x k. run_internal-excluded input n m t x k)

-- The depth guard is never reached: two levels, the transaction and one alternative, give the same
-- result and the same ledger as the four of the program and as any larger number.
pub run_two_levels :
    (input : TransactionInput) (extra : ℕ) (l : Ledger)
    → run input l ≡ run_internal input (suc (suc extra)) input.tx_id none l
unfolding run
run_two_levels input extra l = run_internal-levels input 2 extra input.tx_id l
