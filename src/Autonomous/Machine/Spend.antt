-- ===== src/Autonomous/Machine/Spend.antt =====
-- The spending ceilings over whole runs of src/autonomous/state-machine.ts, alternatives included.
use agent_commerce_lab.Prelude.{
  ℕ, zero, suc, ◌+◌, ◌*◌, ◌≤◌, max, ◌≡◌, refl, inl, inr, Option, none, some, String, List, [], ◌∷◌,
  arith, Bool-cases, any, ◌==◌,
}
use agent_commerce_lab.Autonomous.Types.{
  Draft, EligibleService, ServiceId, ServiceResult, success, failure, fatal, PolicyDecision,
  accepted, rejected_kill, TransactionInput, TransactionResult, service_eq,
}
use agent_commerce_lab.Autonomous.Ledger.{Ledger, record_row, settled_spend_cents}
use agent_commerce_lab.Autonomous.Ledger.Laws.{settled_spend_cents-record_row, spend_of}
use agent_commerce_lab.Autonomous.Session.{Session, Thrown, returned, threw, log_row}
use agent_commerce_lab.Autonomous.Payment.{PayResult, pay_with_retries}
use agent_commerce_lab.Autonomous.Payment.Spend.{result_settled, pay_with_retries-Spends}
use agent_commerce_lab.Autonomous.Consumption.{consume_with_retries}
use agent_commerce_lab.Autonomous.Consumption.Spend.{consume_with_retries_spend}
use agent_commerce_lab.Autonomous.Machine.{
  Ran, Rerun, day_start, month_start, selected, priced, alternative_chosen, consumed_base,
  policy_row, check_spend_policy, close_alternative, after_fatal, after_consume, after_payment,
  after_decision, purchase, with_candidates, run_internal, run, select_services,
}

module _ (input : TransactionInput) (since : String) (cap : ℕ) where
  abbrev spend : Ledger → ℕ
  spend l = settled_spend_cents since input.now l

  -- The spend passes the ceiling nowhere that it did not pass it before.
  abbrev Capped : Ledger → Ledger → Type 0
  Capped l l' = spend l' ≤ max (spend l) cap

  -- A row that records no settlement adds nothing.
  unspent :
      (d : Draft) (l l' : Ledger)
      → Capped l l'
      → spend_of since input.now d ≡ 0
      → Capped l (record_row d l')
  unspent d l l' h e = omega (arith, h, e, settled_spend_cents-record_row since input.now d l')

  Capped-trans : (l m n : Ledger) → Capped l m → Capped m n → Capped l n
  Capped-trans l m n h k = omega arith

  -- One payment at most, of a price that fits, stays under the ceiling.
  paid-Capped :
      (count price : ℕ) (l m : Ledger)
      → count ≤ 1
      → spend m ≤ spend l + count * price
      → spend l + price ≤ cap
      → Capped l m
  paid-Capped zero price l m c h room = omega arith
  paid-Capped (suc zero) price l m c h room = omega arith
  paid-Capped (suc (suc n)) price l m c h room = absurd (omega arith)

  abbrev IsCapped : Rerun input → Type 0
  IsCapped rerun = (tx : String) (ex : Option ServiceId) (l : Ledger) → Capped l (rerun tx ex l).1

  module _ (rerun : Rerun input) (capped : IsCapped rerun) (tx : String) (service : EligibleService)
      (others : List EligibleService) where
    close_alternative-Capped :
        (base : TransactionResult) (alt : EligibleService) (s : Session) (r : Ran input)
        (l : Ledger)
        → Capped l r.1
        → Capped l (close_alternative input rerun tx service others base alt s r).1
    unfolding close_alternative
    close_alternative-Capped base alt s (threw m, l') l h = h
    close_alternative-Capped base alt s (returned res, l') l h = unspent _ l l' h refl

    after_fatal-Capped :
        (base : TransactionResult) (alternatives : List EligibleService) (s : Session)
        → Capped s.ledger (after_fatal input rerun tx service others base alternatives s).1
    unfolding after_fatal
    after_fatal-Capped base [] s = unspent _ s.ledger s.ledger (omega arith) refl
    after_fatal-Capped base (alt ∷ more) s =
        close_alternative-Capped base alt (alternative_chosen input rerun tx service others alt s) _
          s.ledger (capped _ (some service.id) s.ledger)

    after_consume-Capped :
        (base : TransactionResult) (r : ServiceResult) (s : Session)
        → Capped s.ledger (after_consume input rerun tx service others base r s).1
    unfolding after_consume
    after_consume-Capped base success s = unspent _ s.ledger s.ledger (omega arith) refl
    after_consume-Capped base failure s = unspent _ s.ledger s.ledger (omega arith) refl
    after_consume-Capped base fatal s = after_fatal-Capped base _ s

    after_payment-Capped :
        (r : Thrown PayResult) (s : Session)
        → Capped s.ledger (after_payment input rerun tx service others (r, s)).1
    unfolding after_payment
    after_payment-Capped (threw m) s = omega arith
    after_payment-Capped (returned p) s =
        let (c, s') = consume_with_retries input tx service.id s in
        elim (Bool-cases (p.settled_payments == 0)) [
          | inl e ↦ rw e (unspent _ s.ledger s.ledger (omega arith) refl)
          | inr e ↦ rw e (
              Capped-trans s.ledger s'.ledger _
                (omega (arith, consume_with_retries_spend input tx service.id since input.now s))
                (after_consume-Capped (consumed_base input rerun tx service others p c) c.result
                  s'))
        ]

  -- What the spend policy accepts fits under the ceiling.
  abbrev Gate : Type 0
  Gate =
      (id : ServiceId) (price : ℕ) (l : Ledger)
      → check_spend_policy input id price l ≡ accepted
      → spend l + price ≤ cap

  module _ (gate : Gate) (rerun : Rerun input) (capped : IsCapped rerun) (tx : String)
      (service : EligibleService) (others : List EligibleService) where
    after_decision-Capped :
        (d : PolicyDecision) (s : Session)
        → (d ≡ accepted → spend s.ledger + service.price_cents ≤ cap)
        → Capped s.ledger (after_decision input rerun tx service others d s).1
    unfolding after_decision
    after_decision-Capped accepted s room =
        let s1 = priced input rerun tx service others s in
        let (r, s') = pay_with_retries input tx service.id service.price_cents s1 in
        let (once, paid) =
          pay_with_retries-Spends input tx service.id service.price_cents since input.now s1 in
        Capped-trans s.ledger s'.ledger _
          (paid-Capped (result_settled r) service.price_cents s.ledger s'.ledger once paid
            (room refl))
          (after_payment-Capped rerun capped tx service others r s')
    after_decision-Capped rejected_kill s room = unspent _ s.ledger s.ledger (omega arith) refl
    after_decision-Capped _ s room = unspent _ s.ledger s.ledger (omega arith) refl

    purchase-Capped : (s : Session) → Capped s.ledger (purchase input rerun tx service others s).1
    unfolding purchase
    purchase-Capped s =
        let d = check_spend_policy input service.id service.price_cents s.ledger in
        let row = policy_row input rerun tx service others d in
        let same : spend (record_row row s.ledger) ≡ spend s.ledger =
          omega (arith, settled_spend_cents-record_row since input.now row s.ledger) in
        elim (Bool-cases (any (service_eq service.id) input.policy.kill_switch.disabled_services)) [
          | inl e ↦ rw e (unspent _ s.ledger s.ledger (omega arith) refl)
          | inr e ↦ rw e (
              Capped-trans s.ledger (record_row row s.ledger) _ (omega (arith, same)) (
                after_decision-Capped d (log_row row s)
                  (λ a. omega (arith, same, gate service.id service.price_cents s.ledger a))))
        ]

  with_candidates-Capped :
      Gate
      → (rerun : Rerun input) → IsCapped rerun
      → (tx : String) (cs : List EligibleService) (l : Ledger)
      → Capped l (with_candidates input rerun tx cs l).1
  unfolding with_candidates
  with_candidates-Capped gate rerun capped tx [] l = unspent _ l l (omega arith) refl
  with_candidates-Capped gate rerun capped tx (service ∷ others) l =
      purchase-Capped gate rerun capped tx service others (selected input service l)

  run_internal-IsCapped : Gate → (levels : ℕ) → IsCapped (run_internal input levels)
  unfolding run_internal
  run_internal-IsCapped gate zero tx ex l = unspent _ l l (omega arith) refl
  run_internal-IsCapped gate (suc levels) tx ex l =
      with_candidates-Capped gate (run_internal input levels) (run_internal-IsCapped gate levels) tx
        (select_services input ex) l

daily_gate :
    (input : TransactionInput) → Gate input (day_start input.now) input.policy.ceilings.daily_cents
unfolding check_spend_policy
daily_gate input id price l h = ground arith

monthly_gate :
    (input : TransactionInput)
    → Gate input (month_start input.now) input.policy.ceilings.monthly_cents
unfolding check_spend_policy
monthly_gate input id price l h = ground arith

-- A run, alternatives included, never takes the settled spend of its day above the daily ceiling, nor
-- that of its month above the monthly one; a spend that was above before does not grow.
pub run_within_ceilings :
    (input : TransactionInput) (l : Ledger)
    → let day = settled_spend_cents (day_start input.now) input.now in
      let month = settled_spend_cents (month_start input.now) input.now in
      let l' = (run input l).1 in
      (day l' ≤ max (day l) input.policy.ceilings.daily_cents)
      × (month l' ≤ max (month l) input.policy.ceilings.monthly_cents)
unfolding run
run_within_ceilings input l = (
  run_internal-IsCapped input (day_start input.now) input.policy.ceilings.daily_cents
      (daily_gate input) 4 input.tx_id none l,
  run_internal-IsCapped input (month_start input.now) input.policy.ceilings.monthly_cents
      (monthly_gate input) 4 input.tx_id none l,
)
