-- ===== src/Autonomous/Machine.antt =====
-- `run` and `runInternal` of src/autonomous/state-machine.ts. `levels` is 4 - depth: the guard
-- `depth > 3` is the clause at zero. An early `return` ends the stage in which it stands.
pub mod Refines
pub mod Spend
pub mod Safety
pub mod Depth
pub mod Total
pub mod Policy
pub mod Bounds
use agent_commerce_lab.Prelude.{
  ℕ, zero, suc, ◌+◌, ◌-◌, Bool, true, false, not, Option, none, some, String, List, [], ◌∷◌, min,
  ltb, ◌==◌, any, filter, if◌then◌else◌, or_else,
}
use agent_commerce_lab.Prelude.Text.{◌<>◌, decimal, slice_to}
use agent_commerce_lab.Autonomous.Types.{
  Draft, EligibleService, ServiceId, ServiceResult, success, failure, fatal, PolicyDecision,
  accepted, rejected_per_tx, rejected_per_service, rejected_daily, rejected_monthly, rejected_kill,
  TxOutcome, completed, aborted_ineligible, aborted_policy, aborted_kill, escalated,
  TransactionInput, TransactionResult, service_eq, service_limit, service_text, tasks_for,
  result_text, decision_text,
}
use agent_commerce_lab.Autonomous.Ledger.{Ledger, record_row, settled_spend_cents}
use agent_commerce_lab.Autonomous.Session.{
  Session, new_session, note, log_row, Thrown, returned, threw, row, final_row,
}
use agent_commerce_lab.Autonomous.Payment.{PayResult, pay_with_retries}
use agent_commerce_lab.Autonomous.Consumption.{ConsumeResult, consume_with_retries}

abbrev pub day_start : String → String
day_start iso = slice_to 10 iso <> "T00:00:00.000Z"

abbrev pub month_start : String → String
month_start iso = slice_to 7 iso <> "-01T00:00:00.000Z"

-- `new Map(services.map((s) => [s.id, s])).get(id)`: of two services with one id the later stays.
abbrev pub by_id : List EligibleService → ServiceId → Option EligibleService
by_id [] id = none
by_id (s ∷ services) id = elim (by_id services id) [
  | some later ↦ some later
  | none ↦ if service_eq s.id id then some s else none
]

abbrev pub is_excluded : Option ServiceId → ServiceId → Bool
is_excluded none id = false
is_excluded (some x) id = service_eq id x

abbrev pub keep_found :
    Option ServiceId → Option EligibleService → List EligibleService → List EligibleService
keep_found ex none rest = rest
keep_found ex (some s) rest = if is_excluded ex s.id then rest else s ∷ rest

select_from : List EligibleService → Option ServiceId → List ServiceId → List EligibleService
select_from services ex [] = []
select_from services ex (id ∷ ids) = keep_found ex (by_id services id) (select_from services ex ids)

module _ (input : TransactionInput) where
  unfoldable pub select_services : Option ServiceId → List EligibleService
  unfolding select_from
  select_services ex =
      select_from input.policy.eligible_services ex (tasks_for input.task_map input.task)

  unfoldable pub check_spend_policy : ServiceId → ℕ → Ledger → PolicyDecision
  check_spend_policy id price l =
      let c = input.policy.ceilings in
      if not input.policy.kill_switch.autonomous_commerce_enabled
      then rejected_kill
      else if ltb c.per_tx_cents price
      then rejected_per_tx
      else if ltb (service_limit c.per_service_cents id) price
      then rejected_per_service
      else if ltb c.daily_cents (settled_spend_cents (day_start input.now) input.now l + price)
      then rejected_daily
      else if ltb c.monthly_cents (settled_spend_cents (month_start input.now) input.now l + price)
      then rejected_monthly
      else accepted

  -- `{ ...base, outcome }`: the arrays are those of the call, as they stand when it returns.
  abbrev pub close_with : TransactionResult → TxOutcome → Session → TransactionResult
  close_with base outcome s = record base { outcome = outcome; nonces = s.nonces; notes = s.notes }

  abbrev pub base_result : Option ServiceId → TransactionResult
  base_result service = record {
    outcome = escalated;
    selected_service_id = service;
    payment_attempts = 0;
    payments_settled = 0;
    service_attempts = 0;
    payment_retries_used = 0;
    service_retries_used = 0;
    nonces = [];
    notes = [];
  }

  -- What a call of `runInternal` comes to: its result, or an exception, and the ledger.
  abbrev pub Ran : Type 0
  Ran = Thrown TransactionResult × Ledger

  -- How the alternative is run: `runInternal(input, txId, depth + 1, excludeServiceId)`.
  abbrev pub Rerun : Type 0
  Rerun = String → Option ServiceId → Ledger → Ran

  module _ (rerun : Rerun) (tx : String) (service : EligibleService)
      (others : List EligibleService) where
    -- The last lines of a return: `final`, then the result.
    abbrev pub finish : TransactionResult → TxOutcome → Option String → Session → Ran
    finish base outcome dispute s = (
      returned (close_with base outcome s),
      record_row (final_row input tx (some service.id) outcome dispute) s.ledger,
    )

    close_alternative : TransactionResult → EligibleService → Session → Ran → Ran
    close_alternative base alt s (threw m, l) = (threw m, l)
    close_alternative base alt s (returned r, l) =
        finish base r.outcome (some ("alternative selected: " <> service_text alt.id))
          (record s { ledger = l })

    abbrev pub alternative_chosen : EligibleService → Session → Session
    alternative_chosen alt s =
        note
          ("service "
            <> service_text service.id
            <> " fatal — selecting alternative "
            <> service_text alt.id
            <> " (new transaction)")
          s

    -- A fatal failure goes on to the first other candidate, as a new transaction.
    after_fatal : TransactionResult → List EligibleService → Session → Ran
    unfolding close_alternative
    after_fatal base [] s =
        finish base escalated (some "service fatal, no alternative")
          (note "service fatal, no eligible alternative — escalating" s)
    after_fatal base (alt ∷ more) s =
        let s' = alternative_chosen alt s in
        close_alternative base alt s' (rerun (tx <> "-alt") (some service.id) s'.ledger)

    after_consume : TransactionResult → ServiceResult → Session → Ran
    unfolding after_fatal
    after_consume base success s =
        finish base completed none (note "service result verified — closing transaction" s)
    after_consume base fatal s =
        after_fatal base (filter (λ c. not (service_eq c.id service.id)) (service ∷ others)) s
    after_consume base failure s = finish base escalated (some "service retries exhausted") (
        note
          "service retries exhausted — escalating (paid but not delivered; dispute: refund requested)"
          s)

    abbrev pub paid_base : PayResult → TransactionResult
    paid_base p = record (base_result (some service.id)) {
      payment_attempts = p.attempts;
      payment_retries_used = p.attempts - 1;
    }

    abbrev pub consumed_base : PayResult → ConsumeResult → TransactionResult
    consumed_base p c = record (paid_base p) {
      payments_settled = p.settled_payments;
      service_attempts = c.attempts;
      service_retries_used = c.attempts - 1;
    }

    after_payment : Thrown PayResult × Session → Ran
    unfolding after_consume
    after_payment (threw m, s) = (threw m, s.ledger)
    after_payment (returned p, s) =
        let (c, s') = consume_with_retries input tx service.id s in
        let consumed = after_consume (consumed_base p c) c.result s' in
        if p.settled_payments == 0
        then finish (paid_base p) (if p.required_but_killed then aborted_kill else escalated)
            (some (or_else p.pay_note "payment could not be settled")) s
        else consumed

    abbrev pub rejection_text : PolicyDecision → Option String
    rejection_text accepted = none
    rejection_text d = some ("policy: " <> decision_text d)

    abbrev pub policy_row : PolicyDecision → Draft
    policy_row d = record (row input tx (some service.id)) {
      quoted_price_cents = some service.price_cents;
      policy_limit_cents = some (min input.policy.ceilings.per_tx_cents service.max_per_tx_cents);
      policy_decision = some d;
      retry_count = some 0;
      error_or_dispute = rejection_text d;
    }

    abbrev pub reject : PolicyDecision → TxOutcome → Session → Ran
    reject d outcome s =
        finish (base_result (some service.id)) outcome
          (some ("policy decision: " <> decision_text d))
          (note
            ("policy rejected: "
              <> decision_text d
              <> " (price "
              <> decimal service.price_cents
              <> "c)")
            s)

    abbrev pub priced : Session → Session
    priced s =
        note
          ("price "
            <> decimal service.price_cents
            <> "c accepted (≤ per-tx "
            <> decimal input.policy.ceilings.per_tx_cents
            <> "c, per-service "
            <> decimal service.max_per_tx_cents
            <> "c)")
          s

    after_decision : PolicyDecision → Session → Ran
    unfolding after_payment
    after_decision accepted s =
        after_payment (pay_with_retries input tx service.id service.price_cents (priced s))
    after_decision rejected_kill s = reject rejected_kill aborted_kill s
    after_decision d s = reject d aborted_policy s

    -- From the selected service on: eligibility, the spend policy, payment and consumption.
    purchase : Session → Ran
    unfolding after_decision
    purchase s =
        let d = check_spend_policy service.id service.price_cents s.ledger in
        if any (service_eq service.id) input.policy.kill_switch.disabled_services
        then finish (base_result (some service.id)) aborted_ineligible (some "service disabled")
            (note ("service " <> service_text service.id <> " is disabled by policy") s)
        else after_decision d (log_row (policy_row d) s)

  -- The call's session once the service is chosen.
  abbrev pub selected : EligibleService → Ledger → Session
  selected service l =
      note
        ("selected service "
          <> service_text service.id
          <> " for task \""
          <> input.task
          <> "\" ("
          <> service.canonical_url
          <> ")")
        (new_session l)

  with_candidates : Rerun → String → List EligibleService → Ledger → Ran
  unfolding purchase
  with_candidates rerun tx [] l = (
    returned (
        close_with (base_result none) aborted_ineligible (
          note ("task \"" <> input.task <> "\" has no eligible service in the allowlist")
            (new_session l))),
    record_row (final_row input tx none aborted_ineligible (some "no eligible service for task")) l,
  )
  with_candidates rerun tx (service ∷ others) l =
      purchase rerun tx service others (selected service l)

  unfoldable pub run_internal : ℕ → Rerun
  unfolding with_candidates
  run_internal zero tx ex l = (
    returned (
        close_with (base_result none) escalated
          (note "alternative chain exceeded depth 3 — escalating" (new_session l))),
    record_row (final_row input tx none escalated (some "alternative depth exceeded")) l,
  )
  run_internal (suc levels) tx ex l =
      with_candidates (run_internal levels) tx (select_services ex) l

  unfoldable pub run : Ledger → Ran
  unfolding run_internal
  run l = run_internal 4 input.tx_id none l
