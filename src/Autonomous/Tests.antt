-- ===== src/Autonomous/Tests.antt =====
-- Runs of the machine in src/autonomous/state-machine.ts at concrete inputs: an ambiguous payment that
-- settles, a fatal service, and the alternative behind it.
use agent_commerce_lab.Prelude.{
  ℕ, ◌+◌, ◌≤◌, ◌≡◌, refl, ◌⊎◌, true, false, max, ◌↔◌, some, none, List, [], ◌∷◌, ◌++◌, arith,
  length,
}
use agent_commerce_lab.Prelude.Text.{decimal}
use agent_commerce_lab.Autonomous.Types.{
  World, ServiceId, sitehealth, vat_api, settled, unknown, verified_settled, success, fatal,
  SettlementStatus, ServiceResult, accepted, TransactionInput, completed, aborted_kill,
  aborted_ineligible, KillSwitchState, LedgerEntry,
}
use agent_commerce_lab.Autonomous.Policy.{a1_policy, a1_tasks}
use agent_commerce_lab.Autonomous.Ledger.{
  new_ledger, record_row, settled_spend_cents, can_issue_payment, nonce_used, last_payment_for,
}
use agent_commerce_lab.Autonomous.Payment.{nonce_for, pay_turn, pay_from, pay_with_retries}
use agent_commerce_lab.Autonomous.Payment.Nonces.{IsReturned}
use agent_commerce_lab.Autonomous.Consumption.{consume_from, consume_with_retries}
use agent_commerce_lab.Autonomous.Protocol.Append.{IsNumbered}
use agent_commerce_lab.Autonomous.Protocol.Safety.{
  IsSettledOnce, IsSettledOnce-new_ledger, nonce_count,
}
use agent_commerce_lab.Autonomous.Machine.{
  select_services, check_spend_policy, run_internal, run, day_start, month_start,
}
use agent_commerce_lab.Autonomous.Protocol.{Reaches}
use agent_commerce_lab.Autonomous.Machine.Refines.{run-Reaches}
use agent_commerce_lab.Autonomous.Machine.Safety.{run-IsSettledOnce, run-nonce_count, run_appends}
use agent_commerce_lab.Autonomous.Machine.Spend.{run_within_ceilings}
use agent_commerce_lab.Autonomous.Machine.Depth.{run_two_levels}
use agent_commerce_lab.Autonomous.Machine.Total.{run-returns}
use agent_commerce_lab.Autonomous.Machine.Bounds.{RanIsSound, run-IsSound}
use agent_commerce_lab.Autonomous.Machine.Policy.{
  check_spend_policy_iff, outcome_of, IsUnpaid, killed_run,
}

-- The first payment stays unknown and is found settled; the VAT service is fatal.
abbrev pay_outcome : ServiceId → ℕ → SettlementStatus
pay_outcome vat_api k = unknown
pay_outcome sitehealth k = settled

abbrev serve_outcome : ServiceId → ℕ → ServiceResult
serve_outcome vat_api k = fatal
serve_outcome sitehealth k = success

abbrev world : World
world = record {
  payment_outcome = pay_outcome;
  verify_settlement = λ s k. verified_settled;
  service_outcome = serve_outcome;
}

abbrev input : TransactionInput
input = record {
  tx_id = "t1";
  agent_id = "a";
  task = "compliance";
  policy = a1_policy;
  task_map = a1_tasks;
  world = world;
  now = "2026-08-20T10:00:00.000Z";
}

abbrev with_switch : KillSwitchState → TransactionInput
with_switch k = record input { policy = record a1_policy { kill_switch = k } }

abbrev killed : TransactionInput
killed = with_switch (record { autonomous_commerce_enabled = false; disabled_services = [] })

abbrev vat_disabled : TransactionInput
vat_disabled =
    with_switch (record { autonomous_commerce_enabled = true; disabled_services = vat_api ∷ [] })

-- Evaluation of a run.
machine : Unit {0}
unfolding decimal run record_row settled_spend_cents can_issue_payment nonce_used last_payment_for
    nonce_for pay_turn pay_from pay_with_retries consume_from consume_with_retries select_services
    check_spend_policy
machine = tt

-- The alternative completes the task: nine rows, two of them settlements of one cent each.
run_test :
    let (r, l) = run input new_ledger in
    (outcome_of r ≡ some completed)
    × (length l.entries ≡ 9)
    × (settled_spend_cents (day_start input.now) input.now l ≡ 2)
unfolding machine
run_test = (refl, refl, refl)

run-IsSettledOnce_example : IsSettledOnce "t1" (run input new_ledger).1
run-IsSettledOnce_example = run-IsSettledOnce input new_ledger "t1" (IsSettledOnce-new_ledger "t1")

run-nonce_count_example : nonce_count "t1:pay:1" (run input new_ledger).1 ≤ 1
unfolding nonce_count
run-nonce_count_example = run-nonce_count input new_ledger "t1:pay:1" (omega arith)

new_ledger-IsNumbered : IsNumbered new_ledger
new_ledger-IsNumbered = record { rows = tt; next_id = refl }

run_appends_example :
    IsNumbered (run input new_ledger).1
    × ((rows : List LedgerEntry) × ((run input new_ledger).1.entries ≡ new_ledger.entries ++ rows))
run_appends_example = run_appends input new_ledger new_ledger-IsNumbered

run_within_ceilings_example :
    let day = settled_spend_cents (day_start input.now) input.now in
    let month = settled_spend_cents (month_start input.now) input.now in
    let l' = (run input new_ledger).1 in
    (day l' ≤ max (day new_ledger) 500) × (month l' ≤ max (month new_ledger) 5000)
run_within_ceilings_example = run_within_ceilings input new_ledger

run_two_levels_example : run input new_ledger ≡ run_internal input 7 "t1" none new_ledger
run_two_levels_example = run_two_levels input 5 new_ledger

run-returns_example : IsReturned (run input new_ledger).0
unfolding nonce_used
run-returns_example = run-returns input new_ledger (λ k h. refl) (λ k h. refl)

run-IsSound_example : RanIsSound input (run input new_ledger).0
run-IsSound_example = run-IsSound input new_ledger

check_spend_policy_iff_example : (check_spend_policy input vat_api 1 new_ledger ≡ accepted) ↔ (
    (true ≡ true)
    × (1 ≤ 100)
    × (1 ≤ 25)
    × (settled_spend_cents (day_start input.now) input.now new_ledger + 1 ≤ 500)
    × (settled_spend_cents (month_start input.now) input.now new_ledger + 1 ≤ 5000))
check_spend_policy_iff_example = check_spend_policy_iff input vat_api 1 new_ledger

killed_run_example :
    let (r, l') = run killed new_ledger in
    ((outcome_of r ≡ some aborted_kill) ⊎ (outcome_of r ≡ some aborted_ineligible))
    × IsUnpaid new_ledger l'
killed_run_example = killed_run killed new_ledger refl

run-Reaches_example : Reaches new_ledger (run input new_ledger).1
run-Reaches_example = run-Reaches input new_ledger
