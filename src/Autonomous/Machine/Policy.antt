-- ===== src/Autonomous/Machine/Policy.antt =====
-- When the spend policy of src/autonomous/state-machine.ts accepts a price, and what the kill switch
-- and a disabled service do to a run.
use agent_commerce_lab.Prelude.{
  ℕ, ◌+◌, ◌≤◌, ◌≡◌, refl, ◌⊎◌, inl, inr, ◌↔◌, true, false, Option, none, some, String, List, [],
  ◌∷◌, arith, any, Bool-cases,
}
use agent_commerce_lab.Autonomous.Types.{
  Draft, EligibleService, ServiceId, accepted, rejected_kill, TxOutcome, aborted_kill,
  aborted_ineligible, TransactionInput, TransactionResult, service_limit, service_eq,
}
use agent_commerce_lab.Autonomous.Ledger.{Ledger, record_row, settled_spend_cents, nonce_used}
use agent_commerce_lab.Autonomous.Ledger.Laws.{
  settled_spend_cents-record_row, nonce_used-record_row,
}
use agent_commerce_lab.Autonomous.Session.{Session, Thrown, returned, threw}
use agent_commerce_lab.Autonomous.Machine.{
  Rerun, day_start, month_start, selected, check_spend_policy, purchase, with_candidates,
  run_internal, run, select_services,
}

-- The policy accepts a price exactly if commerce is enabled, the price is within the per-transaction
-- and the per-service ceiling, and with it the day and the month stay within theirs.
pub check_spend_policy_iff :
    (input : TransactionInput) (id : ServiceId) (price : ℕ) (l : Ledger)
    → let c = input.policy.ceilings in
      (check_spend_policy input id price l ≡ accepted) ↔ (
        (input.policy.kill_switch.autonomous_commerce_enabled ≡ true)
        × (price ≤ c.per_tx_cents)
        × (price ≤ service_limit c.per_service_cents id)
        × (settled_spend_cents (day_start input.now) input.now l + price ≤ c.daily_cents)
        × (settled_spend_cents (month_start input.now) input.now l + price ≤ c.monthly_cents))
unfolding check_spend_policy
check_spend_policy_iff input id price l = (λ h. ground arith, λ h. ground arith)

abbrev pub outcome_of : Thrown TransactionResult → Option TxOutcome
outcome_of (returned r) = some r.outcome
outcome_of (threw m) = none

-- Nothing is paid: no nonce is used that was not used, and no window's spend grows.
pub record IsUnpaid (l l' : Ledger) : Type 0 where
  pub same_nonces : (n : String) → nonce_used n l' ≡ nonce_used n l
  pub same_spend :
      (since until : String)
      → settled_spend_cents since until l' ≡ settled_spend_cents since until l

record_row-IsUnpaid :
    (d : Draft) (l m : Ledger)
    → d.nonce ≡ none
    → d.settlement_status ≡ none
    → IsUnpaid l m
    → IsUnpaid l (record_row d m)
record_row-IsUnpaid d l m no_nonce no_status h = record {
  same_nonces = λ n. ground (arith, h.same_nonces n, nonce_used-record_row n d m);
  same_spend = λ since until.
      ground (arith, h.same_spend since until, settled_spend_cents-record_row since until d m);
}

IsUnpaid-refl : (l : Ledger) → IsUnpaid l l
IsUnpaid-refl l = record { same_nonces = λ n. refl; same_spend = λ s u. refl }

abbrev IsAborted : Ledger → Thrown TransactionResult × Ledger → Type 0
IsAborted l (r, l') =
    ((outcome_of r ≡ some aborted_kill) ⊎ (outcome_of r ≡ some aborted_ineligible)) × IsUnpaid l l'

module _ (input : TransactionInput) where
  killed_decision :
      (id : ServiceId) (price : ℕ) (l : Ledger)
      → input.policy.kill_switch.autonomous_commerce_enabled ≡ false
      → check_spend_policy input id price l ≡ rejected_kill
  unfolding check_spend_policy
  killed_decision id price l off = rw off refl

  killed_purchase :
      (rerun : Rerun input) (tx : String) (service : EligibleService)
      (others : List EligibleService) (s : Session)
      → input.policy.kill_switch.autonomous_commerce_enabled ≡ false
      → IsAborted s.ledger (purchase input rerun tx service others s)
  unfolding purchase
  killed_purchase rerun tx service others s off =
      let same = IsUnpaid-refl s.ledger in
      rw (killed_decision service.id service.price_cents s.ledger off)
        (elim (Bool-cases
          (any (service_eq service.id) input.policy.kill_switch.disabled_services)) [
            | inl e ↦ rw e (inr refl, record_row-IsUnpaid _ s.ledger s.ledger refl refl same)
            | inr e ↦ rw e (
              inl refl,
              record_row-IsUnpaid _ s.ledger _ refl refl
                  (record_row-IsUnpaid _ s.ledger s.ledger refl refl same),
            )
          ])

  killed_candidates :
      (rerun : Rerun input) (tx : String) (cs : List EligibleService) (l : Ledger)
      → input.policy.kill_switch.autonomous_commerce_enabled ≡ false
      → IsAborted l (with_candidates input rerun tx cs l)
  unfolding with_candidates
  killed_candidates rerun tx [] l off =
      (inr refl, record_row-IsUnpaid _ l l refl refl (IsUnpaid-refl l))
  killed_candidates rerun tx (service ∷ others) l off =
      killed_purchase rerun tx service others (selected input service l) off

  -- With the kill switch on, a run ends as aborted by it or as ineligible, uses no nonce, and adds
  -- nothing to the settled spend of any window.
  pub killed_run :
      (l : Ledger)
      → input.policy.kill_switch.autonomous_commerce_enabled ≡ false
      → let (r, l') = run input l in
        ((outcome_of r ≡ some aborted_kill) ⊎ (outcome_of r ≡ some aborted_ineligible))
        × IsUnpaid l l'
  unfolding run
  killed_run l off =
      killed_candidates (run_internal input 3) input.tx_id (select_services input none) l off
