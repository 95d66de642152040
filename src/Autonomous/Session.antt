-- ===== src/Autonomous/Session.antt =====
-- The state that one call of `runInternal` in src/autonomous/state-machine.ts works on: the shared
-- ledger, and the arrays `nonces` and `notes` of the call. The rows that the machine records.
use agent_commerce_lab.Prelude.{none, some, Option, String, List, [], ◌∷◌, ◌++◌}
use agent_commerce_lab.Autonomous.Types.{Draft, ServiceId, TransactionInput, TxOutcome}
use agent_commerce_lab.Autonomous.Ledger.{Ledger, record_row}

pub record Session : Type 0 where
  pub ledger : Ledger
  pub nonces : List String
  pub notes : List String

abbrev pub new_session : Ledger → Session
new_session l = record { ledger = l; nonces = []; notes = [] }

-- `notes.push(line)`
abbrev pub note : String → Session → Session
note line s = record s { notes = s.notes ++ line ∷ [] }

-- `nonces.push(nonce)`
abbrev pub push_nonce : String → Session → Session
push_nonce n s = record s { nonces = s.nonces ++ n ∷ [] }

-- `this.ledger.record(row)`
abbrev pub log_row : Draft → Session → Session
log_row d s = record s { ledger = record_row d s.ledger }

-- An exception leaves what was recorded before it in the ledger.
pub data Thrown (A : Type 0) : Type 0 where
  returned : A → Thrown A
  threw : String → Thrown A

module _ (input : TransactionInput) (tx : String) where
  -- The fields that every row of a transaction shares; the others are null.
  abbrev pub row : Option ServiceId → Draft
  row service = record {
    tx_id = tx;
    agent_id = input.agent_id;
    service_id = service;
    request = input.task;
    quoted_price_cents = none;
    policy_limit_cents = none;
    policy_decision = none;
    payment_attempt = none;
    nonce = none;
    network = "simulation";
    settlement_status = none;
    service_result = none;
    retry_count = none;
    final_outcome = none;
    timestamp = input.now;
    error_or_dispute = none;
  }

  -- `final`
  abbrev pub final_row : Option ServiceId → TxOutcome → Option String → Draft
  final_row service outcome dispute = record (row service) {
    final_outcome = some outcome;
    error_or_dispute = dispute;
  }
