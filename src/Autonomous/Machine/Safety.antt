-- ===== src/Autonomous/Machine/Safety.antt =====
-- What every run of the machine in src/autonomous/state-machine.ts keeps of its ledger.
use agent_commerce_lab.Prelude.{◌≤◌, ◌≡◌, String, List, ◌++◌}
use agent_commerce_lab.Autonomous.Types.{TransactionInput, LedgerEntry}
use agent_commerce_lab.Autonomous.Ledger.{Ledger}
use agent_commerce_lab.Autonomous.Protocol.{Reaches-keeps}
use agent_commerce_lab.Autonomous.Protocol.Append.{IsNumbered, Reaches-IsNumbered, Reaches-extends}
use agent_commerce_lab.Autonomous.Protocol.Safety.{
  IsSettledOnce, Allowed-IsSettledOnce, nonce_count, Allowed-nonce_count,
}
use agent_commerce_lab.Autonomous.Machine.{run}
use agent_commerce_lab.Autonomous.Machine.Refines.{run-Reaches}

module _ (input : TransactionInput) (l : Ledger) where
  -- If, for a transaction id, the ledger counts no settlement, or one after which neither payment nor
  -- verification is open, a last payment event that is settled counts as one settlement, and no
  -- service was called without a settlement, then the same holds after a run.
  pub run-IsSettledOnce : (tx : String) → IsSettledOnce tx l → IsSettledOnce tx (run input l).1
  run-IsSettledOnce tx h =
      Reaches-keeps (IsSettledOnce tx) (Allowed-IsSettledOnce tx) (run-Reaches input l) h

  -- A nonce that stands in at most one row of the ledger stands in at most one row after a run.
  pub run-nonce_count : (n : String) → nonce_count n l ≤ 1 → nonce_count n (run input l).1 ≤ 1
  run-nonce_count n h =
      Reaches-keeps (λ m. nonce_count n m ≤ 1) (Allowed-nonce_count n) (run-Reaches input l) h

  -- A run only adds rows behind those of the ledger, and keeps the row ids 1, 2, 3 and so on.
  pub run_appends :
      IsNumbered l
      → IsNumbered (run input l).1
        × ((rows : List LedgerEntry) × ((run input l).1.entries ≡ l.entries ++ rows))
  run_appends h =
      (Reaches-IsNumbered (run-Reaches input l) h, Reaches-extends (run-Reaches input l))
