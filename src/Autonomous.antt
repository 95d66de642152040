-- ===== src/Autonomous.antt =====
-- The autonomous purchasing agent (src/autonomous): types, standing policy, ledger, machine.
pub mod Types
pub mod Policy
pub mod Ledger
pub mod Session
pub mod Payment
pub mod Consumption
pub mod Machine
pub mod Protocol
mod Tests
