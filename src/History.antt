-- ===== src/History.antt =====
-- src/history.ts: what changed between two snapshots of a domain. The parts are the types, the
-- field-by-field comparison, and the version gate with the store it reads.
pub mod Types
pub mod Diff
pub mod Content
pub mod Compare
pub mod Alarm
pub mod Gate
pub mod Anchor
pub mod Record
pub mod Wrapper
pub mod Lists
pub mod Paging
pub mod Same
mod ListTests
pub mod Effects
pub mod Tests
