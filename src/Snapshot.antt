-- ===== src/Snapshot.antt =====
-- src/snapshot.ts: the redirect chain and the assembly of a snapshot.
pub mod Chain
pub mod Assemble
pub mod Scan
pub mod Guarded
pub mod Returns
pub mod Content
mod Tests
