-- ===== src/ContentCheck.antt =====
-- src/content-check.ts: findings, classification and scoring of the content-accuracy dimension.
pub mod Types
pub mod Score
pub mod Classify
pub mod Extract
pub mod Fetch
pub mod Run
mod Tests
pub mod CrawlTests
