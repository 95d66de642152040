-- ===== src/Report/Tests.antt =====
-- The digest of src/report.ts for a domain without snapshots.
use agent_commerce_lab.Prelude.{◌≡◌, refl, none, []}
use agent_commerce_lab.Report.{DigestInput, build_digest}

abbrev no_history : DigestInput
no_history = record {
  domain = "example.com";
  generated_at = "2026-08-20";
  latest = none;
  content = none;
  changes = [];
  history_count = 0;
}

digest_test :
    build_digest no_history
    ≡ "# SiteHealth Passport — example.com\n_Generated 2026-08-20 UTC_\n\nNo snapshots recorded for this domain yet.\n"
unfolding build_digest
digest_test = refl
