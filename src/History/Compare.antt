-- ===== src/History/Compare.antt =====
-- `snapshotStatus`, `computeChange`, `recordMateriality` and `getPriorCompleteSnapshot` of
-- src/history.ts. The snapshots table is the list of its rows.
use agent_commerce_lab.Prelude.{
  Bool, true, false, ◌&&◌, not, Option, none, some, String, List, [], ◌∷◌, leb, if◌then◌else◌, any,
  filter, is_some,
}
use agent_commerce_lab.Prelude.Int.{ℤ, sub_ℕ, abs}
use agent_commerce_lab.Prelude.Text.{str_eq, str_ltb}
use agent_commerce_lab.History.Types.{
  SnapshotStatus, complete, partial, failed, Materiality, critical, material, informational,
  ChangedField, CompareResult, SecuritySnapshot, SnapshotVersionMeta, SnapshotRow,
}
use agent_commerce_lab.History.Diff.{same_verdict}
use agent_commerce_lab.History.Content.{diff_snapshots}

unfoldable pub snapshot_status : SecuritySnapshot → SnapshotStatus
snapshot_status snapshot =
    if is_some snapshot.http.error
    then failed
    else if str_eq snapshot.dns.note "not evaluated"
    then partial
    else complete

abbrev pub not_comparable : String → CompareResult
not_comparable why = record {
  comparable = false;
  reason = why;
  changed_fields = [];
  score_delta = none;
  verdict_moved = false;
}

unfoldable pub compute_change :
    SnapshotVersionMeta → SecuritySnapshot → SnapshotVersionMeta → SecuritySnapshot → CompareResult
compute_change prior prior_snapshot current current_snapshot =
    if not (str_eq prior.scoring_version current.scoring_version)
    then not_comparable "scoring model changed between observations"
    else if not (str_eq prior.scanner_version current.scanner_version)
    then not_comparable "scanner model changed between observations"
    else record {
      comparable = true;
      reason = "same scoring model";
      changed_fields = diff_snapshots prior_snapshot current_snapshot;
      score_delta = some (sub_ℕ current_snapshot.verdict.score prior_snapshot.verdict.score);
      verdict_moved =
          not (same_verdict prior_snapshot.verdict.status current_snapshot.verdict.status);
    }

abbrev pub is_critical_tier : Materiality → Bool
is_critical_tier critical = true
is_critical_tier _ = false

abbrev pub is_material_tier : Materiality → Bool
is_material_tier material = true
is_material_tier _ = false

unfoldable pub has_critical : List ChangedField → Bool
has_critical fields = any (λ (f : ChangedField). is_critical_tier f.materiality) fields

abbrev pub has_material : List ChangedField → Bool
has_material fields = any (λ (f : ChangedField). is_material_tier f.materiality) fields

abbrev pub large_delta : Option ℤ → Bool
large_delta none = false
large_delta (some d) = leb 15 (abs d)

unfoldable pub record_materiality : CompareResult → Option Materiality
record_materiality result =
    if not result.comparable
    then none
    else if has_critical result.changed_fields
    then some critical
    else if has_material result.changed_fields
    then some material
    else if large_delta result.score_delta
    then some material
    else some informational

abbrev pub is_complete : SnapshotStatus → Bool
is_complete complete = true
is_complete _ = false

-- `ORDER BY scanned_at DESC LIMIT 1`: the row with the largest time, the first stored of equals.
abbrev pub later_row : SnapshotRow → Option SnapshotRow → SnapshotRow
later_row row none = row
later_row row (some best) = if str_ltb row.meta.scanned_at best.meta.scanned_at then best else row

abbrev pub latest_row : List SnapshotRow → Option SnapshotRow
latest_row [] = none
latest_row (row ∷ rows) = some (later_row row (latest_row rows))

abbrev pub may_anchor : String → String → SnapshotRow → Bool
may_anchor domain before row =
    str_eq row.domain domain && is_complete row.status && str_ltb row.meta.scanned_at before

unfoldable pub get_prior_complete_snapshot : List SnapshotRow → String → String → Option SnapshotRow
get_prior_complete_snapshot table domain before =
    latest_row (filter (may_anchor domain before) table)
