-- ===== src/History/Record.antt =====
-- `snapshotToRow`, the two inserts, `recordAndCompare` and `runSnapshotWithHistory` of src/history.ts.
-- The store is its two tables with the next ids; a storage failure is `none`. The host name of a
-- target is a parameter, since the URL parser is the platform's.
use agent_commerce_lab.Prelude.{
  ℕ, ◌+◌, Bool, Option, none, some, String, List, [], ◌∷◌, ◌++◌, if◌then◌else◌,
}
use agent_commerce_lab.ContentCheck.Types.{ContentResult}
use agent_commerce_lab.History.Types.{
  CompareResult, SecuritySnapshot, SnapshotVersionMeta, SnapshotColumns, SnapshotRow, ChangeRow,
  ChangeResponse,
}
use agent_commerce_lab.History.Compare.{
  snapshot_status, not_comparable, compute_change, get_prior_complete_snapshot,
}

abbrev pub current_scanner_version : String
current_scanner_version = "snapshot-v3"

abbrev pub current_scoring_version : String
current_scoring_version = "scoring-v2"

abbrev pub flag : Bool → ℕ
flag b = if b then 1 else 0

abbrev pub of_content {ℓ} : {A : Type ℓ} → (ContentResult → A) → Option ContentResult → Option A
of_content f none = none
of_content f (some c) = some (f c)

abbrev pub columns_of : SecuritySnapshot → SnapshotColumns
columns_of snapshot = record {
  http_status = snapshot.http.status;
  used_https = flag snapshot.tls.used_https;
  tls_protocol = snapshot.tls.protocol;
  weak_cipher = flag snapshot.tls.weak_cipher;
  header_score = snapshot.header_score.score;
  header_grade = snapshot.header_score.grade;
  verdict_status = snapshot.verdict.status;
  verdict_score = snapshot.verdict.score;
  content_score = of_content (λ (c : ContentResult). c.score) snapshot.content;
  content_grade = of_content (λ (c : ContentResult). c.grade) snapshot.content;
  content_status = of_content (λ (c : ContentResult). c.status) snapshot.content;
  content_pages_scanned =
      of_content (λ (c : ContentResult). c.scope.pages_scanned) snapshot.content;
}

abbrev pub current_meta : ℕ → SecuritySnapshot → SnapshotVersionMeta
current_meta id snapshot = record {
  id = id;
  scanned_at = snapshot.timestamp;
  scanner_version = current_scanner_version;
  scoring_version = current_scoring_version;
}

unfoldable pub snapshot_to_row : ℕ → String → SecuritySnapshot → SnapshotRow
snapshot_to_row id domain snapshot = record {
  meta = current_meta id snapshot;
  domain = domain;
  status = snapshot_status snapshot;
  columns = columns_of snapshot;
  raw_snapshot = snapshot;
}

pub record HistoryStore : Type 0 where
  pub snapshots : List SnapshotRow
  pub next_snapshot_id : ℕ
  pub changes : List ChangeRow
  pub next_change_id : ℕ

abbrev pub insert_snapshot_row : String → SecuritySnapshot → HistoryStore → HistoryStore
insert_snapshot_row domain snapshot store = record store {
  snapshots = store.snapshots ++ snapshot_to_row store.next_snapshot_id domain snapshot ∷ [];
  next_snapshot_id = store.next_snapshot_id + 1;
}

abbrev pub insert_change_row : ChangeRow → HistoryStore → HistoryStore
insert_change_row change store = record store {
  changes = store.changes ++ change ∷ [];
  next_change_id = store.next_change_id + 1;
}

abbrev pub change_row : String → ℕ → ℕ → ℕ → String → CompareResult → ChangeRow
change_row domain id from to detected_at result = record {
  change_id = id;
  domain = domain;
  from_snapshot_id = from;
  to_snapshot_id = to;
  detected_at = detected_at;
  comparable = 1;
  changed_fields = result.changed_fields;
  score_delta = result.score_delta;
  verdict_moved = flag result.verdict_moved;
}

-- The response and the store once the anchor is looked up.
abbrev pub compare_with :
    String
    → String
    → SecuritySnapshot
    → SnapshotVersionMeta
    → Option SnapshotRow
    → HistoryStore
    → ChangeResponse × HistoryStore
compare_with domain detected_at snapshot to none store = (
  record {
    comparison = not_comparable "no prior snapshot";
    detected_at = detected_at;
    change_id = none;
    from_meta = none;
    to_meta = some to;
  },
  store,
)
compare_with domain detected_at snapshot to (some prior) store =
    let result = compute_change prior.meta prior.raw_snapshot to snapshot in
    (
      record {
        comparison = result;
        detected_at = detected_at;
        change_id = if result.comparable then some store.next_change_id else none;
        from_meta = some prior.meta;
        to_meta = some to;
      },
      if result.comparable
          then insert_change_row
              (change_row domain store.next_change_id prior.meta.id to.id detected_at result) store
          else store,
    )

module _ (domain_key : String → String) where
  unfoldable pub record_and_compare :
      String → SecuritySnapshot → HistoryStore → ChangeResponse × HistoryStore
  record_and_compare detected_at snapshot store =
      let domain = domain_key snapshot.target in
      let stored = insert_snapshot_row domain snapshot store in
      compare_with domain detected_at snapshot (current_meta store.next_snapshot_id snapshot)
        (get_prior_complete_snapshot stored.snapshots domain snapshot.timestamp) stored
