-- ===== src/History/Lists.antt =====
-- The list reads of src/history.ts: `listSnapshots`, `listChanges` and their histories with the key of
-- the next page, `parseListLimit` and `getLatestSnapshotRaw`. `ORDER BY … DESC` puts a row behind those of
-- its time that are stored after it.
use agent_commerce_lab.Prelude.{
  ℕ, Bool, true, not, Option, none, some, String, List, [], ◌∷◌, ◌==◌, filter, find, map, take,
  length, last?, min, leb, if◌then◌else◌,
}
use agent_commerce_lab.Prelude.Int.{ℤ}
use agent_commerce_lab.Prelude.Text.{str_eq, str_ltb, is_empty}
use agent_commerce_lab.ContentCheck.Types.{Grade, ContentStatus}
use agent_commerce_lab.Verdict.{VerdictStatus}
use agent_commerce_lab.History.Types.{
  SnapshotStatus, Materiality, ChangedField, SecuritySnapshot, SnapshotVersionMeta, SnapshotRow,
  ChangeRow,
}
use agent_commerce_lab.History.Compare.{is_complete, latest_row, record_materiality}
use agent_commerce_lab.History.Record.{HistoryStore}

-- Rows in descending order of a time.
module _ {A : Type 0} (time : A → String) where
  abbrev pub insert_desc : A → List A → List A
  insert_desc x [] = x ∷ []
  insert_desc x (y ∷ ys) =
      let behind = y ∷ insert_desc x ys in if str_ltb (time x) (time y) then behind else x ∷ y ∷ ys

  abbrev pub order_desc : List A → List A
  order_desc [] = []
  order_desc (x ∷ xs) = insert_desc x (order_desc xs)

  -- `before ? … AND time < ?2 : …`: an empty text is no bound.
  abbrev pub is_before : Option String → A → Bool
  is_before none x = true
  is_before (some b) x = if is_empty b then true else str_ltb (time x) b

  -- `WHERE … ORDER BY time DESC LIMIT limit`
  unfoldable pub page_of : ℕ → Option String → List A → List A
  page_of limit before rows = take limit (order_desc (filter (is_before before) rows))

  abbrev pub last_time : Option A → Option String
  last_time none = none
  last_time (some x) = some (time x)

  -- `items.length === limit ? items[items.length - 1].time : undefined`
  unfoldable pub next_before : ℕ → List A → Option String
  next_before limit items = if length items == limit then last_time (last? items) else none

abbrev pub scanned_at : SnapshotRow → String
scanned_at row = row.meta.scanned_at

abbrev pub of_domain : String → List SnapshotRow → List SnapshotRow
of_domain domain rows = filter (λ (r : SnapshotRow). str_eq r.domain domain) rows

unfoldable pub list_snapshots : List SnapshotRow → String → ℕ → Option String → List SnapshotRow
list_snapshots table domain limit before = page_of scanned_at limit before (of_domain domain table)

pub record SnapshotSummary : Type 0 where
  pub snapshot_id : ℕ
  pub domain : String
  pub scanned_at : String
  pub scanner_version : String
  pub scoring_version : String
  pub status : SnapshotStatus
  pub http_status : Option ℕ
  pub used_https : Bool
  pub tls_protocol : Option String
  pub weak_cipher : Bool
  pub header_score : ℕ
  pub header_grade : Grade
  pub verdict_status : VerdictStatus
  pub verdict_score : ℕ
  pub content_score : Option ℕ
  pub content_grade : Option Grade
  pub content_status : Option ContentStatus
  pub content_pages_scanned : Option ℕ

unfoldable pub to_snapshot_summary : SnapshotRow → SnapshotSummary
to_snapshot_summary row = record {
  snapshot_id = row.meta.id;
  domain = row.domain;
  scanned_at = row.meta.scanned_at;
  scanner_version = row.meta.scanner_version;
  scoring_version = row.meta.scoring_version;
  status = row.status;
  http_status = row.columns.http_status;
  used_https = row.columns.used_https == 1;
  tls_protocol = row.columns.tls_protocol;
  weak_cipher = row.columns.weak_cipher == 1;
  header_score = row.columns.header_score;
  header_grade = row.columns.header_grade;
  verdict_status = row.columns.verdict_status;
  verdict_score = row.columns.verdict_score;
  content_score = row.columns.content_score;
  content_grade = row.columns.content_grade;
  content_status = row.columns.content_status;
  content_pages_scanned = row.columns.content_pages_scanned;
}

pub record HistoryListResult {ℓ} (A : Type ℓ) : Type ℓ where
  pub domain : String
  pub items : List A
  pub next_before : Option String

unfoldable pub list_snapshot_history :
    List SnapshotRow → String → ℕ → Option String → HistoryListResult SnapshotSummary
list_snapshot_history table domain limit before =
    let items = map to_snapshot_summary (list_snapshots table domain limit before) in
    record {
      domain = domain;
      items = items;
      next_before = next_before (λ (s : SnapshotSummary). s.scanned_at) limit items;
    }

-- A change with the two snapshots that it joins.
pub record JoinedChange : Type 0 where
  pub change : ChangeRow
  pub from_meta : SnapshotVersionMeta
  pub to_meta : SnapshotVersionMeta

abbrev pub by_id : List SnapshotRow → ℕ → Option SnapshotRow
by_id table id = find (λ (r : SnapshotRow). r.meta.id == id) table

-- `JOIN snapshots f … JOIN snapshots t …`: a change without either row is left out.
abbrev pub join_rows :
    ChangeRow → Option SnapshotRow → Option SnapshotRow → List JoinedChange → List JoinedChange
join_rows c (some f) (some t) rest =
    record { change = c; from_meta = f.meta; to_meta = t.meta } ∷ rest
join_rows c _ _ rest = rest

abbrev pub join_changes : List SnapshotRow → List ChangeRow → List JoinedChange
join_changes table [] = []
join_changes table (c ∷ cs) =
    join_rows c (by_id table c.from_snapshot_id) (by_id table c.to_snapshot_id)
      (join_changes table cs)

abbrev pub detected_at : JoinedChange → String
detected_at c = c.change.detected_at

unfoldable pub list_changes : HistoryStore → String → ℕ → Option String → List JoinedChange
list_changes store domain limit before = page_of detected_at limit before (
    join_changes store.snapshots (filter (λ (c : ChangeRow). str_eq c.domain domain) store.changes))

pub record ChangeEntry : Type 0 where
  pub change_id : ℕ
  pub domain : String
  pub detected_at : String
  pub comparable : Bool
  pub reason : String
  pub materiality : Option Materiality
  pub changed_fields : List ChangedField
  pub score_delta : Option ℤ
  pub verdict_moved : Bool
  pub from_meta : SnapshotVersionMeta
  pub to_meta : SnapshotVersionMeta

abbrev pub entry_reason : Bool → SnapshotVersionMeta → SnapshotVersionMeta → String
entry_reason comparable from to =
    if comparable
    then "same scoring model"
    else if not (str_eq from.scoring_version to.scoring_version)
    then "scoring model changed between observations"
    else if not (str_eq from.scanner_version to.scanner_version)
    then "scanner model changed between observations"
    else "not comparable"

unfoldable pub to_change_entry : JoinedChange → ChangeEntry
to_change_entry row =
    let comparable = row.change.comparable == 1 in
    let reason = entry_reason comparable row.from_meta row.to_meta in
    let moved = row.change.verdict_moved == 1 in
    record {
      change_id = row.change.change_id;
      domain = row.change.domain;
      detected_at = row.change.detected_at;
      comparable = comparable;
      reason = reason;
      materiality =
          if comparable
          then record_materiality (record {
            comparable = comparable;
            reason = reason;
            changed_fields = row.change.changed_fields;
            score_delta = row.change.score_delta;
            verdict_moved = moved;
          })
          else none;
      changed_fields = row.change.changed_fields;
      score_delta = row.change.score_delta;
      verdict_moved = moved;
      from_meta = row.from_meta;
      to_meta = row.to_meta;
    }

unfoldable pub list_change_history :
    HistoryStore → String → ℕ → Option String → HistoryListResult ChangeEntry
list_change_history store domain limit before =
    let items = map to_change_entry (list_changes store domain limit before) in
    record {
      domain = domain;
      items = items;
      next_before = next_before (λ (e : ChangeEntry). e.detected_at) limit items;
    }

-- `Number(raw)` is a parameter, `none` where it gives no whole number or a negative one.
abbrev pub clamp_limit : Option ℕ → ℕ → ℕ → ℕ
clamp_limit none def most = def
clamp_limit (some n) def most = if leb 1 n then min n most else def

unfoldable pub parse_list_limit : (String → Option ℕ) → Option String → ℕ → ℕ → ℕ
parse_list_limit number none def most = def
parse_list_limit number (some raw) def most =
    if is_empty raw then def else clamp_limit (number raw) def most

abbrev pub raw_of_row : Option SnapshotRow → Option SecuritySnapshot
raw_of_row none = none
raw_of_row (some row) = some row.raw_snapshot

-- `WHERE domain = ?1 AND status = 'complete' ORDER BY scanned_at DESC LIMIT 1`
unfoldable pub get_latest_snapshot_raw : List SnapshotRow → String → Option SecuritySnapshot
get_latest_snapshot_raw table domain =
    raw_of_row
      (latest_row (filter (λ (r : SnapshotRow). is_complete r.status) (of_domain domain table)))
