-- ===== src/Worker/Reads.antt =====
-- The free reads of src/index.ts: `GET /history`, `/changes`, `/alerts` and `/report`. Whether a read of
-- the storage fails is a parameter, and `Number` of the limit's text is one.
use agent_commerce_lab.Prelude.{
  ℕ, Bool, Option, none, some, String, List, filter, head?, length, if◌then◌else◌,
}
use agent_commerce_lab.Prelude.Text.{str_eq, is_empty, truthy}
use agent_commerce_lab.Alerting.{AlertRowData}
use agent_commerce_lab.ContentCheck.Types.{ContentResult}
use agent_commerce_lab.History.Types.{SecuritySnapshot}
use agent_commerce_lab.History.Record.{HistoryStore}
use agent_commerce_lab.History.Lists.{
  SnapshotSummary, ChangeEntry, HistoryListResult, list_snapshot_history, list_change_history,
  parse_list_limit, get_latest_snapshot_raw, page_of,
}
use agent_commerce_lab.Report.{build_digest}

pub record ListQuery : Type 0 where
  pub domain : Option String
  pub limit : Option String
  pub before : Option String

pub data ReadReply : Type 0 where
  read_error : ℕ → String → ReadReply
  snapshots_read : String → List SnapshotSummary → Option String → ReadReply
  changes_read : String → List ChangeEntry → Option String → ReadReply
  alerts_read : String → List AlertRowData → ReadReply
  report_read : String → ReadReply

-- `if (!domain)`, and the `catch` of a failing read.
abbrev pub for_domain : Bool → String → (String → ReadReply) → Option String → ReadReply
for_domain read_fails failure reply none = read_error 400 "missing required query param: domain"
for_domain read_fails failure reply (some domain) =
    if is_empty domain
    then read_error 400 "missing required query param: domain"
    else if read_fails
    then read_error 500 failure
    else reply domain

-- `...(result.nextBefore ? { nextBefore } : {})`
abbrev pub unless_empty : Option String → Option String
unless_empty o = if truthy o then o else none

module _ (number : String → Option ℕ) (read_fails : Bool) where
  abbrev pub snapshots_of : HistoryListResult SnapshotSummary → ReadReply
  snapshots_of r = snapshots_read r.domain r.items (unless_empty r.next_before)

  unfoldable pub get_history : HistoryStore → ListQuery → ReadReply
  get_history store q =
      for_domain read_fails "history storage unavailable"
        (λ domain. snapshots_of (
          list_snapshot_history store.snapshots domain (parse_list_limit number q.limit 10 100)
            q.before))
        q.domain

  abbrev pub changes_of : HistoryListResult ChangeEntry → ReadReply
  changes_of r = changes_read r.domain r.items (unless_empty r.next_before)

  unfoldable pub get_changes : HistoryStore → ListQuery → ReadReply
  get_changes store q =
      for_domain read_fails "history storage unavailable"
        (λ domain.
          changes_of
            (list_change_history store domain (parse_list_limit number q.limit 10 100) q.before))
        q.domain

  -- `WHERE domain = ?1 ORDER BY detected_at DESC LIMIT ?2`
  unfoldable pub get_alerts : List AlertRowData → ListQuery → ReadReply
  get_alerts table q =
      for_domain read_fails "alerts storage unavailable"
        (λ domain. alerts_read domain (
          page_of (λ (a : AlertRowData). a.detected_at) (parse_list_limit number q.limit 20 100)
            none (filter (λ (a : AlertRowData). str_eq a.domain domain) table)))
        q.domain

  abbrev pub content_of_raw : Option SecuritySnapshot → Option ContentResult
  content_of_raw none = none
  content_of_raw (some s) = s.content

  unfoldable pub get_report : (String → String) → String → HistoryStore → ListQuery → ReadReply
  get_report domain_key now store q =
      for_domain read_fails "report unavailable"
        (λ domain.
          let key = domain_key domain in
          let history = list_snapshot_history store.snapshots key 100 none in
          let changes = list_change_history store key 20 none in
          report_read (
            build_digest (record {
              domain = key;
              generated_at = now;
              latest = head? history.items;
              content = content_of_raw (get_latest_snapshot_raw store.snapshots key);
              changes = changes.items;
              history_count = length history.items;
            })))
        q.domain
