-- ===== src/Alerting.antt =====
-- src/alerting.ts: the alert on a change, its delivery to a webhook and its row. The webhook's answer and
-- a failing insert are parameters; the table of the alerts is the list of its rows.
use agent_commerce_lab.Prelude.{
  ℕ, suc, Bool, true, false, not, Option, none, some, String, List, [], ◌∷◌, ◌++◌, length,
  if◌then◌else◌,
}
use agent_commerce_lab.Prelude.Int.{ℤ, pos, negsuc}
use agent_commerce_lab.Prelude.Text.{◌<>◌, decimal, truthy}
use agent_commerce_lab.History.Types.{
  Materiality, critical, material, informational, ChangeResponse,
}
use agent_commerce_lab.History.Compare.{record_materiality}

pub record AlertRowData : Type 0 where
  pub domain : String
  pub detected_at : String
  pub change_id : Option ℕ
  pub materiality : Option Materiality
  pub verdict_moved : Bool
  pub summary : String
  pub delivered_at : Option String
  pub delivery_error : Option String

unfoldable pub change_materiality : ChangeResponse → Option Materiality
change_materiality change =
    if not change.comparison.comparable then none else record_materiality change.comparison

abbrev pub is_alarming : Option Materiality → Bool
is_alarming (some critical) = true
is_alarming (some material) = true
is_alarming _ = false

unfoldable pub should_alert : ChangeResponse → Bool
should_alert change = is_alarming (change_materiality change)

abbrev pub materiality_text : Option Materiality → String
materiality_text (some critical) = "critical"
materiality_text (some material) = "material"
materiality_text (some informational) = "informational"
materiality_text none = "informational"

-- `${scoreDelta}`
abbrev pub delta_text : Option ℤ → String
delta_text none = "null"
delta_text (some (pos n)) = decimal n
delta_text (some (negsuc n)) = "-" <> decimal (suc n)

unfoldable pub alert_summary : ChangeResponse → String
alert_summary change =
    "Change detected: materiality "
    <> materiality_text (change_materiality change)
    <> ", "
    <> decimal (length change.comparison.changed_fields)
    <> " field(s) changed, score delta "
    <> delta_text change.comparison.score_delta
    <> ", "
    <> (if change.comparison.verdict_moved then "verdict moved" else "verdict unchanged")
    <> "."

-- What the request to the webhook comes to, with the time of an answer that is ok.
pub data Delivery : Type 0 where
  delivered_ok : String → Delivery
  responded : ℕ → Delivery
  delivery_threw : String → Delivery

pub record AlertDeliveryResult : Type 0 where
  pub delivered_at : Option String
  pub error : Option String

abbrev pub delivery_result : Delivery → AlertDeliveryResult
delivery_result (delivered_ok now) = record { delivered_at = some now; error = none }
delivery_result (responded status) = record {
  delivered_at = none;
  error = some ("webhook responded " <> decimal status);
}
delivery_result (delivery_threw e) = record { delivered_at = none; error = some e }

-- No request without a URL.
abbrev pub deliver_to :
    (String → AlertRowData → Delivery) → Option String → AlertRowData → AlertDeliveryResult
deliver_to post none alert = record { delivered_at = none; error = none }
deliver_to post (some url) alert = delivery_result (post url alert)

unfoldable pub deliver_alert :
    (String → AlertRowData → Delivery) → Option String → AlertRowData → AlertDeliveryResult
deliver_alert post webhook_url alert =
    deliver_to post (if truthy webhook_url then webhook_url else none) alert

-- `INSERT INTO alerts`; a failing insert leaves the table as it is, and the alert is returned all the
-- same.
unfoldable pub insert_alert_row : Bool → AlertRowData → List AlertRowData → List AlertRowData
insert_alert_row fails row table = if fails then table else table ++ row ∷ []

abbrev pub alert_severity : Option Materiality → Materiality
alert_severity (some critical) = critical
alert_severity _ = material

module _ (domain_key : String → String) (post : String → AlertRowData → Delivery) where
  abbrev pub undelivered_row : ChangeResponse → String → AlertRowData
  undelivered_row change target_url = record {
    domain = domain_key target_url;
    detected_at = change.detected_at;
    change_id = change.change_id;
    materiality = some (alert_severity (change_materiality change));
    verdict_moved = change.comparison.verdict_moved;
    summary = alert_summary change;
    delivered_at = none;
    delivery_error = none;
  }

  abbrev pub alert_row : Option String → ChangeResponse → String → AlertRowData
  alert_row webhook_url change target_url =
      let row = undelivered_row change target_url in
      let delivery = deliver_alert post webhook_url row in
      record row { delivered_at = delivery.delivered_at; delivery_error = delivery.error }

  unfoldable pub record_alert_and_deliver :
      Bool
      → Option String
      → ChangeResponse
      → String
      → List AlertRowData
      → Option AlertRowData × List AlertRowData
  record_alert_and_deliver insert_fails webhook_url change target_url table =
      let row = alert_row webhook_url change target_url in
      if not (should_alert change)
      then (none, table)
      else (some row, insert_alert_row insert_fails row table)
