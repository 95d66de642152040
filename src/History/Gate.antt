-- ===== src/History/Gate.antt =====
-- The version gate and the record-level materiality of src/history.ts.
use agent_commerce_lab.Prelude.{
  Bool, true, ◌&&◌, ◌||◌, some, ◌≡◌, ◌↔◌, refl, sym, Bool-cases, inl, inr, arith,
}
use agent_commerce_lab.Prelude.Text.{str_eq}
use agent_commerce_lab.History.Types.{
  critical, CompareResult, SecuritySnapshot, SnapshotVersionMeta,
}
use agent_commerce_lab.History.Content.{diff_snapshots}
use agent_commerce_lab.History.Compare.{has_critical, compute_change, record_materiality}
use agent_commerce_lab.History.Alarm.{transport_alarm, content_alarm, diff-has_critical}

abbrev pub same_versions : SnapshotVersionMeta → SnapshotVersionMeta → Bool
same_versions prior current =
    str_eq prior.scoring_version current.scoring_version
    && str_eq prior.scanner_version current.scanner_version

comparable_critical :
    (r : CompareResult)
    → (record_materiality r ≡ some critical
        ↔ (r.comparable && has_critical r.changed_fields) ≡ true)
unfolding record_materiality
comparable_critical r = ground arith

critical_fields :
    (prior : SnapshotVersionMeta) (ps : SecuritySnapshot) (current : SnapshotVersionMeta)
    (cs : SecuritySnapshot)
    → ((compute_change prior ps current cs).comparable
        && has_critical (compute_change prior ps current cs).changed_fields)
      ≡ (same_versions prior current && has_critical (diff_snapshots ps cs))
unfolding compute_change
critical_fields prior ps current cs =
    elim (Bool-cases (str_eq prior.scoring_version current.scoring_version)) [
      | inr other ↦ rw other refl
      | inl same ↦
          rw same (elim (Bool-cases (str_eq prior.scanner_version current.scanner_version)) [
            | inr other ↦ rw other refl
            | inl same ↦ rw same refl
          ])
    ]

-- A change is recorded as critical exactly when the versions agree and one of these holds: HTTPS is
-- lost, the verdict falls from PASS to FAIL, the cipher becomes weak, or with content on both sides a
-- money or deadline fact appears, goes away or changes its claims, or a critical finding is new.
pub critical_change_iff :
    (prior : SnapshotVersionMeta) (ps : SecuritySnapshot) (current : SnapshotVersionMeta)
    (cs : SecuritySnapshot)
    → (record_materiality (compute_change prior ps current cs) ≡ some critical
        ↔ (same_versions prior current
            && (transport_alarm ps cs || content_alarm ps.content cs.content))
          ≡ true)
critical_change_iff prior ps current cs = rw (sym (diff-has_critical ps cs)) (
    rw (sym (critical_fields prior ps current cs))
      (comparable_critical (compute_change prior ps current cs)))
