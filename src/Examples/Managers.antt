-- ===== src/Examples/Managers.antt =====
-- Runs of pkg/manager/service_recovery_storm.go, pkg/manager/uim_readiness.go and
-- pkg/qmi/uim_slot_diff.go.
use quectel_qmi_go.Common.{
  ◌≡◌, ◌↔◌, ◌+◌, ◌&&◌, ◌||◌, ◌==◌, not, ltb, [], ◌∷◌, true, false, some, none,
}
use quectel_qmi_go.Uim.Readiness.{
  reason_number, build_uim_readiness_with_slot_error, readiness_explained,
}
use quectel_qmi_go.Recovery.Storm.{
  StormDetector, detect_timeout_storm, is_cool, AnotherTimedOut, resets_iff,
}
use quectel_qmi_go.Uim.SlotDiff.{
  zero_slot, Report, diff_slot_status, is_changed, listed, max_len, listed-diff_slot_status,
}

abbrev one_timeout : StormDetector
one_timeout = record { timeout_services = (1, 40_000_000_000) ∷ []; storm_at = 0; resets = 0 }

resets_iff_example : ((detect_timeout_storm 42_000_000_000 2 one_timeout).resets ≡ 0 + 1) ↔ (
    AnotherTimedOut 42_000_000_000 2 one_timeout.timeout_services
    × (is_cool 42_000_000_000 one_timeout ≡ true))
resets_iff_example = resets_iff 42_000_000_000 2 one_timeout

abbrev before : Report
before = record zero_slot { physical_slot_status = 1; iccid = 8 ∷ 9 ∷ [] } ∷ zero_slot ∷ []

abbrev after : Report
after = record zero_slot { physical_slot_status = 1; iccid = 8 ∷ 1 ∷ [] } ∷ []

listed-diff_slot_status_example :
    listed 0 (diff_slot_status before after true).changed_slots
    ≡ ltb 0 (max_len before after) && is_changed before after true 0
listed-diff_slot_status_example = listed-diff_slot_status before after true 0

readiness_explained_example :
    let r =
      build_uim_readiness_with_slot_error 2
        (some (record { card_state = 1; app_state = 7 }))
        after
        (record { iccid = 8 ∷ []; imsi = [] })
        none
        (some false) in
    let n = reason_number r.reason in
    (r.uim_ready ≡ true)
    × ((r.uim_ready ≡ (n == 0 || n == 6))
        × ((r.provisioning_needed ≡ (n == 7))
            × ((r.transport_ready ≡ not (n == 1)) × (r.control_ready ≡ not (n == 1 || n == 2)))))
readiness_explained_example =
    readiness_explained 2 (some (record { card_state = 1; app_state = 7 })) after
      (record { iccid = 8 ∷ []; imsi = [] }) none (some false)
