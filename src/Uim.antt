-- ===== src/Uim.antt =====
-- pkg/qmi/uim_slot_diff.go, pkg/manager/uim_readiness.go: what changed between two reports of the SIM
-- slots, and whether the card is ready.
pub mod SlotDiff
pub mod Readiness
