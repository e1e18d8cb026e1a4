-- ===== src/Recovery.antt =====
-- pkg/manager/service_recovery.go, service_recovery_storm.go and uim_recovery.go: which errors and
-- timeouts of services call for a rebind, or for a recovery of the core.
pub mod Storm
pub mod Errors
pub mod Timeouts
pub mod Services
pub mod Retry
