-- ===== src/Recovery/Timeouts.antt =====
-- pkg/manager/service_recovery.go: the timeouts of the operations of services, counted in windows.
pub mod Counting
use quectel_qmi_go.Common.{
  ℕ, ◌+◌, ◌-◌, List, Bool, true, false, not, ◌&&◌, ◌||◌, if◌then◌else◌, ltb, leb, ◌==◌, Option,
  none, some, insert, delete, lookup, pair_discrete, ℕ_discrete,
}

-- A service and an operation of it, both numbered; the empty name of an operation is that of "*".
abbrev pub ServiceTimeoutKey : Type 0
ServiceTimeoutKey = ℕ × ℕ

abbrev pub key_discrete : Discrete ServiceTimeoutKey
key_discrete = pair_discrete ℕ_discrete ℕ_discrete

pub record ServiceTimeoutWindow : Type 0 where
  pub first : ℕ
  pub count : ℕ

-- The part of RecoveryPolicy that is read here.
pub record RecoveryPolicy : Type 0 where
  pub disable_service_timeout_recovery : Bool
  pub service_timeout_threshold : ℕ
  pub service_timeout_window : ℕ

abbrev pub Failures : Type 0
Failures = List (ServiceTimeoutKey × ServiceTimeoutWindow)

-- 5, where the configuration has no threshold.
abbrev pub threshold_of : RecoveryPolicy → ℕ
threshold_of p = if p.service_timeout_threshold == 0 then 5 else p.service_timeout_threshold

-- Ten minutes, where the configuration has no window.
abbrev pub window_of : RecoveryPolicy → ℕ
window_of p = if p.service_timeout_window == 0 then 600_000_000_000 else p.service_timeout_window

-- m.serviceTimeoutFailures[key], the zero window for none.
abbrev pub window_at : Failures → ServiceTimeoutKey → ServiceTimeoutWindow
window_at fs key = elim (lookup key_discrete fs key) [
  | none ↦ record { first = 0; count = 0 }
  | some w ↦ w
]

unfoldable pub next_window : RecoveryPolicy → ℕ → ServiceTimeoutWindow → ServiceTimeoutWindow
next_window p now w =
    if w.first == 0 || ltb (window_of p) (now - w.first)
    then record { first = now; count = 1 }
    else record w { count = w.count + 1 }

-- Up to the call of detectTimeoutStorm, with what the end returns.
unfoldable pub count_timeout : RecoveryPolicy → ℕ → ServiceTimeoutKey → Failures → Bool × Failures
unfolding next_window
count_timeout p now key fs =
    let w = next_window p now (window_at fs key) in
    (leb (threshold_of p) w.count, insert key_discrete fs key w)

unfoldable pub note_service_operation_success : ServiceTimeoutKey → Failures → Failures
note_service_operation_success key fs = delete key_discrete fs key
