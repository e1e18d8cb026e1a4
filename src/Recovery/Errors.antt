-- ===== src/Recovery/Errors.antt =====
-- pkg/manager/service_recovery.go: which errors of a service operation call for a rebind.
use quectel_qmi_go.Common.{ℕ, Bool, false, not, ◌&&◌, ◌||◌, ◌==◌, Option, none, some}

-- A QMI error in the chain of an error.
pub record QmiError : Type 0 where
  pub service : ℕ
  pub message_id : ℕ
  pub error_code : ℕ

-- What the tests read of an error and of those it wraps: the service that a ServiceNotReadyError
-- names, the QMI error, whether context.Canceled, context.DeadlineExceeded or a TimeoutError is among
-- them, and whether the text has one of the phrases that shouldRecoverServiceError looks for. Wrapping
-- an error, as the allocation of a client does, changes none of these.
pub record OpError : Type 0 where
  pub not_ready : Option ℕ
  pub qmi_error : Option QmiError
  pub canceled : Bool
  pub deadline_exceeded : Bool
  pub timed_out : Bool
  pub names_unavailable : Bool

-- ErrServiceNotReady; the phrase in its text says no more than the service that it names.
abbrev pub err_service_not_ready : ℕ → OpError
err_service_not_ready service = record {
  not_ready = some service;
  qmi_error = none;
  canceled = false;
  deadline_exceeded = false;
  timed_out = false;
  names_unavailable = false;
}

abbrev pub err_service_not_supported : OpError
err_service_not_supported = record {
  not_ready = none;
  qmi_error = none;
  canceled = false;
  deadline_exceeded = false;
  timed_out = false;
  names_unavailable = false;
}

-- QMIErrInvalidID, QMIErrDeviceNotReady, QMIErrClientIDsExhausted, or a failed CTLGetClientID.
abbrev pub is_recoverable : QmiError → Bool
is_recoverable e =
    (e.error_code == 0x29 || (e.error_code == 0x05 || e.error_code == 0x1f))
    || (e.service == 0 && e.message_id == 0x22)

unfoldable pub should_recover_service_error : ℕ → OpError → Bool
should_recover_service_error service e =
    elim e.not_ready [ none ↦ false | some s ↦ s == service ]
    || (elim e.qmi_error [ none ↦ false | some qe ↦ is_recoverable qe ] || e.names_unavailable)

unfoldable pub is_service_timeout_error : OpError → Bool
is_service_timeout_error e = not e.canceled && (e.deadline_exceeded || e.timed_out)
