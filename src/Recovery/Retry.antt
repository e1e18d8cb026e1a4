-- ===== src/Recovery/Retry.antt =====
-- pkg/manager/service_recovery.go, uim_recovery.go, service_recovery_storm.go: with…RecoveryValue, the
-- calls of service operations with one retry behind a rebind, and the recovery of the core that some
-- services ask for when that does not help.
pub mod Calls
pub mod Instances
pub mod Escalation
use quectel_qmi_go.Common.{
  ℕ, ◌-◌, List, [], ◌∷◌, Bool, true, false, not, ◌&&◌, ◌||◌, if◌then◌else◌, ltb, ◌==◌, Option, none,
  some, ◌⊎◌, inl, inr,
}
use quectel_qmi_go.Connection
use quectel_qmi_go.Connection.{is_stopping}
use quectel_qmi_go.Connection.Resets.{enqueue_modem_reset_event}
use quectel_qmi_go.Recovery.Storm.{StormDetector, detect_timeout_storm}
use quectel_qmi_go.Recovery.Errors.{OpError, should_recover_service_error, is_service_timeout_error}
use quectel_qmi_go.Recovery.Timeouts.{
  RecoveryPolicy, Failures, count_timeout, note_service_operation_success,
}
use quectel_qmi_go.Recovery.Services.{
  Service, uim, dms, nas, wms, voice, ims, imsa, service_number, Handle, Bindings, AllocWorld,
  Bound, ensure_service, rebind_service,
}

-- `last_recover_signal` is uimLastRecoverSignal, which all services share. `attempts` is a log of the
-- clients on which the operation is called, newest first.
pub record ServiceManager : Type 0 where
  pub bindings : Bindings
  pub failures : Failures
  pub storm : StormDetector
  pub last_recover_signal : ℕ
  pub connection : Connection.Manager
  pub attempts : List Handle

-- `cooldown` is uimRecoverCooldown, for which 0 stands for the default.
pub record ServiceConfig : Type 0 where
  pub policy : RecoveryPolicy
  pub cooldown : ℕ
  pub connection : Connection.Config

abbrev pub cooldown_of : ServiceConfig → ℕ
cooldown_of cfg = if cfg.cooldown == 0 then 30_000_000_000 else cfg.cooldown

-- Which services ask for a recovery of the core when no client can be had, and which when the retry
-- fails as well.
abbrev pub escalates_unbound : Service → Bool
escalates_unbound uim = true
escalates_unbound nas = true
escalates_unbound s = false

abbrev pub escalates_retry : Service → Bool
escalates_retry uim = true
escalates_retry nas = true
escalates_retry dms = true
escalates_retry s = false

unfoldable pub trigger_core_recovery : ServiceConfig → ℕ → ServiceManager → ServiceManager
trigger_core_recovery cfg now m =
    if not m.connection.core_ready || is_stopping m.connection.state
    then m
    else if not (m.last_recover_signal == 0) && ltb (now - m.last_recover_signal) (cooldown_of cfg)
    then m
    else record m {
      last_recover_signal = now;
      connection = enqueue_modem_reset_event cfg.connection now m.connection;
    }

-- RequestCoreRecovery, for callers outside the manager: no cooldown applies.
unfoldable pub request_core_recovery : ServiceConfig → ℕ → ServiceManager → Bool × ServiceManager
request_core_recovery cfg now m =
    if not m.connection.core_ready || is_stopping m.connection.state
    then (false, m)
    else (true, record m { connection = enqueue_modem_reset_event cfg.connection now m.connection })

-- detectTimeoutStorm in the manager: its call of enqueueModemResetEvent is the one that it counts.
unfoldable pub storm_checked : ServiceConfig → ℕ → Service → ServiceManager → ServiceManager
storm_checked cfg now s m =
    let storm = detect_timeout_storm now (service_number s) m.storm in
    record m {
      storm = storm;
      connection =
          if storm.resets == m.storm.resets
          then m.connection
          else enqueue_modem_reset_event cfg.connection now m.connection;
    }

unfoldable pub record_service_timeout_failure :
    ServiceConfig → ℕ → Service → ℕ → ServiceManager → Bool × ServiceManager
record_service_timeout_failure cfg now s op m =
    if cfg.policy.disable_service_timeout_recovery
    then (false, m)
    else (let (reached, failures) =
          count_timeout cfg.policy now (service_number s, op) m.failures in
        (reached, storm_checked cfg now s (record m { failures = failures })))

unfoldable pub should_recover :
    ServiceConfig → ℕ → Service → ℕ → OpError → ServiceManager → Bool × ServiceManager
should_recover cfg now s op e m =
    if should_recover_service_error (service_number s) e
    then (true, m)
    else if not (is_service_timeout_error e)
    then (false, m)
    else record_service_timeout_failure cfg now s op m

-- The error of the operation, or that of a rebind with it.
pub data RecoveryError : Type 0 where
  operation_failed : OpError → RecoveryError
  rebind_failed : OpError → OpError → RecoveryError

-- The times of the two calls' ends, and what happens while each client is allocated and while the
-- first call runs.
pub record RetryWorld : Type 0 where
  pub first_at : ℕ
  pub retried_at : ℕ
  pub ensuring : AllocWorld
  pub rebinding : AllocWorld
  pub during_call : Bindings → Bindings

abbrev pub escalate : ServiceConfig → Bool → ℕ → ServiceManager → ServiceManager
escalate cfg wanted now m = if wanted then trigger_core_recovery cfg now m else m

unfoldable pub attempt : Handle → ServiceManager → ServiceManager
attempt h m = record m { attempts = h ∷ m.attempts }

unfoldable pub succeeded : Service → ℕ → ServiceManager → ServiceManager
succeeded s op m = record m {
  failures = note_service_operation_success (service_number s, op) m.failures;
}

-- `fn` is the operation, by the number of its call. `zero` is the zero value of its results.
module _ {ℓ} {A : Type ℓ} (zero : A) (has : ℕ → Service → Bool) (cfg : ServiceConfig) (s : Service)
    (op : ℕ) (fn : ℕ → Handle → A × Option OpError) where
  abbrev pub Recovered : Type ℓ
  Recovered = (A × Option RecoveryError) × ServiceManager

  unfoldable pub retry : RetryWorld → Handle → ServiceManager → Recovered
  retry w h m =
      let (x, err) = fn 1 h in
      elim err [
        | none ↦ ((x, none), succeeded s op (attempt h m))
        | some e ↦
            let (again, m') = should_recover cfg w.retried_at s op e (attempt h m) in
            (
              (x, some (operation_failed e)),
              escalate cfg (again && escalates_retry s) w.retried_at m',
            )
      ]

  unfoldable pub rebind_and_retry : RetryWorld → OpError → ServiceManager → Recovered
  rebind_and_retry w initial m =
      let (got, b) = rebind_service has w.rebinding s m.bindings in
      let m' = record m { bindings = b } in
      elim got [
        | inl e ↦ (
          (zero, some (rebind_failed e initial)),
          escalate cfg (escalates_unbound s) w.first_at m',
        )
        | inr h ↦ retry w h m'
      ]

  unfoldable pub first_call : RetryWorld → Handle → ServiceManager → Recovered
  first_call w h m =
      let (x, err) = fn 0 h in
      let m0 = attempt h m in
      let called = record m0 { bindings = w.during_call m.bindings } in
      elim err [
        | none ↦ ((x, none), succeeded s op called)
        | some e ↦
            let (again, m') = should_recover cfg w.first_at s op e called in
            if again then rebind_and_retry w e m' else ((x, some (operation_failed e)), m')
      ]

  unfoldable pub with_recovery : RetryWorld → ServiceManager → Recovered
  with_recovery w m =
      let (got, b) = ensure_service has w.ensuring s m.bindings in
      let m' = record m { bindings = b } in
      elim got [
        | inl e ↦
            let (again, m'') = should_recover cfg w.first_at s op e m' in
            (
              (zero, some (operation_failed e)),
              escalate cfg (again && escalates_unbound s) w.first_at m'',
            )
        | inr h ↦ first_call w h m'
      ]
