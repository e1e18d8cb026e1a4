-- ===== src/Recovery/Retry/Escalation.antt =====
-- pkg/manager/service_recovery.go, triggerCoreRecoveryFromService: what becomes of a service that keeps
-- failing.
use quectel_qmi_go.Common.{
  ℕ, ◌-◌, ◌<◌, ◌≡◌, ◌≢◌, refl, Bool, true, false, not, ◌&&◌, ◌||◌, ltb, ◌==◌, Option, none, some,
  length, inr, if_either, option_either, sum_either, arith,
}
use quectel_qmi_go.Connection.{event_ch_size, is_stopping, Manager}
use quectel_qmi_go.Connection.Resets.{is_duplicate}
use quectel_qmi_go.Connection.Resets.Kept.{has_deferred, is_tracked, enqueued_reset_tracked}
use quectel_qmi_go.Recovery.Errors.{OpError, should_recover_service_error}
use quectel_qmi_go.Recovery.Services.{
  Service, service_number, Handle, Bindings, ensure_service, rebind_service,
}
use quectel_qmi_go.Recovery.Retry.{
  ServiceManager, ServiceConfig, RetryWorld, cooldown_of, escalates_unbound, escalates_retry,
  trigger_core_recovery, should_recover, escalate, attempt, retry, rebind_and_retry, first_call,
  with_recovery, Recovered,
}

-- A reset that is reported now is kept: the queue has room, or no deferred enqueue is marked, or the
-- marked one has its timer.
abbrev pub keeps_reset : Manager → Bool
keeps_reset m =
    ltb (length m.event_ch) event_ch_size || (not m.reset.deferred || has_deferred m.timers)

-- A recovery that is asked for at this time is taken: the core is ready and not stopping, the cooldown
-- of the last one is over, and the reset is kept and no repetition within the deduplication window.
abbrev pub IsAskable : ServiceConfig → ℕ → ServiceManager → Type 0
IsAskable cfg now m =
    (m.connection.core_ready ≡ true)
    × ((is_stopping m.connection.state ≡ false)
        × (((not (m.last_recover_signal == 0)
                && ltb (now - m.last_recover_signal) (cooldown_of cfg))
              ≡ false)
            × ((keeps_reset m.connection ≡ true)
                × (is_duplicate cfg.connection now m.connection.reset ≡ false))))

trigger-tracked :
    (cfg : ServiceConfig) (now : ℕ) (m : ServiceManager)
    → IsAskable cfg now m
    → is_tracked (trigger_core_recovery cfg now m).connection ≡ true
unfolding trigger_core_recovery
trigger-tracked cfg now m v =
    let P : ServiceManager → Type 0 = λ x. is_tracked x.connection ≡ true in
    if_either P (not m.connection.core_ready || is_stopping m.connection.state)
      (λ e. absurd (ground (arith, v.0, v.1.0, e)))
      (λ e.
        if_either P
          (not (m.last_recover_signal == 0) && ltb (now - m.last_recover_signal) (cooldown_of cfg))
          (λ e1. absurd (ground (arith, v.1.1.0, e1)))
          (λ e1.
            ground (
              arith,
              enqueued_reset_tracked cfg.connection now m.connection,
              v.1.1.1.0,
              v.1.1.1.1,
            )))

bound_ensured :
    (has : ℕ → Service → Bool) (w : RetryWorld) (h : Handle) (b : Bindings) (s : Service)
    → b.bound s ≡ some h
    → ensure_service has w.ensuring s b ≡ (inr h, b)
unfolding ensure_service
bound_ensured has w h b s hb = rw (ensure_service, hb) refl

module _ (cfg : ServiceConfig) (now : ℕ) (s : Service) (op : ℕ) (e : OpError) (m : ServiceManager)
    (he : should_recover_service_error (service_number s) e ≡ true) where
  should_recover-sure : should_recover cfg now s op e m ≡ (true, m)
  unfolding should_recover
  should_recover-sure = rw (should_recover, he) refl

  escalated-tracked :
      (b : Bool)
      → b ≡ true
      → IsAskable cfg now m
      → is_tracked
          (escalate cfg
            ((should_recover cfg now s op e m).0 && b)
            now
            (should_recover cfg now s op e m).1).connection
        ≡ true
  escalated-tracked b hb v = rw (should_recover-sure, hb) (trigger-tracked cfg now m v)

module _ {ℓ} {A : Type ℓ} (zero : A) (has : ℕ → Service → Bool) (cfg : ServiceConfig) (s : Service)
    (op : ℕ) (fn : ℕ → Handle → A × Option OpError)
    (fails : (n : ℕ) (h : Handle) → (fn n h).1 ≢ none)
    (recoverable : (n : ℕ) (h : Handle) (e : OpError)
      → (fn n h).1 ≡ some e
      → should_recover_service_error (service_number s) e ≡ true)
    (escalates : (escalates_unbound s && escalates_retry s) ≡ true) where
  abbrev Tracked : Recovered zero has cfg s op fn → Type 0
  Tracked r = is_tracked r.1.connection ≡ true

  retry-Tracked :
      (w : RetryWorld) (h : Handle) (m : ServiceManager)
      → IsAskable cfg w.retried_at m
      → Tracked (retry zero has cfg s op fn w h m)
  unfolding retry attempt
  retry-Tracked w h m v =
      option_either Tracked (fn 1 h).1 (λ e. absurd (fails 1 h e))
        (λ e ee.
          escalated-tracked cfg w.retried_at s op e (attempt h m) (recoverable 1 h e ee)
            (escalates_retry s) (ground (arith, escalates)) v)

  rebound-Tracked :
      (w : RetryWorld) (initial : OpError) (m : ServiceManager)
      → IsAskable cfg w.first_at m
      → IsAskable cfg w.retried_at m
      → Tracked (rebind_and_retry zero has cfg s op fn w initial m)
  unfolding rebind_and_retry
  rebound-Tracked w initial m v v' =
      let got = rebind_service has w.rebinding s m.bindings in
      sum_either Tracked got.0
        (λ e _.
          let unbound : escalates_unbound s ≡ true = ground (arith, escalates) in
          rw unbound (trigger-tracked cfg w.first_at (record m { bindings = got.1 }) v))
        (λ h _. retry-Tracked w h (record m { bindings = got.1 }) v')

  first_call-Tracked :
      (w : RetryWorld) (h : Handle) (m : ServiceManager)
      → IsAskable cfg w.first_at m
      → IsAskable cfg w.retried_at m
      → Tracked (first_call zero has cfg s op fn w h m)
  unfolding first_call attempt
  first_call-Tracked w h m v v' =
      let called = record (attempt h m) { bindings = w.during_call m.bindings } in
      option_either Tracked (fn 0 h).1 (λ e. absurd (fails 0 h e))
        (λ e ee.
          rw (should_recover-sure cfg w.first_at s op e called (recoverable 0 h e ee))
            (rebound-Tracked w e called v v'))

  -- An operation of a service that escalates both a failed rebind and a failed retry, as the card and
  -- the network access services do, always fails, with errors that call for a rebind, and its client
  -- is bound. At the times of the first call and of the retry the core is ready and not stopping, the
  -- cooldown of the last recovery is over, a reset is no repetition within the deduplication window,
  -- and the queue has room or no deferred enqueue is marked without its timer. However the rebind ends,
  -- a reset of the modem is then queued, deferred or pending.
  pub stalled_service-Tracked :
      (w : RetryWorld) (h : Handle) (m : ServiceManager)
      → m.bindings.bound s ≡ some h
      → IsAskable cfg w.first_at m
      → IsAskable cfg w.retried_at m
      → is_tracked (with_recovery zero has cfg s op fn w m).1.connection ≡ true
  unfolding with_recovery
  stalled_service-Tracked w h m hb v v' =
      let got = ensure_service has w.ensuring s m.bindings in
      sum_either Tracked got.0
        (λ e ee. absurd (ground (arith, ee, bound_ensured has w h m.bindings s hb)))
        (λ h' _. first_call-Tracked w h' (record m { bindings = got.1 }) v v')

asked :
    (cfg : ServiceConfig) (now : ℕ) (m : ServiceManager)
    → IsAskable cfg now m
    → (trigger_core_recovery cfg now m).last_recover_signal ≡ now
unfolding trigger_core_recovery
asked cfg now m v =
    let P : ServiceManager → Type 0 = λ x. x.last_recover_signal ≡ now in
    if_either P (not m.connection.core_ready || is_stopping m.connection.state)
      (λ e. absurd (ground (arith, v.0, v.1.0, e)))
      (λ e.
        if_either P
          (not (m.last_recover_signal == 0) && ltb (now - m.last_recover_signal) (cooldown_of cfg))
          (λ e1. absurd (ground (arith, v.1.1.0, e1))) (λ e1. refl))

-- Once a service has asked for a recovery, no service gets another before the cooldown is over: asking
-- again changes nothing.
pub recovery_throttled :
    (cfg : ServiceConfig) (now later : ℕ) (m : ServiceManager)
    → IsAskable cfg now m
    → 0 < now
    → later - now < cooldown_of cfg
    → trigger_core_recovery cfg later (trigger_core_recovery cfg now m)
      ≡ trigger_core_recovery cfg now m
unfolding trigger_core_recovery
recovery_throttled cfg now later m v h0 hl =
    let m' = trigger_core_recovery cfg now m in
    let P : ServiceManager → Type 0 = λ x. x ≡ m' in
    if_either P (not m'.connection.core_ready || is_stopping m'.connection.state) (λ e. refl)
      (λ e.
        if_either P
          (not (m'.last_recover_signal == 0)
            && ltb (later - m'.last_recover_signal) (cooldown_of cfg))
          (λ e1. refl) (λ e1. absurd (ground (arith, asked cfg now m v, h0, hl, e1))))
