-- ===== src/Connection/Control/Steps.antt =====
-- pkg/manager/manager.go: the manager as its users, its event loop and its timers drive it, one call or
-- handler after the other.
use quectel_qmi_go.Common.{
  ℕ, ◌≡◌, refl, ◌⊎◌, inl, inr, List, [], ◌∷◌, Bool, true, false, not, ◌&&◌, ◌||◌, ◌==◌, Option,
  none, if_either, elim_either, arith,
}
use quectel_qmi_go.Connection.{
  disconnected, is_connected, is_connecting, is_stopping, is_disconnected, Config, Manager,
  set_state, emit_event, call, schedule_after, send_event, send_from_loop, stop_scheduled_timers,
  Timer, InternalEvent, event_start, event_stop, event_check_full, event_check_targeted,
  event_packet_status_changed, event_serving_system_changed, event_modem_reset, start_after,
  retry_reset_after, deferred_reset_after, reset_again_after, check_after,
}
use quectel_qmi_go.Connection.Resets.{
  enqueue_modem_reset_event, reset_again, begin_recovery, end_recovery,
}
use quectel_qmi_go.Connection.Dial.{DialError, DialWorld, do_connect, do_disconnect}
use quectel_qmi_go.Connection.Status.{schedule_targeted_check, targeted_check_due}
use quectel_qmi_go.Connection.Recover.{
  cleanup, RecoverWorld, reopen_failed, recovered, hear, settle, do_recover_from_modem_reset,
  handle_modem_reset_event, schedule_recover_retry,
}
use quectel_qmi_go.Connection.Control.{
  OpenWorld, start_core_context, start, stop_begins, stop_ends, connect, disconnect, ResetWorld,
  forget_connection, verify_stopped, reset_existing_data_connection, World, handle_event,
  loop_takes, loop_ticks, timer_runs, timer_fires, Controlled, as_control, dial_wanted,
}
use quectel_qmi_go.Connection.Control.Ready.{
  IsSound, do_disconnect-IsSound, enqueue-IsSound, deferred_reset-IsSound, do_connect-IsSound,
  do_status_check-IsSound,
}

-- Sound, but for a recovery that may run.
abbrev IsQuietlySound : Manager → Type 0
IsQuietlySound m =
    (m.core_ready ≡ true → (m.control_ready ≡ true) × (m.client ≡ true))
    × ((not (m.handle_v4 == 0) ≡ true → m.wds ≡ true)
        × (is_disconnected m.state ≡ true → m.handle_v4 ≡ 0))

module _ (cfg : Config) (now draw : ℕ) (w : RecoverWorld) where
  settle-kept :
      (m : Manager)
      → IsQuietlySound m
      → m.control_ready ≡ true
      → m.client ≡ true
      → m.handle_v4 ≡ 0
      → IsQuietlySound (settle cfg now draw w m).1
  unfolding settle recovered hear set_state schedule_after schedule_recover_retry
  settle-kept m v e1 e2 e3 = ground (arith, v, e1, e2, e3)

  reopen_failed-kept :
      (m : Manager)
      → IsQuietlySound m
      → m.handle_v4 ≡ 0
      → IsQuietlySound (reopen_failed cfg now draw w m)
  unfolding reopen_failed set_state emit_event schedule_after schedule_recover_retry
  reopen_failed-kept m v e = ground (arith, v, e)

  recover-kept :
      (m : Manager)
      → IsQuietlySound m
      → IsQuietlySound (do_recover_from_modem_reset cfg now draw w m).1
  unfolding do_recover_from_modem_reset hear cleanup call stop_scheduled_timers
  recover-kept m v =
      let torn : Manager =
        hear w.coalesced
          (record (cleanup (do_disconnect m)) { wds = w.opened_v4; wds_v6 = w.opened_v6 }) in
      let no_call : torn.handle_v4 ≡ 0 = ground arith in
      let not_ready : torn.core_ready ≡ false = ground arith in
      let sound : IsQuietlySound torn = ground (arith, no_call, not_ready) in
      let P : Bool × Manager → Type 0 = λ r. IsQuietlySound r.1 in
      if_either P (is_stopping m.state) (λ e. v)
        (λ e.
          if_either P (not w.open_ok) (λ e1. reopen_failed-kept torn sound no_call)
            (λ e1.
              settle-kept (record torn { client = true; control_ready = true })
                (ground (arith, sound)) refl refl no_call))

  end_recovery-IsSound : (m : Manager) → IsQuietlySound m → IsSound (end_recovery cfg now m)
  unfolding end_recovery
  end_recovery-IsSound m v =
      let done = record m { reset = record (m.reset) { recovering = false; pending = false } } in
      if_either IsSound m.reset.pending
        (λ e. enqueue-IsSound cfg done (v.0, (v.1.0, (v.1.1, refl))) now)
        (λ e. (v.0, (v.1.0, (v.1.1, refl))))

  handle_modem_reset_event-IsSound :
      (m : Manager) → IsSound m → IsSound (handle_modem_reset_event cfg now draw w m)
  unfolding handle_modem_reset_event begin_recovery
  handle_modem_reset_event-IsSound m v =
      if_either IsSound m.reset.recovering (λ e. absurd (ground (arith, v, e)))
        (λ e.
          end_recovery-IsSound (do_recover_from_modem_reset cfg now draw w (begin_recovery m)).1
            (recover-kept (begin_recovery m) (v.0, (v.1.0, v.1.1.0))))

list_cases :
    (es : List InternalEvent)
    → (es ≡ []) ⊎ ((e : InternalEvent) × ((rest : List InternalEvent) × (es ≡ e ∷ rest)))
list_cases [] = inl refl
list_cases (e ∷ rest) = inr (e, (rest, refl))

module _ (cfg : Config) where
  handle_event-IsSound :
      (w : World) (evt : InternalEvent) (m : Manager)
      → IsSound m
      → IsSound (handle_event cfg w evt m)
  unfolding handle_event schedule_targeted_check schedule_after
  handle_event-IsSound w event_start m v = do_connect-IsSound cfg w.dial m v
  handle_event-IsSound w event_stop m v = do_disconnect-IsSound cfg m v
  handle_event-IsSound w event_check_full m v = do_status_check-IsSound cfg w.now w.status true m v
  handle_event-IsSound w event_check_targeted m v =
      do_status_check-IsSound cfg w.now w.status false m v
  handle_event-IsSound w event_packet_status_changed m v = ground (arith, v)
  handle_event-IsSound w event_serving_system_changed m v = ground (arith, v)
  handle_event-IsSound w event_modem_reset m v =
      handle_modem_reset_event-IsSound cfg w.now w.draw w.recover m v

  loop_takes-IsSound : (w : World) (m : Manager) → IsSound m → IsSound (loop_takes cfg w m)
  unfolding loop_takes
  loop_takes-IsSound w m v = elim (list_cases m.event_ch) [
    | inl e ↦ rw (loop_takes, e) v
    | inr (evt, (rest, e)) ↦
        rw (loop_takes, e)
          (if_either IsSound (m.loop_blocked || m.cancelled) (λ e1. v)
            (λ e1. handle_event-IsSound w evt (record m { event_ch = rest }) v))
  ]

  timer_runs-IsSound :
      (now : ℕ) (timer : Timer) (m : Manager) → IsSound m → IsSound (timer_runs cfg now timer m)
  unfolding timer_runs send_event reset_again targeted_check_due
  timer_runs-IsSound now (start_after d) m v = v
  timer_runs-IsSound now (retry_reset_after d) m v = enqueue-IsSound cfg m v now
  timer_runs-IsSound now (deferred_reset_after d) m v = deferred_reset-IsSound cfg m v now
  timer_runs-IsSound now (reset_again_after d) m v =
      enqueue-IsSound cfg
        (record m { reset = record (m.reset) { deferred = false; enqueued_at = 0 } }) v now
  timer_runs-IsSound now (check_after d) m v = ground (arith, v)

  timer_fires-IsSound :
      (now : ℕ) (timer : Timer) (m : Manager) → IsSound m → IsSound (timer_fires cfg now timer m)
  unfolding timer_fires
  timer_fires-IsSound now timer m v =
      if_either IsSound m.cancelled (λ e. v) (λ e. timer_runs-IsSound now timer m v)

  start_core-IsSound :
      (w : OpenWorld) (m : Manager) → IsSound m → IsSound (start_core_context w m).1
  unfolding start_core_context set_state stop_scheduled_timers cleanup call
  start_core-IsSound w m v = ground (arith, v)

  start-IsSound : (w : OpenWorld) (m : Manager) → IsSound m → IsSound (start cfg w m).1
  unfolding start send_event
  start-IsSound w m v =
      let begun = start_core-IsSound w m v in
      let P : Controlled → Type 0 = λ r. IsSound r.1 in
      elim_either P (start_core_context w m).0 (if_either P cfg.no_dial (λ e. begun) (λ e. begun))
        (λ e' e. begun)

  stop_begins-IsSound : (m : Manager) → IsSound m → IsSound (stop_begins m)
  unfolding stop_begins stop_scheduled_timers
  stop_begins-IsSound m v = ground (arith, v)

  stop_ends-IsSound : (m : Manager) → IsSound m → IsSound (stop_ends m)
  unfolding stop_ends set_state cleanup call stop_scheduled_timers
  stop_ends-IsSound m v = ground (arith, v)

  as_control-IsSound : (r : Option DialError × Manager) → IsSound r.1 → IsSound (as_control r).1
  as_control-IsSound r v =
      let P : Controlled → Type 0 = λ c. IsSound c.1 in elim_either P r.0 v (λ e ee. v)

  dial_wanted-IsSound : (w : DialWorld) (m : Manager) → IsSound m → IsSound (dial_wanted cfg w m).1
  unfolding dial_wanted
  dial_wanted-IsSound w m v =
      let P : Controlled → Type 0 = λ r. IsSound r.1 in
      if_either P (is_connecting m.state && (not (m.handle_v4 == 0) || not (m.handle_v6 == 0)))
        (λ e. v) (λ e. as_control-IsSound (do_connect cfg w m) (do_connect-IsSound cfg w m v))

  connect-IsSound : (w : DialWorld) (m : Manager) → IsSound m → IsSound (connect cfg w m).1
  unfolding connect
  connect-IsSound w m v =
      let wanted = record m { desired_connection = true } in
      let P : Controlled → Type 0 = λ r. IsSound r.1 in
      if_either P (not m.core_ready) (λ e. v)
        (λ e.
          if_either P (is_stopping m.state) (λ e1. v)
            (λ e1.
              if_either P (is_connected m.state) (λ e2. v) (λ e2. dial_wanted-IsSound w wanted v)))

  disconnect-IsSound : (m : Manager) → IsSound m → IsSound (disconnect m).1
  unfolding disconnect
  disconnect-IsSound m v =
      let unwanted = record m { desired_connection = false } in
      let P : Controlled → Type 0 = λ r. IsSound r.1 in
      if_either P (not m.core_ready) (λ e. v)
        (λ e.
          if_either P (is_stopping m.state) (λ e1. v)
            (λ e1.
              if_either P
                ((not (m.handle_v4 == 0) || not (m.handle_v6 == 0))
                  || (is_connected m.state || is_connecting m.state))
                (λ e2. do_disconnect-IsSound cfg unwanted v) (λ e2. v)))

  reset_existing-IsSound :
      (w : ResetWorld) (m : Manager) → IsSound m → IsSound (reset_existing_data_connection w m).1
  unfolding reset_existing_data_connection verify_stopped forget_connection
  reset_existing-IsSound w m v = ground (arith, v)

-- One call of a user, one round of the event loop, one timer, one event from elsewhere.
pub data Step (cfg : Config) : Manager → Manager → Type 0 where
  starts : (w : OpenWorld) (m : Manager) → Step cfg m (start cfg w m).1
  starts_core : (w : OpenWorld) (m : Manager) → Step cfg m (start_core_context w m).1
  begins_stop : (m : Manager) → Step cfg m (stop_begins m)
  ends_stop : (m : Manager) → Step cfg m (stop_ends m)
  connects : (w : DialWorld) (m : Manager) → Step cfg m (connect cfg w m).1
  disconnects : (m : Manager) → Step cfg m (disconnect m).1
  resets_data : (w : ResetWorld) (m : Manager) → Step cfg m (reset_existing_data_connection w m).1
  takes : (w : World) (m : Manager) → Step cfg m (loop_takes cfg w m)
  ticks : (m : Manager) → Step cfg m (loop_ticks m)
  fires : (now : ℕ) (timer : Timer) (m : Manager) → Step cfg m (timer_fires cfg now timer m)
  sends : (evt : InternalEvent) (m : Manager) → Step cfg m (send_event evt m)
  reports_reset : (now : ℕ) (m : Manager) → Step cfg m (enqueue_modem_reset_event cfg now m)

-- New, with the delays that the configuration gives.
abbrev pub new_manager : List ℕ → Manager
new_manager delays = record {
  state = disconnected;
  desired_connection = false;
  core_ready = false;
  control_ready = false;
  client = false;
  wds = false;
  wds_v6 = false;
  handle_v4 = 0;
  handle_v6 = 0;
  settings = none;
  connected_generation = 0;
  is_rotating = false;
  ims_probe_blocked = false;
  last_ip_check = 0;
  retry_count = 0;
  retry_delays = delays;
  recover_count = 0;
  recover_first_fail_at = 0;
  reset = record { recovering = false; pending = false; deferred = false; enqueued_at = 0 };
  event_ch = [];
  loop_blocked = false;
  timers = [];
  targeted_check_scheduled = false;
  cancelled = false;
  emitted = [];
  calls = [];
}

pub data Reach (cfg : Config) (delays : List ℕ) : Manager → Type 0 where
  here : Reach cfg delays (new_manager delays)
  next : {m m' : Manager} → Reach cfg delays m → Step cfg m m' → Reach cfg delays m'

Step-IsSound : (cfg : Config) (m m' : Manager) → Step cfg m m' → IsSound m → IsSound m'
unfolding loop_ticks send_from_loop send_event
Step-IsSound cfg m _ (starts w _) v = start-IsSound cfg w m v
Step-IsSound cfg m _ (starts_core w _) v = start_core-IsSound cfg w m v
Step-IsSound cfg m _ (begins_stop _) v = stop_begins-IsSound cfg m v
Step-IsSound cfg m _ (ends_stop _) v = stop_ends-IsSound cfg m v
Step-IsSound cfg m _ (connects w _) v = connect-IsSound cfg w m v
Step-IsSound cfg m _ (disconnects _) v = disconnect-IsSound cfg m v
Step-IsSound cfg m _ (resets_data w _) v = reset_existing-IsSound cfg w m v
Step-IsSound cfg m _ (takes w _) v = loop_takes-IsSound cfg w m v
Step-IsSound cfg m _ (ticks _) v = ground (arith, v)
Step-IsSound cfg m _ (fires now timer _) v = timer_fires-IsSound cfg now timer m v
Step-IsSound cfg m _ (sends evt _) v = v
Step-IsSound cfg m _ (reports_reset now _) v = enqueue-IsSound cfg m v now

-- After any run of calls, events and timers, each taken as a whole: a core that is ready has a client
-- and is ready for control, an IPv4 data call is held only with its service and never by a manager
-- that is disconnected, and no recovery is left marked as running.
pub runs-IsSound : (cfg : Config) (delays : List ℕ) (m : Manager) → Reach cfg delays m → IsSound m
runs-IsSound cfg delays _ here = ground arith
runs-IsSound cfg delays m (next {m = s} r step) =
    Step-IsSound cfg s m step (runs-IsSound cfg delays s r)
