-- ===== src/Connection/Control.antt =====
-- pkg/manager/manager.go: the calls that users make of the manager, and what the event loop and the
-- timers do.
pub mod Steps
pub mod Ready
pub mod Lost
use quectel_qmi_go.Common.{
  ℕ, ◌+◌, List, [], ◌∷◌, ◌++◌, Bool, true, false, not, ◌&&◌, ◌||◌, if◌then◌else◌, ltb, ◌==◌, length,
  Option, none, some,
}
use quectel_qmi_go.Connection.{
  State, disconnected, connecting, connected, stopping, is_stopping, is_connected, is_connecting,
  is_disconnected, InternalEvent, event_start, event_stop, event_check_full, event_check_targeted,
  event_packet_status_changed, event_serving_system_changed, event_modem_reset, Timer, start_after,
  retry_reset_after, deferred_reset_after, reset_again_after, check_after, Config, Manager,
  event_ch_size, set_state, send_event, send_from_loop, stop_scheduled_timers,
}
use quectel_qmi_go.Connection.Resets.{enqueue_modem_reset_event, deferred_reset, reset_again}
use quectel_qmi_go.Connection.Dial.{DialError, DialWorld, do_connect, do_disconnect}
use quectel_qmi_go.Connection.Status.{
  ConnectionStatus, status_unknown, status_disconnected, status_connected, status_suspended,
  status_authenticating, StatusWorld, do_status_check, schedule_targeted_check, targeted_check_due,
}
use quectel_qmi_go.Connection.Recover.{RecoverWorld, cleanup, handle_modem_reset_event}

-- nil, or the error by where it comes from.
pub data ControlError : Type 0 where
  already_started open_failed core_not_started stopping_now connect_in_progress : ControlError
  dial_error : DialError → ControlError
  wds_not_allocated status_unreadable data_not_stopped still_connected : ControlError

abbrev pub Controlled : Type 0
Controlled = Option ControlError × Manager

-- What openClientAndAllocateServices does: whether it succeeds, and the data services it leaves.
pub record OpenWorld : Type 0 where
  pub open_ok : Bool
  pub opened_v4 : Bool
  pub opened_v6 : Bool

unfoldable pub start_core_context : OpenWorld → Manager → Controlled
unfolding set_state stop_scheduled_timers cleanup
start_core_context w m =
    if m.core_ready || not (is_disconnected m.state)
    then (some already_started, m)
    else (let begun = record m {
      ims_probe_blocked = false;
      state = connecting;
      desired_connection = false;
      wds = w.opened_v4;
      wds_v6 = w.opened_v6;
    } in
        if not w.open_ok then (some open_failed, set_state disconnected (cleanup begun)) else (
          none,
          set_state disconnected (record (stop_scheduled_timers begun) {
            client = true;
            cancelled = false;
            control_ready = true;
            core_ready = true;
          }),
        ))

unfoldable pub start : Config → OpenWorld → Manager → Controlled
unfolding send_event
start cfg w m =
    let (e, m') = start_core_context w m in
    elim e [
      | some e' ↦ (some e', m')
      | none ↦
          if cfg.no_dial
          then (none, m')
          else (none, send_event event_start (record m' { desired_connection = true }))
    ]

-- Stop up to the wait for the loops.
unfoldable pub stop_begins : Manager → Manager
unfolding stop_scheduled_timers
stop_begins m =
    let was_stopping = is_stopping m.state in
    let was_inactive = not m.core_ready && is_disconnected m.state in
    let halted = record (stop_scheduled_timers m) {
      state = stopping;
      desired_connection = false;
      cancelled = true;
    } in
    if not was_stopping && not was_inactive && ltb (length m.event_ch) event_ch_size
    then record halted { event_ch = m.event_ch ++ (event_stop ∷ []) }
    else halted

-- And behind it.
unfoldable pub stop_ends : Manager → Manager
unfolding set_state cleanup
stop_ends m = set_state disconnected (cleanup m)

-- The lift of doConnect's error.
abbrev pub as_control : Option DialError × Manager → Controlled
as_control r = elim (r.0) [ none ↦ (none, r.1) | some e ↦ (some (dial_error e), r.1) ]

-- Connect, once it wants a connection and there is none.
unfoldable pub dial_wanted : Config → DialWorld → Manager → Controlled
dial_wanted cfg w m =
    if is_connecting m.state && (not (m.handle_v4 == 0) || not (m.handle_v6 == 0))
    then (some connect_in_progress, m)
    else as_control (do_connect cfg w m)

unfoldable pub connect : Config → DialWorld → Manager → Controlled
connect cfg w m =
    let wanted = record m { desired_connection = true } in
    if not m.core_ready
    then (some core_not_started, m)
    else if is_stopping m.state
    then (some stopping_now, m)
    else if is_connected m.state
    then (none, wanted)
    else dial_wanted cfg w wanted

unfoldable pub disconnect : Manager → Controlled
disconnect m =
    let unwanted = record m { desired_connection = false } in
    if not m.core_ready
    then (some core_not_started, m)
    else if is_stopping m.state
    then (some stopping_now, m)
    else if (not (m.handle_v4 == 0) || not (m.handle_v6 == 0))
        || (is_connected m.state || is_connecting m.state)
    then (none, do_disconnect unwanted)
    else (none, unwanted)

-- What the modem answers to the reset of an existing connection.
pub record ResetWorld : Type 0 where
  pub wds_created : Bool
  pub status_before : Option ConnectionStatus
  pub stop_ok : Bool
  pub status_after : Option ConnectionStatus

abbrev pub has_data_call : ConnectionStatus → Bool
has_data_call status_connected = true
has_data_call status_suspended = true
has_data_call status_authenticating = true
has_data_call status_unknown = false
has_data_call status_disconnected = false

-- Once the data call is found stopped.
unfoldable pub forget_connection : Manager → Manager
forget_connection m = record m {
  handle_v4 = 0;
  handle_v6 = 0;
  settings = none;
  desired_connection = false;
  state = if is_connected m.state || is_connecting m.state then disconnected else m.state;
}

unfoldable pub verify_stopped : ResetWorld → Manager → (Bool × Option ControlError) × Manager
unfolding forget_connection
verify_stopped w m = elim w.status_after [
  | none ↦ ((false, some status_unreadable), m)
  | some status ↦
      if has_data_call status
      then ((false, some still_connected), m)
      else ((true, none), forget_connection m)
]

unfoldable pub reset_existing_data_connection :
    ResetWorld → Manager → (Bool × Option ControlError) × Manager
unfolding verify_stopped
reset_existing_data_connection w m =
    if not m.core_ready || not m.client
    then ((false, some core_not_started), m)
    else if not m.wds && not w.wds_created
    then ((false, some wds_not_allocated), m)
    else elim w.status_before [
      | none ↦ ((false, some status_unreadable), m)
      | some status ↦
          if not (has_data_call status)
          then ((false, none), m)
          else if not w.stop_ok
          then ((false, some data_not_stopped), m)
          else verify_stopped w m
    ]

-- The time of an event, the draw of the jitter, and the answers to whichever handler runs.
pub record World : Type 0 where
  pub now : ℕ
  pub draw : ℕ
  pub dial : DialWorld
  pub status : StatusWorld
  pub recover : RecoverWorld

unfoldable pub handle_event : Config → World → InternalEvent → Manager → Manager
handle_event cfg w event_start m = (do_connect cfg w.dial m).1
handle_event cfg w event_stop m = do_disconnect m
handle_event cfg w event_check_full m = do_status_check cfg true w.now w.status m
handle_event cfg w event_check_targeted m = do_status_check cfg false w.now w.status m
handle_event cfg w event_packet_status_changed m = schedule_targeted_check cfg m
handle_event cfg w event_serving_system_changed m = schedule_targeted_check cfg m
handle_event cfg w event_modem_reset m = handle_modem_reset_event cfg w.now w.draw w.recover m

-- One round of eventLoop that takes an event, and one that takes the tick.
unfoldable pub loop_takes : Config → World → Manager → Manager
unfolding handle_event
loop_takes cfg w m = elim m.event_ch [
  | [] ↦ m
  | evt ∷ rest ↦
      if m.loop_blocked || m.cancelled
      then m
      else handle_event cfg w evt (record m { event_ch = rest })
]

unfoldable pub loop_ticks : Manager → Manager
unfolding send_from_loop
loop_ticks m = if m.loop_blocked || m.cancelled then m else send_from_loop event_check_full m

-- The function of a timer, which scheduleAfter runs unless m.ctx is done.
unfoldable pub timer_runs : Config → ℕ → Timer → Manager → Manager
unfolding send_event
timer_runs cfg now (start_after d) m = send_event event_start m
timer_runs cfg now (retry_reset_after d) m = enqueue_modem_reset_event cfg now m
timer_runs cfg now (deferred_reset_after d) m = deferred_reset now m
timer_runs cfg now (reset_again_after d) m = reset_again cfg now m
timer_runs cfg now (check_after d) m = targeted_check_due m

unfoldable pub timer_fires : Config → ℕ → Timer → Manager → Manager
unfolding timer_runs
timer_fires cfg now timer m = if m.cancelled then m else timer_runs cfg now timer m
