-- ===== src/Connection.antt =====
-- pkg/manager/manager.go: the state of the connection manager, its queue of internal events and its
-- timers. Durations and times are nanoseconds of one clock, and 0 is the zero time. A service pointer
-- shows as whether it is not nil.
pub mod Resets
pub mod Dial
pub mod Status
pub mod Recover
pub mod Control
pub mod Reconfigure
use quectel_qmi_go.Common.{
  ℕ, ◌+◌, List, [], ◌∷◌, ◌++◌, Bool, true, false, if◌then◌else◌, ltb, length, Option,
}

pub data State : Type 0 where
  disconnected connecting connected stopping : State

pub data InternalEvent : Type 0 where
  event_start event_stop event_check_full event_check_targeted : InternalEvent
  event_packet_status_changed event_serving_system_changed event_modem_reset : InternalEvent

abbrev pub is_stopping : State → Bool
is_stopping stopping = true
is_stopping s = false

abbrev pub is_connected : State → Bool
is_connected connected = true
is_connected s = false

abbrev pub is_connecting : State → Bool
is_connecting connecting = true
is_connecting s = false

abbrev pub is_disconnected : State → Bool
is_disconnected disconnected = true
is_disconnected s = false

-- What scheduleAfter holds: the delay, and the function by what it does.
pub data Timer : Type 0 where
  start_after : ℕ → Timer
  retry_reset_after : ℕ → Timer
  deferred_reset_after : ℕ → Timer
  reset_again_after : ℕ → Timer
  check_after : ℕ → Timer

pub data Reason : Type 0 where
  device_removed recovery_spent : Reason

-- The events given to the callbacks that concern the connection.
pub data Emitted : Type 0 where
  connected_event disconnected_event dial_failed reconnecting ip_changed : Emitted
  recovery_exhausted_event : Reason → Emitted

-- What is asked of the modem about data calls.
pub data Call : Type 0 where
  stop_any : Call
  start_v4 start_v6 : Call
  stop_v4 stop_v6 : ℕ → Call
  radio_reset : Call

-- The part of Config that the functions here read.
pub record Config : Type 0 where
  pub auto_reconnect : Bool
  pub no_dial : Bool
  pub enable_ipv4 : Bool
  pub enable_ipv6 : Bool
  pub radio_reset_after : ℕ
  pub max_recover_attempts : ℕ
  pub max_recover_elapsed : ℕ
  pub indication_debounce : ℕ
  pub ip_consistency_interval : ℕ
  pub modem_reset_dedup_window : ℕ

-- m.settings: only its IPv4 address is read, 0 for a nil one.
pub record RuntimeSettings : Type 0 where
  pub ipv4_address : ℕ

-- The fields under modemResetMu.
pub record ResetState : Type 0 where
  pub recovering : Bool
  pub pending : Bool
  pub deferred : Bool
  pub enqueued_at : ℕ

-- `cancelled` is m.ctx after Stop. `loop_blocked` says that the event loop, which alone receives from
-- eventCh, waits in a send to it. `emitted` and `calls` are logs, newest last.
pub record Manager : Type 0 where
  pub state : State
  pub desired_connection : Bool
  pub core_ready : Bool
  pub control_ready : Bool
  pub client : Bool
  pub wds : Bool
  pub wds_v6 : Bool
  pub handle_v4 : ℕ
  pub handle_v6 : ℕ
  pub settings : Option RuntimeSettings
  pub connected_generation : ℕ
  pub is_rotating : Bool
  pub ims_probe_blocked : Bool
  pub last_ip_check : ℕ
  pub retry_count : ℕ
  pub retry_delays : List ℕ
  pub recover_count : ℕ
  pub recover_first_fail_at : ℕ
  pub reset : ResetState
  pub event_ch : List InternalEvent
  pub loop_blocked : Bool
  pub timers : List Timer
  pub targeted_check_scheduled : Bool
  pub cancelled : Bool
  pub emitted : List Emitted
  pub calls : List Call

-- make(chan internalEvent, 16)
abbrev pub event_ch_size : ℕ
event_ch_size = 16

unfoldable pub set_state : State → Manager → Manager
set_state s m = record m { state = s }

unfoldable pub emit_event : Emitted → Manager → Manager
emit_event e m = record m { emitted = m.emitted ++ (e ∷ []) }

unfoldable pub call : Call → Manager → Manager
call c m = record m { calls = m.calls ++ (c ∷ []) }

-- m.eventCh <- evt from another goroutine than the event loop: a sender that waits for room stands
-- behind the queue.
unfoldable pub send_event : InternalEvent → Manager → Manager
send_event evt m = record m { event_ch = m.event_ch ++ (evt ∷ []) }

-- The same send in the event loop itself: if there is no room, nobody ever makes any.
unfoldable pub send_from_loop : InternalEvent → Manager → Manager
send_from_loop evt m =
    if ltb (length m.event_ch) event_ch_size
    then record m { event_ch = m.event_ch ++ (evt ∷ []) }
    else record m { loop_blocked = true }

unfoldable pub schedule_after : Timer → Manager → Manager
schedule_after timer m = record m { timers = timer ∷ m.timers }

unfoldable pub stop_scheduled_timers : Manager → Manager
stop_scheduled_timers m = record m { timers = []; targeted_check_scheduled = false }
