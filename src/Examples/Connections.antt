-- ===== src/Examples/Connections.antt =====
-- Runs of the connection manager of pkg/manager/manager.go.
use quectel_qmi_go.Common.{
  ℕ, ◌+◌, ◌≤◌, ◌≡◌, refl, List, [], ◌∷◌, true, false, none, some, length, arith,
}
use quectel_qmi_go.Connection.{
  disconnected, connected, start_after, retry_reset_after, recovery_exhausted_event, recovery_spent,
  Config, Manager, set_state, emit_event, call, send_event, stop_scheduled_timers,
}
use quectel_qmi_go.Connection.Resets.{enqueue_modem_reset_event}
use quectel_qmi_go.Connection.Resets.Kept.{is_tracked, enqueued_reset_tracked, first_retry_dropped}
use quectel_qmi_go.Connection.Dial.{
  DialWorld, configure_network, finish_dial, dial_ipv6, dial_ipv4, dial, do_connect,
}
use quectel_qmi_go.Connection.Dial.Outcome.{Settled, do_connect-Settled}
use quectel_qmi_go.Connection.Dial.Retry.{failures, radio_resets, failures_back_off}
use quectel_qmi_go.Connection.Status.{StatusWorld, status_disconnected, do_status_check}
use quectel_qmi_go.Connection.Recover.{
  RecoverWorld, count_failure, get_recover_delay, schedule_recover_retry,
}
use quectel_qmi_go.Connection.Recover.Backoff.{get_recover_delay-bounds}
use quectel_qmi_go.Connection.Recover.Exhaustion.{failed_recoveries, recovery_gives_up}
use quectel_qmi_go.Connection.Control.{
  OpenWorld, World, start_core_context, start, handle_event, loop_takes, timer_fires, stop_begins,
}
use quectel_qmi_go.Connection.Control.Ready.{IsSound}
use quectel_qmi_go.Connection.Control.Steps.{new_manager, Reach, Step, runs-IsSound}
use quectel_qmi_go.Connection.Control.Lost.{Redialled, lost_connection-Redialled}

abbrev cfg : Config
cfg = record {
  auto_reconnect = true;
  no_dial = false;
  enable_ipv4 = true;
  enable_ipv6 = true;
  radio_reset_after = 2;
  max_recover_attempts = 2;
  max_recover_elapsed = 0;
  indication_debounce = 500_000_000;
  ip_consistency_interval = 0;
  modem_reset_dedup_window = 1_000_000_000;
}

abbrev delays : List ℕ
delays = 5 ∷ 10 ∷ []

abbrev opened : OpenWorld
opened = record { open_ok = true; opened_v4 = true; opened_v6 = false }

abbrev dialling : DialWorld
dialling = record {
  allocated_v4 = false;
  allocated_v6 = true;
  topology_ok = true;
  generation = 1;
  needs_binding = false;
  binding_ok = false;
  dial_v4 = some 77;
  dial_v6 = none;
  runtime_v4 = some (record { ipv4_address = 9 });
}

abbrev lost : StatusWorld
lost = record { packet_status = some status_disconnected; runtime_v4 = none }

abbrev reopening : RecoverWorld
reopening = record {
  open_ok = true;
  opened_v4 = true;
  opened_v6 = false;
  device_gone = false;
  coalesced = false;
  interrupted = false;
  coalesced_late = false;
}

abbrev world : World
world = record { now = 100; draw = 3; dial = dialling; status = lost; recover = reopening }

abbrev started : Manager
started = (start cfg opened (new_manager delays)).1

abbrev dialled : Manager
dialled = loop_takes cfg world started

dialled_connected : (dialled.state ≡ connected) × (dialled.handle_v4 ≡ 77)
unfolding start start_core_context loop_takes handle_event do_connect dial dial_ipv4 dial_ipv6
    finish_dial configure_network set_state emit_event call send_event stop_scheduled_timers
dialled_connected = (refl, refl)

runs-IsSound_example : IsSound (stop_begins dialled)
runs-IsSound_example = runs-IsSound cfg delays (stop_begins dialled) (
    Reach.next
      (Reach.next (Reach.next Reach.here (Step.starts opened (new_manager delays)))
        (Step.takes world started))
      (Step.begins_stop dialled))

-- A manager that holds a data call.
abbrev online : Manager
online = record (new_manager delays) {
  state = connected;
  desired_connection = true;
  core_ready = true;
  control_ready = true;
  client = true;
  wds = true;
  handle_v4 = 77;
}

lost_connection-Redialled_example :
    Redialled [] (loop_takes cfg world (do_status_check cfg true 50 lost online))
lost_connection-Redialled_example =
    lost_connection-Redialled cfg true 50 lost world online refl refl refl refl refl refl refl refl
      refl refl

abbrev idle : Manager
idle = record online { state = disconnected; handle_v4 = 0 }

do_connect-Settled_example : Settled cfg dialling idle (do_connect cfg dialling idle)
do_connect-Settled_example = do_connect-Settled cfg dialling idle refl refl (λ e4 et. refl)

failures_back_off_example :
    ((failures 3 cfg idle).timers ≡ start_after 10 ∷ start_after 10 ∷ start_after 5 ∷ [])
    × (radio_resets (failures 3 cfg idle).calls ≡ 1)
failures_back_off_example = failures_back_off cfg idle 3 refl refl refl

abbrev failing : Manager
failing = record idle { recover_count = 7 }

get_recover_delay-bounds_example :
    (12_000_000_000 ≤ get_recover_delay 3 failing) × (get_recover_delay 3 failing ≤ 18_000_000_000)
get_recover_delay-bounds_example = get_recover_delay-bounds 3 failing

abbrev fails : List (ℕ × ℕ)
fails = (10, 0) ∷ (20, 1) ∷ []

recovery_gives_up_example :
    let before = failed_recoveries cfg fails idle in
    let after = schedule_recover_retry cfg 30 2 before in
    ((length before.timers ≡ 2) × (before.emitted ≡ []))
    × ((after.timers ≡ before.timers)
        × ((after.emitted ≡ recovery_exhausted_event recovery_spent ∷ [])
            × (after.recover_count ≡ 0)))
recovery_gives_up_example = recovery_gives_up cfg fails 30 2 idle refl (ground arith) refl refl

enqueued_reset_tracked_example : is_tracked (enqueue_modem_reset_event cfg 5 idle) ≡ true
enqueued_reset_tracked_example = enqueued_reset_tracked cfg 5 idle

abbrev unlimited : Config
unlimited = record cfg { max_recover_attempts = 0 }

abbrev recovering : Manager
recovering = record idle {
  reset = record { recovering = true; pending = false; deferred = false; enqueued_at = 1_000 };
}

abbrev recovered_from : Manager
recovered_from = record idle {
  reset = record { recovering = false; pending = false; deferred = false; enqueued_at = 1_000 };
}

first_retry_dropped_example :
    let delay = get_recover_delay 3 (count_failure 2_000 recovering) in
    ((schedule_recover_retry unlimited 2_000 3 recovering).timers ≡ retry_reset_after delay ∷ [])
    × (timer_fires unlimited (2_000 + delay) (retry_reset_after delay) recovered_from
        ≡ recovered_from)
first_retry_dropped_example =
    first_retry_dropped unlimited recovering recovered_from 2_000 3 refl refl refl refl
      (ground arith) (ground arith) refl
