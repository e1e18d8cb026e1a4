-- ===== src/Connection/Status.antt =====
-- pkg/manager/manager.go: doStatusCheck with verifyIPConsistency, and the debounced check that
-- indications ask for.
use quectel_qmi_go.Common.{
  ℕ, ◌-◌, Bool, true, false, not, ◌&&◌, ◌||◌, if◌then◌else◌, ltb, leb, ◌==◌, Option, none, some,
  length, ◌++◌, [], ◌∷◌,
}
use quectel_qmi_go.Connection.{
  disconnected, connected, is_stopping, is_disconnected, is_connected, event_start,
  event_check_targeted, check_after, connected_event, disconnected_event, reconnecting, Config,
  RuntimeSettings, Manager, set_state, emit_event, send_from_loop, schedule_after, event_ch_size,
}
use quectel_qmi_go.Connection.Dial.{configure_network, do_disconnect}

pub data ConnectionStatus : Type 0 where
  status_unknown status_disconnected status_connected : ConnectionStatus
  status_suspended status_authenticating : ConnectionStatus

-- What the modem answers: the packet service status and the IPv4 runtime settings, `none` for an
-- error. The signal and the serving system of a full check are only passed on.
pub record StatusWorld : Type 0 where
  pub packet_status : Option ConnectionStatus
  pub runtime_v4 : Option RuntimeSettings

-- Whether verifyIPConsistency returns nil.
abbrev pub verify_ip_consistency : StatusWorld → Manager → Bool
verify_ip_consistency w m = if not m.wds then true else elim m.settings [
  | none ↦ true
  | some old ↦ elim w.runtime_v4 [ none ↦ false | some new ↦ new.ipv4_address == old.ipv4_address ]
]

-- The reconnect that follows a lost or stale connection; the state is never stopping here.
unfoldable pub redial : Config → Manager → Manager
unfolding emit_event send_from_loop
redial cfg m =
    if cfg.auto_reconnect && m.desired_connection && not (is_stopping m.state)
    then send_from_loop event_start (emit_event reconnecting m)
    else m

unfoldable pub restore_connection : StatusWorld → Manager → Manager
unfolding configure_network set_state emit_event
restore_connection w m =
    emit_event connected_event
      (record (set_state connected (configure_network w.runtime_v4 m)) { retry_count = 0 })

abbrev pub should_verify : Config → Bool → ℕ → Manager → Bool
should_verify cfg full now m =
    full
    || (ltb 0 cfg.ip_consistency_interval
        && leb cfg.ip_consistency_interval (now - m.last_ip_check))

unfoldable pub check_address : Config → Bool → ℕ → StatusWorld → Manager → Manager
unfolding redial do_disconnect
check_address cfg full now w m =
    if should_verify cfg full now m
    then if verify_ip_consistency w m
      then record m { last_ip_check = now }
      else redial cfg (do_disconnect m)
    else m

unfoldable pub lose_connection : Config → Manager → Manager
unfolding redial set_state emit_event
lose_connection cfg m =
    redial cfg (emit_event disconnected_event (set_state disconnected (record m { handle_v4 = 0 })))

-- The switch on the packet service status.
unfoldable pub apply_status : Config → Bool → ℕ → StatusWorld → ConnectionStatus → Manager → Manager
unfolding check_address restore_connection lose_connection
apply_status cfg full now w status_connected m =
    if not (is_connected m.state) then restore_connection w m else check_address cfg full now w m
apply_status cfg full now w status_disconnected m =
    if is_connected m.state then lose_connection cfg m else m
apply_status cfg full now w status_unknown m = m
apply_status cfg full now w status_suspended m = m
apply_status cfg full now w status_authenticating m = m

unfoldable pub do_status_check : Config → Bool → ℕ → StatusWorld → Manager → Manager
unfolding apply_status
do_status_check cfg full now w m =
    if m.is_rotating || (is_stopping m.state || is_disconnected m.state) || not m.client
    then m
    else if not m.wds
    then m
    else elim w.packet_status [ none ↦ m | some status ↦ apply_status cfg full now w status m ]

unfoldable pub schedule_targeted_check : Config → Manager → Manager
unfolding schedule_after
schedule_targeted_check cfg m =
    if m.targeted_check_scheduled
    then m
    else schedule_after (check_after cfg.indication_debounce)
        (record m { targeted_check_scheduled = true })

-- The function of its timer: with a full queue the check is dropped.
unfoldable pub targeted_check_due : Manager → Manager
targeted_check_due m =
    if ltb (length m.event_ch) event_ch_size
    then record m {
      targeted_check_scheduled = false;
      event_ch = m.event_ch ++ (event_check_targeted ∷ []);
    }
    else record m { targeted_check_scheduled = false }
