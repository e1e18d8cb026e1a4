-- ===== src/Connection/Dial.antt =====
-- pkg/manager/manager.go: doConnect, configureNetwork, doDisconnect, and what follows a failed dial.
pub mod Retry
pub mod Outcome
use quectel_qmi_go.Common.{
  ℕ, ◌+◌, ◌-◌, List, [], ◌∷◌, ◌++◌, Bool, true, false, not, ◌&&◌, ◌||◌, if◌then◌else◌, ltb, ◌==◌,
  length, get_or, Option, none, some,
}
use quectel_qmi_go.Connection.{
  State, disconnected, connecting, connected, stopping, is_stopping, is_connected, is_connecting,
  start_after, connected_event, disconnected_event, dial_failed, reconnecting, stop_any, start_v4,
  start_v6, stop_v4, stop_v6, radio_reset, Config, RuntimeSettings, Manager, set_state, emit_event,
  call, schedule_after,
}

-- nil, or the error by where it comes from. `nil_service` is no Go error: a method of a nil service.
pub data DialError : Type 0 where
  in_progress topology_failed wds_missing binding_failed v4_failed nil_service : DialError

-- What the host and the modem answer to one dial. `allocated_v4` and `allocated_v6` say whether
-- EnsureDataPlaneTopology allocated that service, `needs_binding` that the topology is QMAP with a
-- default mux. The binding of the services is only logged, and so are the
-- signal and the registration that doConnect asks for; that these two queries may rebind the network
-- access service and report a modem reset is no part of the dial here, but a step of its own, as in
-- Recovery/Retry.
pub record DialWorld : Type 0 where
  pub allocated_v4 : Bool
  pub allocated_v6 : Bool
  pub topology_ok : Bool
  pub generation : ℕ
  pub needs_binding : Bool
  pub binding_ok : Bool
  pub dial_v4 : Option ℕ
  pub dial_v6 : Option ℕ
  pub runtime_v4 : Option RuntimeSettings

-- The last delay once the list is used up; of an empty list, which normalizeConfig excludes, 0.
abbrev pub get_retry_delay : Manager → ℕ
get_retry_delay m =
    if ltb m.retry_count (length m.retry_delays)
    then get_or m.retry_delays m.retry_count 0
    else get_or m.retry_delays (length m.retry_delays - 1) 0

-- RadioReset runs in a goroutine of its own; that it is started is logged with the calls.
unfoldable pub handle_dial_failure : Config → Manager → Manager
unfolding set_state emit_event call schedule_after
handle_dial_failure cfg m =
    let failed = emit_event dial_failed (set_state disconnected m) in
    if not cfg.auto_reconnect || not m.desired_connection
    then failed
    else (let counted = record failed { retry_count = m.retry_count + 1 } in
        let radio =
          if m.retry_count + 1 == cfg.radio_reset_after
          then call radio_reset counted
          else counted in
        schedule_after (start_after (get_retry_delay m)) (emit_event reconnecting radio))

-- Of configureNetwork the settings stay; the addresses, routes and DNS servers are the host's, and
-- it never fails.
unfoldable pub configure_network : Option RuntimeSettings → Manager → Manager
configure_network runtime_v4 m = elim runtime_v4 [
  | none ↦ m
  | some s ↦ if m.wds then record m { settings = some s } else m
]

-- The end of doConnect.
unfoldable pub finish_dial : DialWorld → Manager → Option DialError × Manager
unfolding configure_network set_state emit_event
finish_dial w m = (
  none,
  emit_event connected_event (record (set_state connected (configure_network w.runtime_v4 m)) {
    connected_generation = w.generation;
    retry_count = 0;
  }),
)

unfoldable pub dial_ipv6 : Config → DialWorld → Manager → Option DialError × Manager
unfolding finish_dial call
dial_ipv6 cfg w m =
    if cfg.enable_ipv6 && m.wds_v6
    then elim w.dial_v6 [
      | none ↦ finish_dial w (call start_v6 m)
      | some handle ↦ finish_dial w (record (call start_v6 m) { handle_v6 = handle })
    ]
    else finish_dial w m

abbrev pub fail : DialError → Config → Manager → Option DialError × Manager
fail e cfg m = (some e, handle_dial_failure cfg m)

unfoldable pub dial_ipv4 : Config → DialWorld → Manager → Option DialError × Manager
unfolding dial_ipv6 call
dial_ipv4 cfg w m =
    if cfg.enable_ipv4
    then if not m.wds then (some nil_service, m) else elim w.dial_v4 [
      | none ↦ fail v4_failed cfg (call start_v4 (call stop_any m))
      | some handle ↦
          dial_ipv6 cfg w (record (call start_v4 (call stop_any m)) { handle_v4 = handle })
    ]
    else dial_ipv6 cfg w m

-- doConnect behind its guards.
unfoldable pub dial : Config → DialWorld → Manager → Option DialError × Manager
unfolding dial_ipv4
dial cfg w m =
    let ready = record m { wds = m.wds || w.allocated_v4; wds_v6 = m.wds_v6 || w.allocated_v6 } in
    if not w.topology_ok
    then fail topology_failed cfg ready
    else if not ready.wds && not ready.wds_v6
    then fail wds_missing cfg ready
    else if w.needs_binding && not w.binding_ok
    then fail binding_failed cfg ready
    else dial_ipv4 cfg w ready

unfoldable pub do_connect : Config → DialWorld → Manager → Option DialError × Manager
unfolding dial set_state
do_connect cfg w m =
    if not m.desired_connection
    then (none, m)
    else if is_connected m.state || is_stopping m.state
    then (none, m)
    else if is_connecting m.state && not (m.handle_v4 == 0)
    then (some in_progress, m)
    else dial cfg w (set_state connecting m)

unfoldable pub stop_calls : Manager → Manager
unfolding call
stop_calls m =
    let m4 =
      if not (m.handle_v4 == 0) && m.wds
      then record (call (stop_v4 m.handle_v4) m) { handle_v4 = 0 }
      else m in
    if not (m4.handle_v6 == 0) && m4.wds_v6
    then record (call (stop_v6 m4.handle_v6) m4) { handle_v6 = 0 }
    else m4

unfoldable pub do_disconnect : Manager → Manager
unfolding stop_calls set_state emit_event
do_disconnect m =
    emit_event disconnected_event
      (set_state disconnected (record (stop_calls m) { settings = none; connected_generation = 0 }))
