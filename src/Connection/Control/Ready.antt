-- ===== src/Connection/Control/Ready.antt =====
-- pkg/manager/manager.go: what the calls of users and the handlers of events keep.
use quectel_qmi_go.Common.{
  ℕ, ◌≡◌, refl, ◌⊎◌, inl, inr, Bool, true, false, not, ◌&&◌, ◌||◌, ◌==◌, Option, if_either,
  elim_either, arith,
}
use quectel_qmi_go.Connection.{
  State, disconnected, connecting, connected, stopping, is_connected, is_connecting, is_stopping,
  is_disconnected, Config, Manager, set_state, disconnected_event, emit_event, call, schedule_after,
  send_from_loop, stop_scheduled_timers, start_v4, stop_any,
}
use quectel_qmi_go.Connection.Resets.{
  offer_reset, enqueue_modem_reset_event, offer_deferred_reset, deferred_reset,
}
use quectel_qmi_go.Connection.Dial.{
  DialError, DialWorld, handle_dial_failure, configure_network, finish_dial, dial_ipv6, dial_ipv4,
  dial, do_connect, stop_calls, do_disconnect,
}
use quectel_qmi_go.Connection.Status.{
  StatusWorld, redial, restore_connection, check_address, lose_connection, apply_status,
  do_status_check, ConnectionStatus, should_verify, verify_ip_consistency, status_connected,
  status_disconnected, status_unknown, status_suspended, status_authenticating,
}
use quectel_qmi_go.Connection.Recover.{cleanup, schedule_recover_retry, count_failure}

-- A ready core has a client and is ready for control; an IPv4 data call belongs to a service and to
-- a manager that is not disconnected; no recovery is left running.
abbrev pub IsSound : Manager → Type 0
IsSound m =
    (m.core_ready ≡ true → (m.control_ready ≡ true) × (m.client ≡ true))
    × ((not (m.handle_v4 == 0) ≡ true → m.wds ≡ true)
        × ((is_disconnected m.state ≡ true → m.handle_v4 ≡ 0) × (m.reset.recovering ≡ false)))

module _ (cfg : Config) (m : Manager) (v : IsSound m) where
  pub do_disconnect-IsSound : IsSound (do_disconnect m)
  unfolding do_disconnect stop_calls call set_state emit_event
  do_disconnect-IsSound = ground (arith, v)

  pub cleanup-IsSound : IsSound (cleanup m)
  unfolding cleanup call stop_scheduled_timers
  cleanup-IsSound = ground (arith, v)

  pub enqueue-IsSound : (now : ℕ) → IsSound (enqueue_modem_reset_event cfg now m)
  unfolding enqueue_modem_reset_event offer_reset schedule_after
  enqueue-IsSound now = ground (arith, v)

  pub deferred_reset-IsSound : (now : ℕ) → IsSound (deferred_reset now m)
  unfolding deferred_reset offer_deferred_reset schedule_after
  deferred_reset-IsSound now = ground (arith, v)

  pub handle_dial_failure-IsSound : m.handle_v4 ≡ 0 → IsSound (handle_dial_failure cfg m)
  unfolding handle_dial_failure call schedule_after set_state emit_event
  handle_dial_failure-IsSound e = ground (arith, v, e)

  pub redial-IsSound : IsSound (redial cfg m)
  unfolding redial send_from_loop emit_event
  redial-IsSound = ground (arith, v)

  pub restore_connection-IsSound : (w : StatusWorld) → IsSound (restore_connection w m)
  unfolding restore_connection configure_network set_state emit_event
  restore_connection-IsSound w = ground (arith, v)

  pub schedule_recover_retry-IsSound :
      (now draw : ℕ) → IsSound (schedule_recover_retry cfg now draw m)
  unfolding schedule_recover_retry count_failure emit_event schedule_after
  schedule_recover_retry-IsSound now draw = ground (arith, v)

state_cases :
    (s : State)
    → (is_disconnected s ≡ true)
      ⊎ ((is_connecting s ≡ true) ⊎ ((is_connected s || is_stopping s) ≡ true))
state_cases disconnected = inl refl
state_cases connecting = inr (inl refl)
state_cases connected = inr (inr refl)
state_cases stopping = inr (inr refl)

-- Where doConnect dials there is no IPv4 call.
unheld :
    (m : Manager)
    → IsSound m
    → (is_connected m.state || is_stopping m.state) ≡ false
    → (is_connecting m.state && not (m.handle_v4 == 0)) ≡ false
    → m.handle_v4 ≡ 0
unheld m v e1 e2 = elim (state_cases m.state) [
  | inl e ↦ ground (arith, v, e)
  | inr (inl e) ↦ ground (arith, e, e2)
  | inr (inr e) ↦ absurd (ground (arith, e, e1))
]

module _ (cfg : Config) (w : DialWorld) where
  abbrev Dialled : Option DialError × Manager → Type 0
  Dialled r = IsSound r.1

  pub dial_ipv6-IsSound : (m : Manager) → IsSound m → Dialled (dial_ipv6 cfg w m)
  unfolding dial_ipv6 finish_dial configure_network set_state emit_event call
  dial_ipv6-IsSound m v = ground (arith, v)

  pub dial_ipv4-IsSound :
      (m : Manager)
      → IsSound m
      → m.handle_v4 ≡ 0
      → is_disconnected m.state ≡ false
      → Dialled (dial_ipv4 cfg w m)
  unfolding dial_ipv4 call
  dial_ipv4-IsSound m v e es =
      if_either Dialled cfg.enable_ipv4
        (λ e4.
          if_either Dialled (not m.wds) (λ ew. v)
            (λ ew.
              elim_either Dialled w.dial_v4
                (handle_dial_failure-IsSound cfg (call start_v4 (call stop_any m)) v e)
                (λ handle ed.
                  dial_ipv6-IsSound
                    (record (call start_v4 (call stop_any m)) { handle_v4 = handle })
                    (
                      v.0,
                      (λ eh. ground (arith, ew), (λ ei. absurd (ground (arith, es, ei)), v.1.1.1)),
                    ))))
        (λ e4. dial_ipv6-IsSound m v)

  pub dial-IsSound :
      (m : Manager)
      → IsSound m
      → m.handle_v4 ≡ 0
      → is_disconnected m.state ≡ false
      → Dialled (dial cfg w m)
  unfolding dial
  dial-IsSound m v e es =
      let ready = record m { wds = m.wds || w.allocated_v4; wds_v6 = m.wds_v6 || w.allocated_v6 } in
      let v' : IsSound ready = ground (arith, v) in
      let failed = handle_dial_failure-IsSound cfg ready v' e in
      if_either Dialled (not w.topology_ok) (λ e1. failed)
        (λ e1.
          if_either Dialled (not ready.wds && not ready.wds_v6) (λ e2. failed)
            (λ e2.
              if_either Dialled (w.needs_binding && not w.binding_ok) (λ e3. failed)
                (λ e3. dial_ipv4-IsSound ready v' e es)))

  pub do_connect-IsSound : (m : Manager) → IsSound m → Dialled (do_connect cfg w m)
  unfolding do_connect set_state
  do_connect-IsSound m v =
      if_either Dialled (not m.desired_connection) (λ e. v)
        (λ e.
          if_either Dialled (is_connected m.state || is_stopping m.state) (λ e1. v)
            (λ e1.
              if_either Dialled (is_connecting m.state && not (m.handle_v4 == 0)) (λ e2. v)
                (λ e2.
                  dial-IsSound (set_state connecting m) (ground (arith, v)) (unheld m v e1 e2)
                    refl)))

module _ (cfg : Config) (now : ℕ) (w : StatusWorld) where
  pub check_address-IsSound :
      (full : Bool) (m : Manager) → IsSound m → IsSound (check_address cfg full now w m)
  unfolding check_address
  check_address-IsSound full m v =
      if_either IsSound (should_verify cfg full now m)
        (λ e.
          if_either IsSound (verify_ip_consistency w m) (λ e1. v)
            (λ e1. redial-IsSound cfg (do_disconnect m) (do_disconnect-IsSound cfg m v)))
        (λ e. v)

  pub lose_connection-IsSound : (m : Manager) → IsSound m → IsSound (lose_connection cfg m)
  unfolding lose_connection set_state emit_event
  lose_connection-IsSound m v =
      redial-IsSound cfg
        (emit_event disconnected_event (set_state disconnected (record m { handle_v4 = 0 })))
        (ground (arith, v))

  pub apply_status-IsSound :
      (full : Bool) (s : ConnectionStatus) (m : Manager)
      → IsSound m
      → IsSound (apply_status cfg full now w s m)
  unfolding apply_status
  apply_status-IsSound full status_connected m v =
      if_either IsSound (not (is_connected m.state)) (λ e. restore_connection-IsSound cfg m v w)
        (λ e. check_address-IsSound full m v)
  apply_status-IsSound full status_disconnected m v =
      if_either IsSound (is_connected m.state) (λ e. lose_connection-IsSound m v) (λ e. v)
  apply_status-IsSound full status_unknown m v = v
  apply_status-IsSound full status_suspended m v = v
  apply_status-IsSound full status_authenticating m v = v

  pub do_status_check-IsSound :
      (full : Bool) (m : Manager) → IsSound m → IsSound (do_status_check cfg full now w m)
  unfolding do_status_check
  do_status_check-IsSound full m v =
      if_either IsSound
        (m.is_rotating || (is_stopping m.state || is_disconnected m.state) || not m.client) (λ e. v)
        (λ e.
          if_either IsSound (not m.wds) (λ e1. v)
            (λ e1. elim_either IsSound w.packet_status v (λ s es. apply_status-IsSound full s m v)))
