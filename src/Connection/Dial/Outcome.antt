-- ===== src/Connection/Dial/Outcome.antt =====
-- pkg/manager/manager.go, doConnect: how a dial ends.
use quectel_qmi_go.Common.{
  ◌+◌, ◌≡◌, ◌⊎◌, inl, inr, ◌∷◌, true, not, ◌&&◌, ◌||◌, if◌then◌else◌, ◌==◌, Option, none, some,
  if_either, elim_either, arith,
}
use quectel_qmi_go.Connection.{
  disconnected, connecting, connected, start_after, Config, Manager, stop_any, start_v4,
  is_connected, is_connecting, is_stopping, set_state, emit_event, call, schedule_after,
}
use quectel_qmi_go.Connection.Dial.{
  DialError, DialWorld, get_retry_delay, handle_dial_failure, configure_network, finish_dial,
  dial_ipv6, dial_ipv4, dial, do_connect,
}

-- What a failed dial leaves: the manager is disconnected and keeps its handles, and if it is to
-- reconnect by itself, one retry is scheduled after the delay of its count, which goes up.
abbrev pub Failed : Config → Manager → Manager → Type 0
Failed cfg m m' =
    (m'.state ≡ disconnected)
    × ((m'.handle_v4 ≡ m.handle_v4)
        × ((m'.handle_v6 ≡ m.handle_v6)
            × ((m'.timers ≡ (
                  if cfg.auto_reconnect && m.desired_connection
                  then start_after (get_retry_delay m) ∷ m.timers
                  else m.timers))
                × (m'.retry_count ≡ (
                    if cfg.auto_reconnect && m.desired_connection
                    then m.retry_count + 1
                    else m.retry_count)))))

-- What a dial that went through leaves: the manager is connected, the count of retries starts over,
-- and with IPv4 enabled the handle is the one that the modem gave.
abbrev pub Connected : Config → DialWorld → Manager → Type 0
Connected cfg w m' =
    (m'.state ≡ connected)
    × ((m'.retry_count ≡ 0)
        × ((m'.connected_generation ≡ w.generation)
            × ((not cfg.enable_ipv4 ≡ true) ⊎ (w.dial_v4 ≡ some m'.handle_v4))))

abbrev pub Settled : Config → DialWorld → Manager → Option DialError × Manager → Type 0
Settled cfg w m (none, m') = Connected cfg w m'
Settled cfg w m (some e, m') = Failed cfg m m'

handle_dial_failure-Failed : (cfg : Config) (m : Manager) → Failed cfg m (handle_dial_failure cfg m)
unfolding handle_dial_failure set_state emit_event call schedule_after
handle_dial_failure-Failed cfg m = ground arith

module _ (cfg : Config) (w : DialWorld) where
  finish_dial-Connected :
      (m m0 : Manager)
      → (not cfg.enable_ipv4 ≡ true) ⊎ (w.dial_v4 ≡ some m.handle_v4)
      → Settled cfg w m0 (finish_dial w m)
  unfolding finish_dial configure_network set_state emit_event
  finish_dial-Connected m m0 h = ground (arith, h)

  dial_ipv6-Connected :
      (m m0 : Manager)
      → (not cfg.enable_ipv4 ≡ true) ⊎ (w.dial_v4 ≡ some m.handle_v4)
      → Settled cfg w m0 (dial_ipv6 cfg w m)
  unfolding dial_ipv6 call
  dial_ipv6-Connected m m0 h =
      if_either (Settled cfg w m0) (cfg.enable_ipv6 && m.wds_v6)
        (λ e.
          elim_either (Settled cfg w m0) w.dial_v6 (finish_dial-Connected _ m0 h)
            (λ handle e'. finish_dial-Connected _ m0 h))
        (λ e. finish_dial-Connected m m0 h)

  -- The IPv4 service is there if IPv4 is enabled.
  dial_ipv4-Settled :
      (m : Manager) → (cfg.enable_ipv4 ≡ true → m.wds ≡ true) → Settled cfg w m (dial_ipv4 cfg w m)
  unfolding dial_ipv4 call
  dial_ipv4-Settled m hw =
      if_either (Settled cfg w m) cfg.enable_ipv4
        (λ e.
          if_either (Settled cfg w m) (not m.wds) (λ ew. absurd (ground (arith, hw e, ew)))
            (λ ew.
              elim_either (Settled cfg w m) w.dial_v4
                (handle_dial_failure-Failed cfg (call start_v4 (call stop_any m)))
                (λ handle ed. dial_ipv6-Connected _ m (inr ed))))
        (λ e. dial_ipv6-Connected m m (inl (ground (arith, e))))

  dial-Settled :
      (m : Manager)
      → (cfg.enable_ipv4 ≡ true → w.topology_ok ≡ true → (m.wds || w.allocated_v4) ≡ true)
      → Settled cfg w m (dial cfg w m)
  unfolding dial
  dial-Settled m hw =
      let ready = record m { wds = m.wds || w.allocated_v4; wds_v6 = m.wds_v6 || w.allocated_v6 } in
      if_either (Settled cfg w m) (not w.topology_ok) (λ e. handle_dial_failure-Failed cfg ready)
        (λ e.
          if_either (Settled cfg w m) (not ready.wds && not ready.wds_v6)
            (λ e1. handle_dial_failure-Failed cfg ready)
            (λ e1.
              if_either (Settled cfg w m) (w.needs_binding && not w.binding_ok)
                (λ e2. handle_dial_failure-Failed cfg ready)
                (λ e2. dial_ipv4-Settled ready (λ e4. hw e4 (ground (arith, e))))))

  -- A wanted dial from the disconnected state, with the IPv4 service allocated wherever IPv4 is enabled
  -- and the topology converges, ends in one of two ways. It goes through: the manager is connected, its
  -- retries start over, and with IPv4 enabled it holds the handle that the modem gave. Or it fails: the
  -- manager is disconnected with the handles it had, and if it reconnects by itself, exactly one retry
  -- is scheduled, after the delay of its count, which goes up.
  pub do_connect-Settled :
      (m : Manager)
      → m.desired_connection ≡ true
      → m.state ≡ disconnected
      → (cfg.enable_ipv4 ≡ true → w.topology_ok ≡ true → (m.wds || w.allocated_v4) ≡ true)
      → Settled cfg w m (do_connect cfg w m)
  unfolding do_connect set_state
  do_connect-Settled m ed es hw =
      if_either (Settled cfg w m) (not m.desired_connection) (λ e. absurd (ground (arith, ed, e)))
        (λ e.
          if_either (Settled cfg w m) (is_connected m.state || is_stopping m.state)
            (λ e1. absurd (ground (arith, es, e1)))
            (λ e1.
              if_either (Settled cfg w m) (is_connecting m.state && not (m.handle_v4 == 0))
                (λ e2. absurd (ground (arith, es, e2)))
                (λ e2. dial-Settled (set_state connecting m) hw)))
