-- ===== src/Connection/Control/Lost.antt =====
-- pkg/manager/manager.go: a lost connection, from the status check that sees it to the next dial.
use quectel_qmi_go.Common.{
  ℕ, ◌≡◌, ◌⊎◌, inl, inr, List, [], ◌∷◌, Bool, true, false, not, ◌||◌, Option, none, some, if_either,
  arith,
}
use quectel_qmi_go.Connection.{
  disconnected, connected, is_stopping, is_disconnected, start_after, Timer, event_start, Config,
  Manager, set_state, emit_event, send_from_loop,
}
use quectel_qmi_go.Connection.Dial.{DialError, DialWorld, get_retry_delay, do_connect}
use quectel_qmi_go.Connection.Dial.Outcome.{Settled, do_connect-Settled}
use quectel_qmi_go.Connection.Status.{
  StatusWorld, status_disconnected, redial, lose_connection, apply_status, do_status_check,
}
use quectel_qmi_go.Connection.Control.{World, handle_event, loop_takes}

-- Connected again with the retries started over, or disconnected with one retry more than the timers
-- given.
abbrev pub Redialled : List Timer → Manager → Type 0
Redialled timers m =
    ((m.state ≡ connected) × (m.retry_count ≡ 0))
    ⊎ ((m.state ≡ disconnected) × ((delay : ℕ) × (m.timers ≡ start_after delay ∷ timers)))

Settled-Redialled :
    (cfg : Config) (w : DialWorld) (m : Manager) (r : Option DialError × Manager)
    → cfg.auto_reconnect ≡ true
    → m.desired_connection ≡ true
    → Settled cfg w m r
    → Redialled m.timers r.1
Settled-Redialled cfg w m (none, m') ea ed h = inl (h.0, h.1.0)
Settled-Redialled cfg w m (some e, m') ea ed h =
    inr (h.0, (get_retry_delay m, ground (arith, ea, ed, h.1.1.1.0)))

module _ (cfg : Config) (full : Bool) (now : ℕ) (w : StatusWorld) (m : Manager) where
  lost_checked :
      m.is_rotating ≡ false
      → m.state ≡ connected
      → m.client ≡ true
      → m.wds ≡ true
      → w.packet_status ≡ some status_disconnected
      → do_status_check cfg full now w m ≡ lose_connection cfg m
  unfolding do_status_check apply_status
  lost_checked er es ec ew ep =
      if_either (λ x. x ≡ lose_connection cfg m)
        (m.is_rotating || (is_stopping m.state || is_disconnected m.state) || not m.client)
        (λ e. absurd (ground (arith, er, es, ec, e)))
        (λ e.
          if_either (λ x. x ≡ lose_connection cfg m) (not m.wds)
            (λ e1. absurd (ground (arith, ew, e1))) (λ e1. rw (ep) (ground (arith, es))))

  lost_queued :
      cfg.auto_reconnect ≡ true
      → m.desired_connection ≡ true
      → m.event_ch ≡ []
      → let m' = lose_connection cfg m in
        (m'.event_ch ≡ event_start ∷ [])
        × ((m'.state ≡ disconnected)
            × ((m'.desired_connection ≡ true)
                × ((m'.timers ≡ m.timers)
                    × ((m'.wds ≡ m.wds)
                        × ((m'.cancelled ≡ m.cancelled) × (m'.loop_blocked ≡ m.loop_blocked))))))
  unfolding lose_connection redial set_state emit_event send_from_loop
  lost_queued ea ed eq = ground (arith, ea, ed, eq)

start_taken :
    (cfg : Config) (w : World) (m : Manager)
    → m.event_ch ≡ event_start ∷ []
    → m.loop_blocked ≡ false
    → m.cancelled ≡ false
    → loop_takes cfg w m ≡ (do_connect cfg w.dial (record m { event_ch = [] })).1
unfolding loop_takes handle_event
start_taken cfg w m eq eb ec = rw (loop_takes, eq) (ground (arith, eb, ec))

-- The modem reports that the data call of a connected manager is gone, with no other event queued, a
-- connection wanted and reconnecting set: the next round of the event loop dials, whatever the modem
-- then answers, and leaves the manager connected again, or disconnected with one more retry scheduled.
pub lost_connection-Redialled :
    (cfg : Config) (full : Bool) (now : ℕ) (w : StatusWorld) (w' : World) (m : Manager)
    → m.is_rotating ≡ false
    → m.state ≡ connected
    → m.client ≡ true
    → m.wds ≡ true
    → w.packet_status ≡ some status_disconnected
    → cfg.auto_reconnect ≡ true
    → m.desired_connection ≡ true
    → m.event_ch ≡ []
    → m.loop_blocked ≡ false
    → m.cancelled ≡ false
    → Redialled m.timers (loop_takes cfg w' (do_status_check cfg full now w m))
lost_connection-Redialled cfg full now w w' m er es ec ew ep ea ed eq eb ek =
    let lost = lose_connection cfg m in
    let q = lost_queued cfg full now w m ea ed eq in
    let taken = record lost { event_ch = [] } in
    let settled =
      do_connect-Settled cfg w'.dial taken (ground (arith, q)) (ground (arith, q))
        (λ e e'. ground (arith, q, ew)) in
    rw
      (
        lost_checked cfg full now w m er es ec ew ep,
        start_taken cfg w' lost q.0 (ground (arith, q, eb)) (ground (arith, q, ek)),
      )
      (ground (
        arith,
        q,
        Settled-Redialled cfg w'.dial taken (do_connect cfg w'.dial taken) ea (ground (arith, q))
            settled,
      ))
