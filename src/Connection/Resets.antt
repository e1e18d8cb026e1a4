-- ===== src/Connection/Resets.antt =====
-- pkg/manager/uim_recovery.go, enqueueModemResetEvent, and the bookkeeping of handleModemResetEvent in
-- pkg/manager/manager.go: how a modem reset becomes one event of the queue.
pub mod Kept
use quectel_qmi_go.Common.{
  ℕ, ◌+◌, ◌-◌, List, [], ◌∷◌, ◌++◌, Bool, true, false, not, ◌&&◌, if◌then◌else◌, ltb, ◌==◌, length,
}
use quectel_qmi_go.Connection.{
  InternalEvent, event_modem_reset, Timer, deferred_reset_after, reset_again_after, Config,
  ResetState, Manager, event_ch_size, schedule_after,
}

-- The first two tests: a recovery runs, or the last reset was queued too short ago.
abbrev pub is_duplicate : Config → ℕ → ResetState → Bool
is_duplicate cfg now r =
    not (r.enqueued_at == 0) && ltb (now - r.enqueued_at) cfg.modem_reset_dedup_window

-- The select with its default branch.
unfoldable pub offer_reset : Manager → Manager
offer_reset m =
    if ltb (length m.event_ch) event_ch_size
    then record m { event_ch = m.event_ch ++ (event_modem_reset ∷ []) }
    else if m.reset.deferred
    then record m { reset = record (m.reset) { pending = true } }
    else schedule_after (deferred_reset_after 200_000_000)
        (record m { reset = record (m.reset) { deferred = true } })

unfoldable pub enqueue_modem_reset_event : Config → ℕ → Manager → Manager
enqueue_modem_reset_event cfg now m =
    if m.reset.recovering
    then record m { reset = record (m.reset) { pending = true } }
    else if is_duplicate cfg now m.reset
    then m
    else offer_reset (record m { reset = record (m.reset) { enqueued_at = now } })

-- The function of the first deferred timer, behind its test for a running recovery.
unfoldable pub offer_deferred_reset : Manager → Manager
offer_deferred_reset m =
    if ltb (length m.event_ch) event_ch_size
    then record m { event_ch = m.event_ch ++ (event_modem_reset ∷ []) }
    else schedule_after (reset_again_after 500_000_000)
        (record m { reset = record (m.reset) { deferred = true; pending = true } })

unfoldable pub deferred_reset : ℕ → Manager → Manager
deferred_reset now m =
    if m.reset.recovering
    then record m { reset = record (m.reset) { deferred = false; pending = true } }
    else offer_deferred_reset
        (record m { reset = record (m.reset) { deferred = false; enqueued_at = now } })

-- The function of the second deferred timer.
unfoldable pub reset_again : Config → ℕ → Manager → Manager
reset_again cfg now m =
    enqueue_modem_reset_event cfg now
      (record m { reset = record (m.reset) { deferred = false; enqueued_at = 0 } })

-- handleModemResetEvent up to the call of doRecoverFromModemReset, where it is made.
unfoldable pub begin_recovery : Manager → Manager
begin_recovery m = record m { reset = record (m.reset) { recovering = true; pending = false } }

-- And behind the call.
unfoldable pub end_recovery : Config → ℕ → Manager → Manager
end_recovery cfg now m =
    let done = record m { reset = record (m.reset) { recovering = false; pending = false } } in
    if m.reset.pending then enqueue_modem_reset_event cfg now done else done
