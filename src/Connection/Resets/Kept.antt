-- ===== src/Connection/Resets/Kept.antt =====
-- pkg/manager/uim_recovery.go, enqueueModemResetEvent: which resets come through.
use quectel_qmi_go.Common.{
  ℕ, ◌+◌, ◌<◌, ◌≡◌, refl, ◌⊎◌, inr, List, [], ◌∷◌, ◌++◌, Bool, true, false, not, ◌&&◌, ◌||◌, length,
  ltb, arith,
}
use quectel_qmi_go.Connection.{
  InternalEvent, event_modem_reset, event_ch_size, Timer, retry_reset_after, deferred_reset_after,
  reset_again_after, Config, Manager, schedule_after,
}
use quectel_qmi_go.Connection.Resets.{
  is_duplicate, offer_reset, enqueue_modem_reset_event, end_recovery,
}
use quectel_qmi_go.Connection.Recover.{
  count_failure, recovery_exhausted, get_recover_delay, schedule_recover_retry,
}
use quectel_qmi_go.Connection.Recover.Backoff.{get_recover_delay-bounds}
use quectel_qmi_go.Connection.Control.{timer_fires, timer_runs}

abbrev pub has_reset : List InternalEvent → Bool
has_reset [] = false
has_reset (event_modem_reset ∷ es) = true
has_reset (e ∷ es) = has_reset es

abbrev pub has_deferred : List Timer → Bool
has_deferred [] = false
has_deferred (deferred_reset_after d ∷ ts) = true
has_deferred (reset_again_after d ∷ ts) = true
has_deferred (t ∷ ts) = has_deferred ts

-- A reset is still to be handled: its event is queued, a timer will queue it, or the recovery that
-- runs will queue it at its end.
abbrev pub is_tracked : Manager → Bool
is_tracked m =
    has_reset m.event_ch || (has_deferred m.timers || (m.reset.recovering && m.reset.pending))

has_reset-append : (es : List InternalEvent) → has_reset (es ++ (event_modem_reset ∷ [])) ≡ true
has_reset-append [] = refl
has_reset-append (event_modem_reset ∷ es) = refl
has_reset-append (InternalEvent.event_start ∷ es) = has_reset-append es
has_reset-append (InternalEvent.event_stop ∷ es) = has_reset-append es
has_reset-append (InternalEvent.event_check_full ∷ es) = has_reset-append es
has_reset-append (InternalEvent.event_check_targeted ∷ es) = has_reset-append es
has_reset-append (InternalEvent.event_packet_status_changed ∷ es) = has_reset-append es
has_reset-append (InternalEvent.event_serving_system_changed ∷ es) = has_reset-append es

-- After a modem reset was reported, a reset is still to be handled exactly in these cases: one was
-- before the report; or a recovery runs; or the report is no repetition, and the queue has room or no
-- deferred enqueue is marked. So where the queue is full and a deferred enqueue is marked whose timer
-- is gone, a report that is no repetition is lost.
pub enqueued_reset_tracked :
    (cfg : Config) (now : ℕ) (m : Manager)
    → is_tracked (enqueue_modem_reset_event cfg now m) ≡ (
        is_tracked m
        || (m.reset.recovering
            || (not (is_duplicate cfg now m.reset)
                && (ltb (length m.event_ch) event_ch_size || not m.reset.deferred))))
unfolding enqueue_modem_reset_event offer_reset schedule_after
enqueued_reset_tracked cfg now m = ground (arith, has_reset-append m.event_ch)

reset_tracked :
    (cfg : Config) (now : ℕ) (m : Manager)
    → (m.reset.deferred ≡ true → has_deferred m.timers ≡ true)
    → (m.reset.recovering ≡ true) ⊎ (is_duplicate cfg now m.reset ≡ false)
    → is_tracked (enqueue_modem_reset_event cfg now m) ≡ true
reset_tracked cfg now m hd h = ground (arith, hd, h, enqueued_reset_tracked cfg now m)

-- A reset that came while a recovery ran is handled after it, unless its enqueueing then counts as
-- a repetition.
pub pending_tracked :
    (cfg : Config) (now : ℕ) (m : Manager)
    → (m.reset.deferred ≡ true → has_deferred m.timers ≡ true)
    → m.reset.pending ≡ true
    → is_duplicate cfg now m.reset ≡ false
    → is_tracked (end_recovery cfg now m) ≡ true
unfolding end_recovery
pending_tracked cfg now m hd hp h = ground (
  arith,
  hp,
  reset_tracked cfg now
      (record m { reset = record (m.reset) { recovering = false; pending = false } }) hd (inr h),
)

-- With the deduplication window of one second and no limit on recoveries, the first recovery fails
-- within 0.4 s of the enqueueing of its reset: the retry that it schedules counts as a repetition when
-- its timer fires, in whatever state the manager then is outside a recovery, and changes nothing.
pub first_retry_dropped :
    (cfg : Config) (m later : Manager) (failed_at draw : ℕ)
    → cfg.modem_reset_dedup_window ≡ 1_000_000_000
    → cfg.max_recover_attempts ≡ 0
    → cfg.max_recover_elapsed ≡ 0
    → m.recover_count ≡ 0
    → 0 < m.reset.enqueued_at
    → failed_at < m.reset.enqueued_at + 400_000_000
    → later.reset ≡ record (m.reset) { recovering = false; pending = false }
    → let delay = get_recover_delay draw (count_failure failed_at m) in
      ((schedule_recover_retry cfg failed_at draw m).timers ≡ retry_reset_after delay ∷ m.timers)
      × (timer_fires cfg (failed_at + delay) (retry_reset_after delay) later ≡ later)
unfolding schedule_recover_retry recovery_exhausted count_failure schedule_after timer_fires
    timer_runs enqueue_modem_reset_event
first_retry_dropped cfg m later failed_at draw ew ea ee ec hq hf er = (
  ground (arith, ea, ee),
  ground (arith, ew, er, hq, hf, get_recover_delay-bounds draw (count_failure failed_at m), ec),
)
