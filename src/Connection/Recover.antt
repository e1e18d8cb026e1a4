-- ===== src/Connection/Recover.antt =====
-- pkg/manager/manager.go: cleanup, doRecoverFromModemReset, its backoff and its end.
pub mod Backoff
pub mod Exhaustion
use quectel_qmi_go.Common.{
  ℕ, zero, suc, ◌+◌, ◌-◌, ◌*◌, ◌/◌, ◌%◌, List, Bool, true, false, not, ◌&&◌, ◌||◌, if◌then◌else◌,
  ltb, leb, ◌==◌, Option, none, some,
}
use quectel_qmi_go.Connection.{
  State, disconnected, is_stopping, start_after, retry_reset_after, device_removed, recovery_spent,
  recovery_exhausted_event, stop_v4, stop_v6, Config, Manager, set_state, emit_event, call,
  schedule_after, stop_scheduled_timers,
}
use quectel_qmi_go.Connection.Resets.{begin_recovery, end_recovery}
use quectel_qmi_go.Connection.Dial.{do_disconnect}

-- cleanup; the interfaces, the other services and the WMS state are left out.
unfoldable pub cleanup : Manager → Manager
unfolding call stop_scheduled_timers
cleanup m =
    let stopped = stop_scheduled_timers m in
    let m4 =
      if not (m.handle_v4 == 0) && m.wds then call (stop_v4 m.handle_v4) stopped else stopped in
    let m6 = if not (m.handle_v6 == 0) && m.wds_v6 then call (stop_v6 m.handle_v6) m4 else m4 in
    record m6 {
      ims_probe_blocked = true;
      client = false;
      wds = false;
      wds_v6 = false;
      handle_v4 = 0;
      handle_v6 = 0;
      settings = none;
      control_ready = false;
      core_ready = false;
    }

abbrev pub recover_backoff_base : ℕ
recover_backoff_base = 500_000_000

abbrev pub recover_backoff_max : ℕ
recover_backoff_max = 15_000_000_000

-- The loop of getRecoverDelay, n rounds to go.
unfoldable pub backoff_loop : ℕ → ℕ → ℕ
backoff_loop zero delay = delay
backoff_loop (suc n) delay =
    let rest = backoff_loop n (delay * 2) in
    if leb recover_backoff_max delay
    then recover_backoff_max
    else if ltb recover_backoff_max (delay * 2)
    then recover_backoff_max
    else rest

-- The jitter: a fifth of the delay at most, either way. rand.Int63n(n) is any number below n, here
-- `draw % n`. The delays are multiples of 5, so the floating-point product is a fifth exactly.
unfoldable pub add_jitter : ℕ → ℕ → ℕ
add_jitter draw delay =
    let jitter_range = delay / 5 in
    let jittered = delay + draw % (jitter_range * 2 + 1) - jitter_range in
    if ltb jittered 100_000_000 then 100_000_000 else jittered

unfoldable pub get_recover_delay : ℕ → Manager → ℕ
get_recover_delay draw m = add_jitter draw (backoff_loop (m.recover_count - 1) recover_backoff_base)

unfoldable pub recovery_exhausted : Config → ℕ → Manager → Bool
recovery_exhausted cfg now m =
    (ltb 0 cfg.max_recover_attempts && ltb cfg.max_recover_attempts m.recover_count)
    || (ltb 0 cfg.max_recover_elapsed
        && (not (m.recover_first_fail_at == 0)
            && leb cfg.max_recover_elapsed (now - m.recover_first_fail_at)))

-- scheduleRecoverRetry up to its test.
unfoldable pub count_failure : ℕ → Manager → Manager
count_failure now m = record m {
  recover_count = m.recover_count + 1;
  recover_first_fail_at = if m.recover_first_fail_at == 0 then now else m.recover_first_fail_at;
}

unfoldable pub schedule_recover_retry : Config → ℕ → ℕ → Manager → Manager
unfolding count_failure emit_event schedule_after
schedule_recover_retry cfg now draw m =
    let counted = count_failure now m in
    if recovery_exhausted cfg now counted
    then emit_event (recovery_exhausted_event recovery_spent)
        (record counted { recover_count = 0; recover_first_fail_at = 0 })
    else schedule_after (retry_reset_after (get_recover_delay draw counted)) counted

-- What the host and the modem answer to one recovery. `opened_v4` and `opened_v6` say which data
-- services are there after the attempt to open, `coalesced` that another reset came before the
-- quiet window ended, `interrupted` that the wait for it was cut short, `coalesced_late` that another
-- reset came behind it.
pub record RecoverWorld : Type 0 where
  pub open_ok : Bool
  pub opened_v4 : Bool
  pub opened_v6 : Bool
  pub device_gone : Bool
  pub coalesced : Bool
  pub interrupted : Bool
  pub coalesced_late : Bool

-- The branch of a failed reopening.
unfoldable pub reopen_failed : Config → ℕ → ℕ → RecoverWorld → Manager → Manager
unfolding set_state emit_event
reopen_failed cfg now draw w m =
    if w.device_gone
    then emit_event (recovery_exhausted_event device_removed)
        (record (set_state disconnected m) { recover_count = 0; recover_first_fail_at = 0 })
    else schedule_recover_retry cfg now draw (set_state disconnected m)

-- The end of a recovery that converged.
unfoldable pub recovered : Config → Manager → Manager
unfolding set_state schedule_after
recovered cfg m =
    let ready = set_state disconnected (record m {
      recover_count = 0;
      recover_first_fail_at = 0;
      core_ready = true;
      control_ready = true;
      ims_probe_blocked = false;
    }) in
    if m.desired_connection && cfg.auto_reconnect
    then schedule_after (start_after 2_000_000_000) ready
    else ready

-- Another reset that comes while the recovery runs.
unfoldable pub hear : Bool → Manager → Manager
hear came m = if came then record m { reset = record (m.reset) { pending = true } } else m

-- Behind a reopening that worked: the quiet window, then the identity, which is only waited for.
unfoldable pub settle : Config → ℕ → ℕ → RecoverWorld → Manager → Bool × Manager
settle cfg now draw w m =
    if m.reset.pending
    then (false, m)
    else if w.interrupted
    then (false, schedule_recover_retry cfg now draw m)
    else (true, hear w.coalesced_late (recovered cfg m))

unfoldable pub do_recover_from_modem_reset :
    Config → ℕ → ℕ → RecoverWorld → Manager → Bool × Manager
do_recover_from_modem_reset cfg now draw w m =
    if is_stopping m.state
    then (false, m)
    else (let torn =
          hear w.coalesced
            (record (cleanup (do_disconnect m)) { wds = w.opened_v4; wds_v6 = w.opened_v6 }) in
        if not w.open_ok
        then (false, reopen_failed cfg now draw w torn)
        else settle cfg now draw w (record torn { client = true; control_ready = true }))

unfoldable pub handle_modem_reset_event : Config → ℕ → ℕ → RecoverWorld → Manager → Manager
unfolding begin_recovery
handle_modem_reset_event cfg now draw w m =
    if m.reset.recovering
    then record m { reset = record (m.reset) { pending = true } }
    else end_recovery cfg now (do_recover_from_modem_reset cfg now draw w (begin_recovery m)).1
