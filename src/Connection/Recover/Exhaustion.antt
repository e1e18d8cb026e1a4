-- ===== src/Connection/Recover/Exhaustion.antt =====
-- pkg/manager/manager.go, scheduleRecoverRetry: retries up to the limit, then one terminal event.
use quectel_qmi_go.Common.{ℕ, ◌+◌, ◌<◌, ◌≤◌, ◌≡◌, List, [], ◌∷◌, ◌++◌, length, arith}
use quectel_qmi_go.Connection.{
  recovery_exhausted_event, recovery_spent, Config, Manager, emit_event, schedule_after,
}
use quectel_qmi_go.Connection.Recover.{count_failure, recovery_exhausted, schedule_recover_retry}

-- Recoveries that fail one after the other: the time of each and its draw.
unfoldable pub failed_recoveries : Config → List (ℕ × ℕ) → Manager → Manager
failed_recoveries cfg [] m = m
failed_recoveries cfg ((now, draw) ∷ fs) m =
    failed_recoveries cfg fs (schedule_recover_retry cfg now draw m)

retry_scheduled :
    (cfg : Config) (now draw : ℕ) (m : Manager)
    → cfg.max_recover_elapsed ≡ 0
    → m.recover_count < cfg.max_recover_attempts
    → let m' = schedule_recover_retry cfg now draw m in
      (m'.recover_count ≡ m.recover_count + 1)
      × ((length m'.timers ≡ length m.timers + 1) × (m'.emitted ≡ m.emitted))
unfolding schedule_recover_retry recovery_exhausted count_failure emit_event schedule_after
retry_scheduled cfg now draw m e h = ground (arith, e, h)

retry_refused :
    (cfg : Config) (now draw : ℕ) (m : Manager)
    → 0 < cfg.max_recover_attempts
    → m.recover_count ≡ cfg.max_recover_attempts
    → let m' = schedule_recover_retry cfg now draw m in
      (m'.recover_count ≡ 0)
      × ((m'.timers ≡ m.timers)
          × (m'.emitted ≡ m.emitted ++ (recovery_exhausted_event recovery_spent ∷ [])))
unfolding schedule_recover_retry recovery_exhausted count_failure emit_event schedule_after
retry_refused cfg now draw m e h = ground (arith, e, h)

retries_scheduled :
    (cfg : Config) (fs : List (ℕ × ℕ)) (m : Manager)
    → cfg.max_recover_elapsed ≡ 0
    → m.recover_count + length fs ≤ cfg.max_recover_attempts
    → let m' = failed_recoveries cfg fs m in
      (m'.recover_count ≡ m.recover_count + length fs)
      × ((length m'.timers ≡ length m.timers + length fs) × (m'.emitted ≡ m.emitted))
unfolding failed_recoveries
retries_scheduled cfg [] m e h = ground arith
retries_scheduled cfg ((now, draw) ∷ fs) m e h =
    let first = retry_scheduled cfg now draw m e (omega (arith, h)) in
    let m1 = schedule_recover_retry cfg now draw m in
    let rest = retries_scheduled cfg fs m1 e (omega (arith, h, first.0)) in
    ground (arith, first, rest)

-- With a limit on the attempts and none on the time, from no failure on: as many recoveries may fail
-- as the limit says, and each schedules one retry and ends nothing; the next to fail schedules none,
-- emits the terminal event once, and the count starts over.
pub recovery_gives_up :
    (cfg : Config) (fs : List (ℕ × ℕ)) (now draw : ℕ) (m : Manager)
    → cfg.max_recover_elapsed ≡ 0
    → 0 < cfg.max_recover_attempts
    → m.recover_count ≡ 0
    → length fs ≡ cfg.max_recover_attempts
    → let before = failed_recoveries cfg fs m in
      let after = schedule_recover_retry cfg now draw before in
      ((length before.timers ≡ length m.timers + length fs) × (before.emitted ≡ m.emitted))
      × ((after.timers ≡ before.timers)
          × ((after.emitted ≡ m.emitted ++ (recovery_exhausted_event recovery_spent ∷ []))
              × (after.recover_count ≡ 0)))
recovery_gives_up cfg fs now draw m ee ea ec el =
    let before = failed_recoveries cfg fs m in
    let tries = retries_scheduled cfg fs m ee (omega (arith, ec, el)) in
    let last = retry_refused cfg now draw before ea (omega (arith, ec, el, tries.0)) in
    ground (arith, tries, last)
