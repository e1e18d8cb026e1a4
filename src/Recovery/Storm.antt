-- ===== src/Recovery/Storm.antt =====
-- pkg/manager/service_recovery_storm.go, detectTimeoutStorm: one critical section over the times of the
-- last timeouts. Services are numbered; times are nanoseconds of one clock, and 0 is the zero time.
use quectel_qmi_go.Common.{
  ℕ, ◌+◌, ◌-◌, ◌≤◌, ◌≡◌, ◌≢◌, ◌↔◌, ◌⊎◌, List, [], ◌∷◌, Bool, true, ◌&&◌, ◌||◌, if◌then◌else◌, ltb,
  leb, ◌==◌, length, insert, delete, ℕ_discrete, arith,
}

-- `resets` counts the calls of enqueueModemResetEvent.
pub record StormDetector : Type 0 where
  pub timeout_services : List (ℕ × ℕ)
  pub storm_at : ℕ
  pub resets : ℕ

abbrev pub storm_window : ℕ
storm_window = 5_000_000_000

abbrev pub storm_min_svcs : ℕ
storm_min_svcs = 2

abbrev pub storm_cooldown : ℕ
storm_cooldown = 30_000_000_000

unfoldable pub forget_old : ℕ → List (ℕ × ℕ) → List (ℕ × ℕ)
forget_old now [] = []
forget_old now ((svc, t) ∷ m) =
    let rest = forget_old now m in if ltb storm_window (now - t) then rest else (svc, t) ∷ rest

abbrev pub is_cool : ℕ → StormDetector → Bool
is_cool now s = s.storm_at == 0 || ltb storm_cooldown (now - s.storm_at)

unfoldable pub detect_timeout_storm : ℕ → ℕ → StormDetector → StormDetector
detect_timeout_storm now service s =
    let tracked = insert ℕ_discrete (forget_old now s.timeout_services) service now in
    if leb storm_min_svcs (length tracked) && is_cool now s
    then record s { timeout_services = []; storm_at = now; resets = s.resets + 1 }
    else record s { timeout_services = tracked }

-- Some other service timed out within the window.
abbrev pub AnotherTimedOut : ℕ → ℕ → List (ℕ × ℕ) → Type 0
AnotherTimedOut now service [] = ⊥
AnotherTimedOut now service ((svc, t) ∷ m) =
    ((svc ≢ service) × (now - t ≤ storm_window)) ⊎ AnotherTimedOut now service m

other_left :
    (now service : ℕ) (m : List (ℕ × ℕ))
    → (1 ≤ length (delete ℕ_discrete (forget_old now m) service)) ↔ AnotherTimedOut now service m
unfolding forget_old delete
other_left now service [] = ground arith
other_left now service ((svc, t) ∷ m) = ground (arith, other_left now service m)

-- A timeout resets the modem exactly if another service timed out within the five seconds before it
-- and no storm was met in the thirty seconds before it.
pub resets_iff :
    (now service : ℕ) (s : StormDetector)
    → ((detect_timeout_storm now service s).resets ≡ s.resets + 1)
      ↔ (AnotherTimedOut now service s.timeout_services × (is_cool now s ≡ true))
unfolding detect_timeout_storm insert
resets_iff now service s = ground (arith, other_left now service s.timeout_services)
