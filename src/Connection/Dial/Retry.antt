-- ===== src/Connection/Dial/Retry.antt =====
-- pkg/manager/manager.go, handleDialFailure: the delays of the retries of one outage.
use quectel_qmi_go.Common.{
  ℕ, zero, suc, ◌+◌, ◌-◌, ◌≡◌, List, [], ◌∷◌, ◌++◌, true, ◌&&◌, if◌then◌else◌, ltb, leb, length,
  get_or, arith,
}
use quectel_qmi_go.Connection.{
  start_after, Timer, Call, radio_reset, Config, Manager, set_state, emit_event, call,
  schedule_after,
}
use quectel_qmi_go.Connection.Dial.{handle_dial_failure}

-- n failed dials.
unfoldable pub failures : ℕ → Config → Manager → Manager
failures zero cfg m = m
failures (suc n) cfg m = handle_dial_failure cfg (failures n cfg m)

-- The delay of the n-th retry, counted from 0: the list's, and its last once it is used up.
abbrev pub delay_of : List ℕ → ℕ → ℕ
delay_of delays n =
    if ltb n (length delays) then get_or delays n 0 else get_or delays (length delays - 1) 0

-- The timers of n retries, the latest first.
abbrev pub retry_timers : List ℕ → ℕ → List Timer
retry_timers delays zero = []
retry_timers delays (suc n) = start_after (delay_of delays n) ∷ retry_timers delays n

abbrev pub radio_resets : List Call → ℕ
radio_resets [] = 0
radio_resets (radio_reset ∷ cs) = suc (radio_resets cs)
radio_resets (c ∷ cs) = radio_resets cs

radio_resets-append :
    (xs ys : List Call) → radio_resets (xs ++ ys) ≡ radio_resets xs + radio_resets ys
radio_resets-append [] ys = omega arith
radio_resets-append (radio_reset ∷ xs) ys = omega (arith, radio_resets-append xs ys)
radio_resets-append (Call.stop_any ∷ xs) ys = radio_resets-append xs ys
radio_resets-append (Call.start_v4 ∷ xs) ys = radio_resets-append xs ys
radio_resets-append (Call.start_v6 ∷ xs) ys = radio_resets-append xs ys
radio_resets-append (Call.stop_v4 h ∷ xs) ys = radio_resets-append xs ys
radio_resets-append (Call.stop_v6 h ∷ xs) ys = radio_resets-append xs ys

-- What n failed dials after a success have done.
abbrev Backed : Config → Manager → ℕ → Manager → Type 0
Backed cfg m n m' =
    (m'.retry_count ≡ n)
    × ((m'.retry_delays ≡ m.retry_delays)
        × ((m'.desired_connection ≡ true)
            × ((m'.timers ≡ retry_timers m.retry_delays n ++ m.timers)
                × (radio_resets m'.calls
                    ≡ radio_resets m.calls
                      + (if ltb 0 cfg.radio_reset_after && leb cfg.radio_reset_after n
                          then 1
                          else 0)))))

failure-Backed :
    (cfg : Config) (m m' : Manager) (n : ℕ)
    → cfg.auto_reconnect ≡ true
    → Backed cfg m n m'
    → Backed cfg m (suc n) (handle_dial_failure cfg m')
unfolding handle_dial_failure set_state emit_event call schedule_after
failure-Backed cfg m m' n ea (ec, (er, (ed, (et, ek)))) =
    ground (arith, ea, ec, er, ed, et, ek, radio_resets-append m'.calls (radio_reset ∷ []))

failures-Backed :
    (cfg : Config) (m : Manager) (n : ℕ)
    → cfg.auto_reconnect ≡ true
    → m.desired_connection ≡ true
    → m.retry_count ≡ 0
    → Backed cfg m n (failures n cfg m)
unfolding failures
failures-Backed cfg m zero ea ed ec = ground (arith, ed, ec)
failures-Backed cfg m (suc n) ea ed ec =
    failure-Backed cfg m (failures n cfg m) n ea (failures-Backed cfg m n ea ed ec)

-- The first n dials after a success fail, with the manager set to reconnect: the n-th retry is
-- scheduled after the n-th delay of the list, or after its last once the list is used up, one timer
-- for each failure, and the radio is reset once, at the configured failure.
pub failures_back_off :
    (cfg : Config) (m : Manager) (n : ℕ)
    → cfg.auto_reconnect ≡ true
    → m.desired_connection ≡ true
    → m.retry_count ≡ 0
    → ((failures n cfg m).timers ≡ retry_timers m.retry_delays n ++ m.timers)
      × (radio_resets (failures n cfg m).calls
          ≡ radio_resets m.calls
            + (if ltb 0 cfg.radio_reset_after && leb cfg.radio_reset_after n then 1 else 0))
failures_back_off cfg m n ea ed ec =
    let h = failures-Backed cfg m n ea ed ec in (h.1.1.1.0, h.1.1.1.1)
