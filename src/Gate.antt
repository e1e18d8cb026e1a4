-- ===== src/Gate.antt =====
-- pkg/manager/card_access_gate.go: the gate that lets card operations through together and a quiet
-- window alone. Each function is one critical section under the gate's mutex. Of the notify channel
-- the model keeps its number: closing it and making the next one raises that.
pub mod Skip
pub mod System
use quectel_qmi_go.Common.{
  ℕ, zero, suc, ◌+◌, ◌-◌, ◌%◌, ◌^◌, List, [], ◌∷◌, Bool, true, false, not, ◌&&◌, if◌then◌else◌, ltb,
  ◌==◌, length,
}

pub record CardAccessGate : Type 0 where
  pub active : ℕ
  pub barrier : Bool
  pub next_ticket : ℕ
  pub serving_ticket : ℕ
  -- The keys of the map.
  pub canceled : List ℕ
  -- How often notifyCh was closed. A waiter holds the channel of the number at its last try.
  pub signals : ℕ

-- uint64 increment.
abbrev pub next_uint64 : ℕ → ℕ
next_uint64 n = (n + 1) % 2 ^ 64

unfoldable pub mem : ℕ → List ℕ → Bool
mem t [] = false
mem t (x ∷ xs) = if x == t then true else mem t xs

unfoldable pub remove : ℕ → List ℕ → List ℕ
remove t [] = []
remove t (x ∷ xs) = let rest = remove t xs in if x == t then rest else x ∷ rest

abbrev pub signal_locked : CardAccessGate → CardAccessGate
signal_locked g = record g { signals = g.signals + 1 }

-- initLocked; the allocation of the map shows nowhere.
unfoldable pub init_locked : CardAccessGate → CardAccessGate
init_locked g = if g.next_ticket == 0 then record g { next_ticket = 1; serving_ticket = 1 } else g

-- The loop of skipCanceledLocked. Each round takes a key out of the map.
unfoldable pub skip_loop : ℕ → CardAccessGate → CardAccessGate
skip_loop zero g = g
skip_loop (suc fuel) g =
    let rest = skip_loop fuel (record g {
      canceled = remove g.serving_ticket g.canceled;
      serving_ticket = next_uint64 g.serving_ticket;
    }) in
    if mem g.serving_ticket g.canceled then rest else g

unfoldable pub skip_canceled_locked : CardAccessGate → CardAccessGate
skip_canceled_locked g = let h = init_locked g in skip_loop (suc (length h.canceled)) h

-- One round of acquire: whether it returns, or waits on the channel.
unfoldable pub try_acquire : CardAccessGate → Bool × CardAccessGate
try_acquire g =
    let h = skip_canceled_locked (init_locked g) in
    if not h.barrier && h.next_ticket == h.serving_ticket
    then (true, record h { active = h.active + 1 })
    else (false, h)

unfoldable pub release : CardAccessGate → CardAccessGate
release g =
    let h = if ltb 0 g.active then record g { active = g.active - 1 } else g in
    if h.active == 0 then signal_locked h else h

-- begin takes a ticket.
unfoldable pub take_ticket : CardAccessGate → ℕ × CardAccessGate
take_ticket g =
    let h = init_locked g in
    (h.next_ticket, skip_canceled_locked (record h { next_ticket = next_uint64 h.next_ticket }))

-- One round of begin's loop, after a wake-up.
unfoldable pub try_begin : CardAccessGate → ℕ → Bool × CardAccessGate
try_begin g ticket =
    let h = skip_canceled_locked g in
    if not h.barrier && h.active == 0 && ticket == h.serving_ticket
    then (true, record h { serving_ticket = next_uint64 h.serving_ticket; barrier = true })
    else (false, h)

-- begin's context is done.
unfoldable pub cancel : CardAccessGate → ℕ → CardAccessGate
cancel g ticket =
    signal_locked (skip_canceled_locked (record g { canceled = ticket ∷ remove ticket g.canceled }))

-- What begin returns for the end of the window, called once.
unfoldable pub end_window : CardAccessGate → CardAccessGate
end_window g = signal_locked (record g { barrier = false })
