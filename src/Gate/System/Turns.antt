-- ===== src/Gate/System/Turns.antt =====
-- Who gets through the gate of pkg/manager/card_access_gate.go, and when.
use quectel_qmi_go.Common.{ℕ, ◌≡◌, ◌≤◌, ◌<◌, ◌⊎◌, true, false, arith}
use quectel_qmi_go.Gate.{mem, skip_canceled_locked, try_acquire, try_begin}
use quectel_qmi_go.Gate.Skip.{skip-Skipped}
use quectel_qmi_go.Gate.System.{System, Reach, Run}
use quectel_qmi_go.Gate.System.Wakeups.Steps.{run-Reach, woken}
use quectel_qmi_go.Gate.System.Exclusion.{Reach-Inv, settled_gate, acquire-Skipped, init-kept}

-- While a quiet window is held, no card operation is inside the gate, and none can enter.
pub window_excludes :
    (s : System)
    → Reach s
    → s.held ≡ true
    → (s.operations ≡ 0) × (s.gate.active ≡ 0) × ((try_acquire s.gate).0 ≡ false)
unfolding try_acquire
window_excludes s r h =
    let v = Reach-Inv r in
    let k = acquire-Skipped s v in
    (
      v.apart h,
      ground (arith, v.apart, v.counted),
      ground (arith, v.window, k.barrier, init-kept s.gate),
    )

-- While a caller of begin waits, no card operation can enter: a waiting window comes first.
pub waiting_window_first :
    (s : System) (ticket : ℕ)
    → Reach s
    → mem ticket s.waiting ≡ true
    → (try_acquire s.gate).0 ≡ false
unfolding try_acquire
waiting_window_first s ticket r w =
    let k = acquire-Skipped s (Reach-Inv r) in ground (arith, k.tickets.live ticket w)

-- With no window held and nobody waiting for one, a card operation enters, however many callers of
-- begin gave up.
pub gate_open :
    (s : System)
    → Reach s
    → s.held ≡ false
    → ((ticket : ℕ) → mem ticket s.waiting ≡ false)
    → (try_acquire s.gate).0 ≡ true
unfolding try_acquire
gate_open s r h w =
    let v = Reach-Inv r in
    let k = acquire-Skipped s v in
    let g = settled_gate s in
    ground (
      arith,
      k.barrier,
      init-kept s.gate,
      v.window,
      k.settled,
      k.tickets.ordered,
      w g.serving_ticket,
      k.tickets.covered g.serving_ticket,
    )

-- Windows are granted in the order of their tickets: the one granted is the lowest that waits.
pub windows_in_order :
    (s : System) (ticket other : ℕ)
    → Reach s
    → (try_begin s.gate ticket).0 ≡ true
    → mem other s.waiting ≡ true
    → ticket ≤ other
unfolding try_begin
windows_in_order s ticket other r h w =
    let v = Reach-Inv r in
    let k = skip-Skipped s.waiting s.gate v.tickets in ground (arith, k.tickets.live other w)

-- No wake-up is lost. When no window is held and no operation is inside, and some caller of begin
-- waits, the next try of one of those who wait succeeds; and if its try failed in any earlier state of
-- the run, the channel that it took there to wait on has been closed since.
pub window_granted :
    (s t : System) (ticket : ℕ)
    → Reach s
    → Run s t
    → t.held ≡ false
    → t.operations ≡ 0
    → mem ticket t.waiting ≡ true
    → (first : ℕ) × ((mem first t.waiting ≡ true)
        × (((try_begin t.gate first).0 ≡ true)
            × (((try_begin s.gate first).0 ≡ true) ⊎ (s.gate.signals < t.gate.signals))))
unfolding try_begin
window_granted s t ticket r run h o w =
    let v = Reach-Inv (run-Reach r run) in
    let k = skip-Skipped t.waiting t.gate v.tickets in
    let first = (skip_canceled_locked t.gate).serving_ticket in
    let waits : mem first t.waiting ≡ true =
      ground (arith, k.tickets.live ticket w, k.settled, k.tickets.covered first) in
    let granted : (try_begin t.gate first).0 ≡ true =
      ground (arith, k.barrier, v.window, k.active, v.counted) in
    (first, (waits, (granted, ground (arith, woken first r run, granted))))
