-- ===== src/Gate/System/Wakeups.antt =====
-- Tries for a ticket in pkg/manager/card_access_gate.go: what decides whether they succeed.
pub mod Steps
use quectel_qmi_go.Common.{
  ℕ, suc, ◌+◌, ◌^◌, ◌<◌, ◌≤◌, ◌≡◌, refl, List, ◌∷◌, Bool, true, false, ◌⊎◌, inl, inr, ◌==◌,
  Bool-cases, arith,
}
use quectel_qmi_go.Gate.{
  CardAccessGate, next_uint64, mem, remove, init_locked, skip_canceled_locked, try_acquire, release,
  take_ticket, try_begin, cancel, end_window,
}
use quectel_qmi_go.Gate.Skip.{Tickets, Skipped, skip-Skipped, init_locked-Tickets}
use quectel_qmi_go.Gate.System.{
  System, Step, enter, wait_outside, leave, queue, begin, wait_turn, give_up, finish, Reach, next,
  Run, stay, onward,
}
use quectel_qmi_go.Gate.System.Exclusion.{
  Inv, acquire-Skipped, settled_gate, taken-Tickets, canceled-Tickets, init-room, Step-Inv,
  Reach-Inv,
}

-- Whether a try for this ticket succeeds.
abbrev pub grants : System → ℕ → Bool
grants s ticket = (try_begin s.gate ticket).0

-- A ticket that is served, is no canceled one and stands before every other is determined by those who
-- wait.
same_turn :
    (waiting : List ℕ) (g h : CardAccessGate)
    → Tickets waiting g
    → Tickets waiting h
    → mem g.serving_ticket g.canceled ≡ false
    → mem h.serving_ticket h.canceled ≡ false
    → g.next_ticket ≡ h.next_ticket
    → g.serving_ticket ≡ h.serving_ticket
same_turn waiting g h v w eg eh en = ground (
  arith,
  eg,
  eh,
  en,
  v.covered g.serving_ticket,
  w.covered h.serving_ticket,
  v.live h.serving_ticket,
  w.live g.serving_ticket,
  v.ordered,
  w.ordered,
)

-- One more waits, behind the others.
same_turn_queued :
    (waiting : List ℕ) (n : ℕ) (g h : CardAccessGate)
    → Tickets waiting g
    → Tickets (n ∷ waiting) h
    → mem g.serving_ticket g.canceled ≡ false
    → mem h.serving_ticket h.canceled ≡ false
    → g.next_ticket ≡ n
    → h.next_ticket ≡ n + 1
    → g.serving_ticket ≡ h.serving_ticket
unfolding mem
same_turn_queued waiting n g h v w eg eh en em = ground (
  arith,
  eg,
  eh,
  en,
  em,
  v.covered g.serving_ticket,
  w.covered h.serving_ticket,
  v.live h.serving_ticket,
  w.live g.serving_ticket,
  w.live n,
  v.ordered,
  w.ordered,
)

-- The gate as a try for a ticket sees it.
abbrev pub seen : System → CardAccessGate
seen s = skip_canceled_locked s.gate

pub seen-Skipped : (s : System) → Inv s → Skipped s.waiting s.gate (seen s)
seen-Skipped s v = skip-Skipped s.waiting s.gate v.tickets

-- A try fails while an operation is inside or a window is held.
pub refused :
    (s : System) (ticket : ℕ)
    → Inv s
    → (1 ≤ s.gate.active) ⊎ (s.gate.barrier ≡ true)
    → grants s ticket ≡ false
unfolding try_begin
refused s ticket v h = let k = seen-Skipped s v in ground (arith, k.active, k.barrier, h)

-- And it depends on no more than these.
same_grant :
    (s t : System) (ticket : ℕ)
    → (seen s).active ≡ (seen t).active
    → (seen s).barrier ≡ (seen t).barrier
    → (seen s).serving_ticket ≡ (seen t).serving_ticket
    → grants s ticket ≡ grants t ticket
unfolding try_begin
same_grant s t ticket ea eb es = ground (arith, ea, eb, es)

-- A step that leaves the operations, the window and those who wait as they were.
pub unchanged_grant :
    (s t : System) (ticket : ℕ)
    → Inv s
    → Inv t
    → t.waiting ≡ s.waiting
    → t.operations ≡ s.operations
    → t.held ≡ s.held
    → (seen s).next_ticket ≡ (seen t).next_ticket
    → grants s ticket ≡ grants t ticket
unchanged_grant s t ticket v v' ew eo eh en =
    let k = seen-Skipped s v in
    let k' = seen-Skipped t v' in
    same_grant s t ticket (ground (arith, k.active, k'.active, v.counted, v'.counted, eo))
      (ground (arith, k.barrier, k'.barrier, v.window, v'.window, eh))
      (same_turn s.waiting (seen s) (seen t) k.tickets (rw ew at k'.tickets) k.settled k'.settled
        en)

-- A caller with a new ticket waits.
pub queued_grant :
    (s : System) (ticket : ℕ)
    → Inv s
    → let t = record s {
      gate = (take_ticket s.gate).1;
      waiting = (take_ticket s.gate).0 ∷ s.waiting;
    } in
      s.gate.next_ticket + 2 < 2 ^ 64 → Inv t → grants s ticket ≡ grants t ticket
unfolding take_ticket
queued_grant s ticket v room v' =
    let h = init_locked s.gate in
    let t : System = record s {
      gate = (take_ticket s.gate).1;
      waiting = (take_ticket s.gate).0 ∷ s.waiting;
    } in
    let k = seen-Skipped s v in
    let k' = seen-Skipped t v' in
    let q =
      skip-Skipped (h.next_ticket ∷ s.waiting)
        (record h { next_ticket = next_uint64 h.next_ticket })
        (taken-Tickets s.waiting h (init-room s.gate room)
          (init_locked-Tickets s.waiting s.gate v.tickets)) in
    let first : h.next_ticket ≡ (seen s).next_ticket =
      unfold init_locked in ground (arith, k.next) in
    let room' = init-room s.gate room in
    same_grant s t ticket (ground (arith, k.active, k'.active, v.counted, v'.counted))
      (ground (arith, k.barrier, k'.barrier, v.window, v'.window))
      (same_turn_queued s.waiting h.next_ticket (seen s) (seen t) k.tickets k'.tickets k.settled
        k'.settled (ground (arith, first)) (ground (arith, k'.next, q.next, room')))
