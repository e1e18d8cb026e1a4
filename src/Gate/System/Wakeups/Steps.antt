-- ===== src/Gate/System/Wakeups/Steps.antt =====
-- signalLocked of pkg/manager/card_access_gate.go: no waiter misses that its turn has come.
use quectel_qmi_go.Common.{
  ℕ, suc, ◌+◌, ◌^◌, ◌<◌, ◌≤◌, ◌≡◌, refl, ◌∷◌, true, false, ◌⊎◌, inl, inr, ◌==◌, Bool-cases, arith,
}
use quectel_qmi_go.Gate.{
  CardAccessGate, next_uint64, mem, remove, init_locked, try_acquire, release, take_ticket,
  try_begin, cancel, end_window,
}
use quectel_qmi_go.Gate.Skip.{skip-Skipped, init_locked-Tickets}
use quectel_qmi_go.Gate.System.{
  System, Step, enter, wait_outside, leave, queue, begin, wait_turn, give_up, finish, Reach, next,
  Run, stay, onward,
}
use quectel_qmi_go.Gate.System.Exclusion.{
  Inv, acquire-Skipped, settled_gate, taken-Tickets, canceled-Tickets, init-room, Reach-Inv,
}
use quectel_qmi_go.Gate.System.Wakeups.{
  grants, seen, seen-Skipped, refused, unchanged_grant, queued_grant,
}

abbrev signals : System → ℕ
signals s = s.gate.signals

-- What a step makes of the number of the channel and of a try.
abbrev Woken : ℕ → System → System → Type 0
Woken ticket s t =
    (signals s ≤ signals t)
    × ((signals s < signals t) ⊎ ((grants t ticket ≡ false) ⊎ (grants s ticket ≡ grants t ticket)))

cancel-signals :
    (s : System) (ticket : ℕ)
    → mem ticket s.waiting ≡ true
    → Inv s
    → s.gate.signals < (cancel s.gate ticket).signals
unfolding cancel
cancel-signals s ticket w v =
    let k =
      skip-Skipped (remove ticket s.waiting)
        (record s.gate { canceled = ticket ∷ remove ticket s.gate.canceled })
        (canceled-Tickets s.waiting s.gate ticket w v.tickets) in
    omega (arith, k.signals)

init-signals : (g : CardAccessGate) → (init_locked g).signals ≡ g.signals
unfolding init_locked
init-signals g = ground arith

acquired-signals : (s : System) → Inv s → (settled_gate s).signals ≡ s.gate.signals
acquired-signals s v = ground (arith, (acquire-Skipped s v).signals, init-signals s.gate)

acquired-next : (s : System) → Inv s → (seen s).next_ticket ≡ (settled_gate s).next_ticket
unfolding init_locked
acquired-next s v = ground (arith, (acquire-Skipped s v).next, (seen-Skipped s v).next)

enter-Woken :
    (s : System) (ticket : ℕ) (t : System)
    → t ≡ record s { gate = (try_acquire s.gate).1; operations = s.operations + 1 }
    → (try_acquire s.gate).0 ≡ true
    → Inv s
    → Inv t
    → Woken ticket s t
unfolding try_acquire
enter-Woken s ticket t e h v v' = (
  ground (arith, e, h, acquired-signals s v),
  inr (inl (refused t ticket v' (inl (ground (arith, e, v'.counted))))),
)

wait_outside-Woken :
    (s : System) (ticket : ℕ)
    → (try_acquire s.gate).0 ≡ false
    → Inv s
    → let t = record s { gate = (try_acquire s.gate).1 } in Inv t → Woken ticket s t
unfolding try_acquire init_locked
wait_outside-Woken s ticket h v v' =
    let t : System = record s { gate = (try_acquire s.gate).1 } in
    let k' = seen-Skipped t v' in
    (
      ground (arith, h, acquired-signals s v),
      inr (
          inr (
            unchanged_grant s t ticket v v' refl refl refl
              (ground (arith, h, acquired-next s v, k'.next, (acquire-Skipped s v).next)))),
    )

leave-Woken :
    (s : System) (ticket n : ℕ)
    → s.operations ≡ suc n
    → Inv s
    → let t = record s { gate = release s.gate; operations = n } in Inv t → Woken ticket s t
unfolding release
leave-Woken s ticket n h v v' =
    let t : System = record s { gate = release s.gate; operations = n } in
    let mono : signals s ≤ signals t = ground arith in
    (
      mono,
      elim (Bool-cases (n == 0)) [
        | inl e ↦ inl (ground (arith, e, h, v.counted))
        | inr e ↦ inr (inl (refused t ticket v' (inl (ground (arith, e, v'.counted)))))
      ],
    )

wait_turn-Woken :
    (s : System) (turn ticket : ℕ)
    → (try_begin s.gate turn).0 ≡ false
    → Inv s
    → let t = record s { gate = (try_begin s.gate turn).1 } in Inv t → Woken ticket s t
unfolding try_begin
wait_turn-Woken s turn ticket h v v' =
    let t : System = record s { gate = (try_begin s.gate turn).1 } in
    let k = seen-Skipped s v in
    let k' = seen-Skipped t v' in
    (
      ground (arith, h, k.signals),
      inr (
          inr
            (unchanged_grant s t ticket v v' refl refl refl (ground (arith, h, k.next, k'.next)))),
    )

begin-Woken :
    (s : System) (turn ticket : ℕ)
    → (try_begin s.gate turn).0 ≡ true
    → Inv s
    → let t = record s {
      gate = (try_begin s.gate turn).1;
      waiting = remove turn s.waiting;
      held = true;
    } in
      Inv t → Woken ticket s t
unfolding try_begin
begin-Woken s turn ticket h v v' = (
  ground (arith, h, (seen-Skipped s v).signals),
  inr (
      inl (
        refused
          (record s {
            gate = (try_begin s.gate turn).1;
            waiting = remove turn s.waiting;
            held = true;
          })
          ticket v' (inr v'.window))),
)

queue-Woken :
    (s : System) (ticket : ℕ)
    → s.gate.next_ticket + 2 < 2 ^ 64
    → Inv s
    → let t = record s {
      gate = (take_ticket s.gate).1;
      waiting = (take_ticket s.gate).0 ∷ s.waiting;
    } in
      Inv t → Woken ticket s t
unfolding take_ticket
queue-Woken s ticket room v v' =
    let h = init_locked s.gate in
    let q =
      skip-Skipped (h.next_ticket ∷ s.waiting)
        (record h { next_ticket = next_uint64 h.next_ticket })
        (taken-Tickets s.waiting h (init-room s.gate room)
          (init_locked-Tickets s.waiting s.gate v.tickets)) in
    (ground (arith, q.signals, init-signals s.gate), inr (inr (queued_grant s ticket v room v')))

Step-Woken : {s t : System} (ticket : ℕ) → Step s t → Inv s → Inv t → Woken ticket s t
unfolding end_window
Step-Woken ticket (enter s h) v v' = enter-Woken s ticket _ refl h v v'
Step-Woken ticket (wait_outside s h) v v' = wait_outside-Woken s ticket h v v'
Step-Woken ticket (leave s n h) v v' = leave-Woken s ticket n h v v'
Step-Woken ticket (queue s h) v v' = queue-Woken s ticket h v v'
Step-Woken ticket (begin s turn w h) v v' = begin-Woken s turn ticket h v v'
Step-Woken ticket (wait_turn s turn w h) v v' = wait_turn-Woken s turn ticket h v v'
Step-Woken ticket (give_up s turn w) v v' =
    let more = cancel-signals s turn w v in (omega (arith, more), inl more)
Step-Woken ticket (finish s h) v v' = (omega arith, inl (omega arith))

pub run-Reach : {s t : System} → Reach s → Run s t → Reach t
run-Reach r (stay s) = r
run-Reach r (onward run st) = next (run-Reach r run) st

-- A try that fails and would succeed later: the channel that the waiter took at the failed try has
-- been closed meanwhile.
pub woken :
    {s t : System} (ticket : ℕ)
    → Reach s
    → Run s t
    → (signals s ≤ signals t)
      × ((signals s < signals t) ⊎ ((grants t ticket ≡ false) ⊎ (grants s ticket ≡ true)))
woken ticket r (stay s) = (omega arith, inr (ground arith))
woken ticket r (onward {s} {t} {u} run st) =
    let before = woken ticket r run in
    let reached = run-Reach r run in
    let step = Step-Woken ticket st (Reach-Inv reached) (Reach-Inv (next reached st)) in
    (omega (arith, before.0, step.0), ground (arith, before, step))
