-- ===== src/Gate/System/Exclusion.antt =====
-- What holds of the gate of pkg/manager/card_access_gate.go under every interleaving of its users.
use quectel_qmi_go.Common.{ℕ, suc, ◌+◌, ◌^◌, ◌≡◌, ◌<◌, refl, List, ◌∷◌, true, false, arith}
use quectel_qmi_go.Gate.{
  CardAccessGate, next_uint64, mem, remove, init_locked, skip_canceled_locked, try_acquire, release,
  take_ticket, try_begin, cancel, end_window,
}
use quectel_qmi_go.Gate.Skip.{Tickets, Skipped, skip-Skipped, init_locked-Tickets, mem-remove}
use quectel_qmi_go.Gate.System.{
  System, idle, Step, enter, wait_outside, leave, queue, begin, wait_turn, give_up, finish, Reach,
  here, next,
}

-- The tickets depend on three fields of the gate.
Tickets-same :
    (waiting : List ℕ) (g h : CardAccessGate)
    → h.next_ticket ≡ g.next_ticket
    → h.serving_ticket ≡ g.serving_ticket
    → h.canceled ≡ g.canceled
    → Tickets waiting g
    → Tickets waiting h
Tickets-same waiting g h n s c v = record {
  bound = ground (arith, v.bound);
  ordered = ground (arith, v.ordered);
  live = λ t m. ground (arith, v.live t m);
  dead = λ t m. ground (arith, v.dead t);
  covered = λ t a b. ground (arith, v.covered t);
}

pub record Inv (s : System) : Type 0 where
  pub tickets : Tickets s.waiting s.gate
  pub counted : s.gate.active ≡ s.operations
  pub window : s.gate.barrier ≡ s.held
  pub apart : s.held ≡ true → s.operations ≡ 0

idle-Inv : Inv idle
unfolding mem
idle-Inv = record {
  tickets = record {
    bound = omega arith;
    ordered = omega arith;
    live = λ t m. absurd (ground arith);
    dead = λ t m. absurd (ground arith);
    covered = λ t a b. absurd (omega arith);
  };
  counted = refl;
  window = refl;
  apart = λ h. refl;
}

-- What the rounds of acquire and begin make of the gate.
abbrev pub settled_gate : System → CardAccessGate
settled_gate s = skip_canceled_locked (init_locked s.gate)

pub acquire-Skipped : (s : System) → Inv s → Skipped s.waiting (init_locked s.gate) (settled_gate s)
acquire-Skipped s v =
    skip-Skipped s.waiting (init_locked s.gate) (init_locked-Tickets s.waiting s.gate v.tickets)

pub init-kept :
    (g : CardAccessGate)
    → ((init_locked g).active ≡ g.active) × ((init_locked g).barrier ≡ g.barrier)
unfolding init_locked
init-kept g = ground arith

enter-Inv :
    (s : System)
    → (try_acquire s.gate).0 ≡ true
    → Inv s
    → Inv (record s { gate = (try_acquire s.gate).1; operations = s.operations + 1 })
unfolding try_acquire
enter-Inv s h v =
    let k = acquire-Skipped s v in
    let i = init-kept s.gate in
    record {
      tickets =
          Tickets-same s.waiting (settled_gate s) _ (ground arith) (ground arith) (ground arith)
            k.tickets;
      counted = ground (arith, k.active, i, v.counted);
      window = ground (arith, k.barrier, i, v.window);
      apart = λ q. ground (arith, k.barrier, i, v.window);
    }

wait_outside-Inv :
    (s : System)
    → (try_acquire s.gate).0 ≡ false
    → Inv s
    → Inv (record s { gate = (try_acquire s.gate).1 })
unfolding try_acquire
wait_outside-Inv s h v =
    let k = acquire-Skipped s v in
    let i = init-kept s.gate in
    record {
      tickets =
          Tickets-same s.waiting (settled_gate s) _ (ground arith) (ground arith) (ground arith)
            k.tickets;
      counted = ground (arith, k.active, i, v.counted);
      window = ground (arith, k.barrier, i, v.window);
      apart = v.apart;
    }

leave-Inv :
    (s : System) (n : ℕ)
    → s.operations ≡ suc n
    → Inv s
    → Inv (record s { gate = release s.gate; operations = n })
unfolding release
leave-Inv s n h v = record {
  tickets = Tickets-same s.waiting s.gate _ (ground arith) (ground arith) (ground arith) v.tickets;
  counted = ground (arith, v.counted);
  window = ground (arith, v.window);
  apart = λ q. ground (arith, v.apart);
}

-- A new ticket, before canceled ones are skipped.
pub taken-Tickets :
    (waiting : List ℕ) (g : CardAccessGate)
    → g.next_ticket + 1 < 2 ^ 64
    → Tickets waiting g
    → Tickets (g.next_ticket ∷ waiting) (record g { next_ticket = next_uint64 g.next_ticket })
unfolding mem
taken-Tickets waiting g room v =
    let e : next_uint64 g.next_ticket ≡ g.next_ticket + 1 = omega arith in
    record {
      bound = omega (arith, e);
      ordered = omega (arith, e, v.ordered);
      live = λ t m. ground (arith, e, v.live t, v.ordered);
      dead = λ t m. ground (arith, e, v.dead t);
      covered = λ t a b. ground (arith, e, v.covered t);
    }

pub init-room :
    (g : CardAccessGate) → g.next_ticket + 2 < 2 ^ 64 → (init_locked g).next_ticket + 1 < 2 ^ 64
unfolding init_locked
init-room g h = ground arith

queue-Inv :
    (s : System)
    → s.gate.next_ticket + 2 < 2 ^ 64
    → Inv s
    → Inv (record s { gate = (take_ticket s.gate).1; waiting = (take_ticket s.gate).0 ∷ s.waiting })
unfolding take_ticket
queue-Inv s room v =
    let h = init_locked s.gate in
    let i = init-kept s.gate in
    let k =
      skip-Skipped (h.next_ticket ∷ s.waiting)
        (record h { next_ticket = next_uint64 h.next_ticket })
        (taken-Tickets s.waiting h (init-room s.gate room)
          (init_locked-Tickets s.waiting s.gate v.tickets)) in
    record {
      tickets = k.tickets;
      counted = ground (arith, k.active, i, v.counted);
      window = ground (arith, k.barrier, i, v.window);
      apart = v.apart;
    }

-- The ticket served leaves the queue.
served-Tickets :
    (waiting : List ℕ) (h : CardAccessGate) (ticket : ℕ)
    → Tickets waiting h
    → mem h.serving_ticket h.canceled ≡ false
    → ticket ≡ h.serving_ticket
    → mem ticket waiting ≡ true
    → Tickets
        (remove ticket waiting)
        (record h { serving_ticket = next_uint64 h.serving_ticket; barrier = true })
served-Tickets waiting h ticket v settled turn w =
    let first = v.live ticket w in
    let e : next_uint64 h.serving_ticket ≡ h.serving_ticket + 1 = omega (arith, v.bound) in
    record {
      bound = v.bound;
      ordered = omega (arith, e, first);
      live = λ t m. ground (arith, e, v.live t, mem-remove t ticket waiting);
      dead = λ t m. ground (arith, e, v.dead t, settled, mem-remove t ticket waiting);
      covered = λ t a b. ground (arith, e, v.covered t, mem-remove t ticket waiting);
    }

begin-Inv :
    (s : System) (ticket : ℕ)
    → mem ticket s.waiting ≡ true
    → (try_begin s.gate ticket).0 ≡ true
    → Inv s
    → Inv (record s {
      gate = (try_begin s.gate ticket).1;
      waiting = remove ticket s.waiting;
      held = true;
    })
unfolding try_begin
begin-Inv s ticket w h v =
    let g = skip_canceled_locked s.gate in
    let k = skip-Skipped s.waiting s.gate v.tickets in
    let turn : ticket ≡ g.serving_ticket = ground arith in
    record {
      tickets =
          Tickets-same (remove ticket s.waiting)
            (record g { serving_ticket = next_uint64 g.serving_ticket; barrier = true }) _
            (ground arith) (ground arith) (ground arith)
            (served-Tickets s.waiting g ticket k.tickets k.settled turn w);
      counted = ground (arith, k.active, v.counted);
      window = ground arith;
      apart = λ q. ground (arith, k.active, v.counted);
    }

wait_turn-Inv :
    (s : System) (ticket : ℕ)
    → (try_begin s.gate ticket).0 ≡ false
    → Inv s
    → Inv (record s { gate = (try_begin s.gate ticket).1 })
unfolding try_begin
wait_turn-Inv s ticket h v =
    let k = skip-Skipped s.waiting s.gate v.tickets in
    record {
      tickets =
          Tickets-same s.waiting (skip_canceled_locked s.gate) _ (ground arith) (ground arith)
            (ground arith) k.tickets;
      counted = ground (arith, k.active, v.counted);
      window = ground (arith, k.barrier, v.window);
      apart = v.apart;
    }

pub canceled-Tickets :
    (waiting : List ℕ) (g : CardAccessGate) (ticket : ℕ)
    → mem ticket waiting ≡ true
    → Tickets waiting g
    → Tickets (remove ticket waiting) (record g { canceled = ticket ∷ remove ticket g.canceled })
unfolding mem
canceled-Tickets waiting g ticket w v = record {
  bound = v.bound;
  ordered = v.ordered;
  live = λ t m. ground (arith, v.live t, mem-remove t ticket waiting);
  dead = λ t m. ground (
    arith,
    v.live ticket w,
    v.dead t,
    mem-remove t ticket waiting,
    mem-remove t ticket g.canceled,
  );
  covered = λ t a b.
      ground (arith, v.covered t, mem-remove t ticket waiting, mem-remove t ticket g.canceled);
}

give_up-Inv :
    (s : System) (ticket : ℕ)
    → mem ticket s.waiting ≡ true
    → Inv s
    → Inv (record s { gate = cancel s.gate ticket; waiting = remove ticket s.waiting })
unfolding cancel
give_up-Inv s ticket w v =
    let canceled = record s.gate { canceled = ticket ∷ remove ticket s.gate.canceled } in
    let k =
      skip-Skipped (remove ticket s.waiting) canceled
        (canceled-Tickets s.waiting s.gate ticket w v.tickets) in
    record {
      tickets =
          Tickets-same (remove ticket s.waiting) (skip_canceled_locked canceled) _ refl refl refl
            k.tickets;
      counted = ground (arith, k.active, v.counted);
      window = ground (arith, k.barrier, v.window);
      apart = v.apart;
    }

finish-Inv : (s : System) → Inv s → Inv (record s { gate = end_window s.gate; held = false })
unfolding end_window
finish-Inv s v = record {
  tickets = Tickets-same s.waiting s.gate _ refl refl refl v.tickets;
  counted = v.counted;
  window = refl;
  apart = λ q. absurd (ground arith);
}

pub Step-Inv : {s t : System} → Step s t → Inv s → Inv t
Step-Inv (enter s h) v = enter-Inv s h v
Step-Inv (wait_outside s h) v = wait_outside-Inv s h v
Step-Inv (leave s n h) v = leave-Inv s n h v
Step-Inv (queue s h) v = queue-Inv s h v
Step-Inv (begin s ticket w h) v = begin-Inv s ticket w h v
Step-Inv (wait_turn s ticket w h) v = wait_turn-Inv s ticket h v
Step-Inv (give_up s ticket w) v = give_up-Inv s ticket w v
Step-Inv (finish s h) v = finish-Inv s v

pub Reach-Inv : {s : System} → Reach s → Inv s
Reach-Inv here = idle-Inv
Reach-Inv (next r st) = Step-Inv st (Reach-Inv r)
