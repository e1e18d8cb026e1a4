-- ===== src/Gate/System.antt =====
-- The gate of pkg/manager/card_access_gate.go with those who use it: the operations inside, the
-- callers of begin that wait, and the holder of the quiet window.
pub mod Exclusion
pub mod Wakeups
pub mod Turns
use quectel_qmi_go.Common.{ℕ, zero, suc, ◌+◌, ◌<◌, ◌^◌, ◌≡◌, List, [], ◌∷◌, Bool, true, false}
use quectel_qmi_go.Gate.{
  CardAccessGate, mem, remove, try_acquire, release, take_ticket, try_begin, cancel, end_window,
}

pub record System : Type 0 where
  pub gate : CardAccessGate
  pub operations : ℕ
  pub waiting : List ℕ
  pub held : Bool

abbrev pub idle : System
idle = record {
  gate = record {
    active = 0;
    barrier = false;
    next_ticket = 0;
    serving_ticket = 0;
    canceled = [];
    signals = 0;
  };
  operations = 0;
  waiting = [];
  held = false;
}

-- One critical section of one goroutine. A begin that takes the last of 2^64 tickets is left out.
pub data Step : System → System → Type 0 where
  enter :
      (s : System)
      → (try_acquire s.gate).0 ≡ true
      → Step s (record s { gate = (try_acquire s.gate).1; operations = s.operations + 1 })
  wait_outside :
      (s : System)
      → (try_acquire s.gate).0 ≡ false
      → Step s (record s { gate = (try_acquire s.gate).1 })
  leave :
      (s : System) (n : ℕ)
      → s.operations ≡ suc n
      → Step s (record s { gate = release s.gate; operations = n })
  queue :
      (s : System)
      → s.gate.next_ticket + 2 < 2 ^ 64
      → Step s
          (record s { gate = (take_ticket s.gate).1; waiting = (take_ticket s.gate).0 ∷ s.waiting })
  begin :
      (s : System) (ticket : ℕ)
      → mem ticket s.waiting ≡ true
      → (try_begin s.gate ticket).0 ≡ true
      → Step s (record s {
        gate = (try_begin s.gate ticket).1;
        waiting = remove ticket s.waiting;
        held = true;
      })
  wait_turn :
      (s : System) (ticket : ℕ)
      → mem ticket s.waiting ≡ true
      → (try_begin s.gate ticket).0 ≡ false
      → Step s (record s { gate = (try_begin s.gate ticket).1 })
  give_up :
      (s : System) (ticket : ℕ)
      → mem ticket s.waiting ≡ true
      → Step s (record s { gate = cancel s.gate ticket; waiting = remove ticket s.waiting })
  finish :
      (s : System) → s.held ≡ true → Step s (record s { gate = end_window s.gate; held = false })

pub data Reach : System → Type 0 where
  here : Reach idle
  next : {s t : System} → Reach s → Step s t → Reach t

pub data Run : System → System → Type 0 where
  stay : (s : System) → Run s s
  onward : {s t u : System} → Run s t → Step t u → Run s u
