-- ===== src/Examples/Gates.antt =====
-- Runs of pkg/manager/card_access_gate.go: a caller of begin waits, gives up or is granted a window.
use quectel_qmi_go.Common.{ℕ, ◌≡◌, ◌≤◌, ◌<◌, ◌⊎◌, refl, [], ◌∷◌, true, false, arith}
use quectel_qmi_go.Gate.{
  mem, remove, init_locked, skip_loop, skip_canceled_locked, try_acquire, take_ticket, try_begin,
  cancel, end_window,
}
use quectel_qmi_go.Gate.System.{
  System, idle, queue, begin, give_up, finish, Reach, here, next, Run, stay, onward,
}
use quectel_qmi_go.Gate.System.Turns.{
  window_excludes, waiting_window_first, windows_in_order, window_granted,
}

-- Two callers of begin wait, with tickets 1 and 2.
abbrev two_wait : System
two_wait = record {
  gate = record {
    active = 0;
    barrier = false;
    next_ticket = 3;
    serving_ticket = 1;
    canceled = [];
    signals = 0;
  };
  operations = 0;
  waiting = 2 ∷ 1 ∷ [];
  held = false;
}

two_wait-Reach : Reach two_wait
unfolding take_ticket init_locked skip_canceled_locked skip_loop mem
two_wait-Reach = next (next here (queue idle (omega arith))) (queue _ (omega arith))

-- The first is granted its window, while the second waits.
abbrev window_held : System
window_held = record {
  gate = record {
    active = 0;
    barrier = true;
    next_ticket = 3;
    serving_ticket = 2;
    canceled = [];
    signals = 0;
  };
  operations = 0;
  waiting = 2 ∷ [];
  held = true;
}

window_held-Reach : Reach window_held
unfolding try_begin remove init_locked skip_canceled_locked skip_loop mem
window_held-Reach = next two_wait-Reach (begin two_wait 1 refl refl)

-- Both give up.
abbrev both_gone : System
both_gone = record {
  gate = record {
    active = 0;
    barrier = false;
    next_ticket = 3;
    serving_ticket = 3;
    canceled = [];
    signals = 2;
  };
  operations = 0;
  waiting = [];
  held = false;
}

both_gone-Reach : Reach both_gone
unfolding cancel remove init_locked skip_canceled_locked skip_loop mem
both_gone-Reach = next (next two_wait-Reach (give_up two_wait 2 refl)) (give_up _ 1 refl)

window_excludes_example :
    (window_held.operations ≡ 0)
    × (window_held.gate.active ≡ 0)
    × ((try_acquire window_held.gate).0 ≡ false)
window_excludes_example = window_excludes window_held window_held-Reach refl

waiting_window_first_example : (try_acquire two_wait.gate).0 ≡ false
waiting_window_first_example = waiting_window_first two_wait 2 two_wait-Reach (unfold mem in refl)

windows_in_order_example : 1 ≤ 2
unfolding try_begin init_locked skip_canceled_locked skip_loop mem
windows_in_order_example = windows_in_order two_wait 1 2 two_wait-Reach refl refl

-- The window ends, and the second can have its own.
abbrev window_over : System
window_over = record {
  gate = record {
    active = 0;
    barrier = false;
    next_ticket = 3;
    serving_ticket = 2;
    canceled = [];
    signals = 1;
  };
  operations = 0;
  waiting = 2 ∷ [];
  held = false;
}

window_ends : Run window_held window_over
unfolding end_window
window_ends = onward (stay window_held) (finish window_held refl)

window_granted_example :
    (first : ℕ) × ((mem first window_over.waiting ≡ true)
      × (((try_begin window_over.gate first).0 ≡ true)
          × (((try_begin window_held.gate first).0 ≡ true)
              ⊎ (window_held.gate.signals < window_over.gate.signals))))
unfolding mem
window_granted_example =
    window_granted window_held window_over 2 window_held-Reach window_ends refl refl refl
