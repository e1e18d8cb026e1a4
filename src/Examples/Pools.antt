-- ===== src/Examples/Pools.antt =====
-- Runs of pkg/manager/pool.go.
use quectel_qmi_go.Common.{
  ℕ, List, ◌==◌, length, ◌≡◌, ◌<◌, refl, [], ◌∷◌, true, if◌then◌else◌, get_elem?, lookup, delete,
  insert, ℕ_discrete, none, some, arith,
}
use quectel_qmi_go.Connection.{connected}
use quectel_qmi_go.Pool.{
  Modem, query_failed, rssi, ModemPool, exists, enter, drop_modem, remove_loop, add_loop,
  scan_for_changes,
}
use quectel_qmi_go.Pool.Scan.{modems_scanned}
use quectel_qmi_go.Pool.Selectors.{signal_strength}
use quectel_qmi_go.Pool.Selectors.Strongest.{strength, NoneAbove, strongest_selected}
use quectel_qmi_go.Pool.Selectors.Turns.{choice, every_position_chosen}

abbrev weak : Modem
weak = record { id = 0; state = connected; signal = rssi 20 }

abbrev silent : Modem
silent = record { id = 1; state = connected; signal = query_failed }

abbrev strong : Modem
strong = record { id = 2; state = connected; signal = rssi 60 }

abbrev pool : ModemPool
pool = record {
  modems = (10, weak) ∷ (11, silent) ∷ [];
  health_status = [];
  created = 3;
  started = [];
  stopped = [];
  disconnects = 0;
}

-- One modem goes, another comes.
pool_scanned :
    let after = scan_for_changes (some (12 ∷ 10 ∷ [])) pool in
    (after.stopped ≡ 1 ∷ []) × (after.started ≡ 3 ∷ [])
unfolding scan_for_changes remove_loop add_loop drop_modem enter lookup delete ℕ_discrete insert
pool_scanned = (refl, refl)

modems_scanned_example :
    let after = scan_for_changes (some (12 ∷ 10 ∷ [])) pool in
    (exists after 10 ≡ true)
    × ((if exists pool 10 then lookup ℕ_discrete after.modems 10 else none) ≡ some weak)
unfolding lookup ℕ_discrete
modems_scanned_example = modems_scanned (12 ∷ 10 ∷ []) pool 10

strongest_selected_example :
    (best : Modem) × ((i : ℕ) × ((signal_strength (weak ∷ silent ∷ strong ∷ []) ≡ some best)
        × ((get_elem? (weak ∷ silent ∷ strong ∷ []) i ≡ some best)
            × NoneAbove (strength best.signal) (weak ∷ silent ∷ strong ∷ []))))
strongest_selected_example = strongest_selected weak (silent ∷ strong ∷ [])

-- The order differs from choice to choice.
abbrev reordered : ℕ → List Modem
reordered k = if k == 1 then strong ∷ weak ∷ silent ∷ [] else weak ∷ silent ∷ strong ∷ []

three_each : (k : ℕ) → length (reordered k) ≡ 3
three_each k = ground arith

every_position_chosen_example :
    (k : ℕ) × ((k < 3) × (choice k reordered 7 ≡ get_elem? (reordered k) 2))
every_position_chosen_example =
    every_position_chosen reordered 2 7 2 three_each (ground arith) (ground arith)
