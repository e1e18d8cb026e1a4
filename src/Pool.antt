-- ===== src/Pool.antt =====
-- pkg/manager/pool.go: several modems under their names, and the scan for those that come and go. A name
-- is a number, and the list of modems is the map in the order of its iteration.
pub mod Scan
pub mod Selectors
use quectel_qmi_go.Common.{
  ℕ, ◌+◌, List, [], ◌∷◌, Bool, true, false, not, ◌||◌, if◌then◌else◌, ◌==◌, length, Option, none,
  some, lookup, insert, delete, ℕ_discrete,
}
use quectel_qmi_go.Connection.{State, disconnected, is_connected}

-- What the signal query of a manager gives: none, if it has no NAS service. An int8 shows as its value
-- plus 128, so that -128 is 0.
pub data Signal : Type 0 where
  no_service query_failed : Signal
  rssi : ℕ → Signal

-- A manager, numbered in the order of creation.
pub record Modem : Type 0 where
  pub id : ℕ
  pub state : State
  pub signal : Signal

pub record HealthStatus : Type 0 where
  pub connected : Bool
  pub signal_rssi : ℕ
  pub last_check : ℕ
  pub failed : Bool

-- `created` counts the managers made, `started` and `stopped` are logs of their numbers, newest first,
-- and `disconnects` counts the events that the scan emits.
pub record ModemPool : Type 0 where
  pub modems : List (ℕ × Modem)
  pub health_status : List (ℕ × HealthStatus)
  pub created : ℕ
  pub started : List ℕ
  pub stopped : List ℕ
  pub disconnects : ℕ

abbrev pub is_some {ℓ} : {A : Type ℓ} → Option A → Bool
is_some none = false
is_some (some a) = true

abbrev pub exists : ModemPool → ℕ → Bool
exists p name = is_some (lookup ℕ_discrete p.modems name)

-- New, and the entry of it in the map.
unfoldable pub enter : ℕ → ModemPool → ModemPool
enter name p =
    let mgr : Modem = record { id = p.created; state = disconnected; signal = no_service } in
    record p { modems = insert ℕ_discrete p.modems name mgr; created = p.created + 1 }

-- The manager, or `none` for the error.
unfoldable pub add : ℕ → ModemPool → Option Modem × ModemPool
unfolding enter
add name p =
    if exists p name
    then (none, p)
    else (lookup ℕ_discrete (enter name p).modems name, enter name p)

-- Whether the modem was there.
unfoldable pub remove : ℕ → ModemPool → Bool × ModemPool
remove name p = elim (lookup ℕ_discrete p.modems name) [
  | none ↦ (false, p)
  | some mgr ↦
      (true, record p { modems = delete ℕ_discrete p.modems name; stopped = mgr.id ∷ p.stopped })
]

-- Of the modems in the order in which the range over the map takes them.
unfoldable pub connected_of : List (ℕ × Modem) → List Modem
connected_of [] = []
connected_of ((name, m) ∷ ms) =
    let rest = connected_of ms in if is_connected m.state then m ∷ rest else rest

-- Select of a Selector, whose own state is left out, and the orders of the two ranges over the map,
-- which may be any in each call. The modems are not empty.
unfoldable pub get :
    (order any_order : List (ℕ × Modem) → List (ℕ × Modem))
    → (List Modem → Option Modem)
    → ModemPool
    → Option Modem
unfolding connected_of
get order any_order select p = elim (connected_of (order p.modems)) [
  | [] ↦ elim (any_order p.modems) [ [] ↦ none | m ∷ ms ↦ some (m.1) ]
  | m ∷ ms ↦ select (m ∷ ms)
]

abbrev pub health_of : ℕ → Modem → HealthStatus
health_of now m = record {
  connected = is_connected m.state;
  signal_rssi = elim m.signal [ rssi r ↦ r | no_service ↦ 128 | query_failed ↦ 128 ];
  last_check = now;
  failed = elim m.signal [ query_failed ↦ true | no_service ↦ false | rssi r ↦ false ];
}

-- The loop over the modems that were there when the check began.
unfoldable pub check_loop : ℕ → List (ℕ × Modem) → ModemPool → ModemPool
check_loop now [] p = p
check_loop now ((name, m) ∷ ms) p =
    check_loop now ms
      (record p { health_status = insert ℕ_discrete p.health_status name (health_of now m) })

unfoldable pub check_health : ℕ → ModemPool → ModemPool
unfolding check_loop
check_health now p = check_loop now p.modems p

abbrev pub is_listed : List ℕ → ℕ → Bool
is_listed [] name = false
is_listed (d ∷ ds) name = d == name || is_listed ds name

unfoldable pub drop_modem : ℕ → Modem → ModemPool → ModemPool
drop_modem name m p = record p {
  modems = delete ℕ_discrete p.modems name;
  health_status = delete ℕ_discrete p.health_status name;
  stopped = m.id ∷ p.stopped;
  disconnects = p.disconnects + 1;
}

-- The modems that are no longer there.
unfoldable pub remove_loop : List ℕ → List (ℕ × Modem) → ModemPool → ModemPool
remove_loop ds [] p = p
remove_loop ds ((name, m) ∷ ms) p =
    remove_loop ds ms (if is_listed ds name then p else drop_modem name m p)

-- The new ones, each started in a goroutine of its own.
unfoldable pub add_loop : List ℕ → ModemPool → ModemPool
add_loop [] p = p
add_loop (d ∷ ds) p =
    add_loop ds (if exists p d then p else record (enter d p) { started = p.created ∷ p.started })

-- The names of the discovered interfaces, `none` if the discovery fails or there is none.
unfoldable pub scan_for_changes : Option (List ℕ) → ModemPool → ModemPool
unfolding remove_loop add_loop
scan_for_changes none p = p
scan_for_changes (some ds) p = add_loop ds (remove_loop ds p.modems p)
