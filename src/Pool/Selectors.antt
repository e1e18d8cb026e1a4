-- ===== src/Pool/Selectors.antt =====
-- pkg/manager/pool.go: the strategies that choose among the connected modems.
pub mod Strongest
pub mod Turns
use quectel_qmi_go.Common.{
  ℕ, zero, suc, ◌+◌, ◌-◌, ◌*◌, ◌/◌, ◌%◌, ◌^◌, ◌≤◌, ◌<◌, ◌≡◌, refl, sym, ap, ◌∙◌, List, [], ◌∷◌,
  Bool, true, false, if◌then◌else◌, ltb, ◌==◌, length, get_elem?, Option, none, some, ◌⊎◌, inl, inr,
  lookup, insert, ℕ_discrete, if_either, elim_either, option_either, arith,
}
use quectel_qmi_go.Connection.{State}
use quectel_qmi_go.Pool.{Modem, Signal, no_service, query_failed, rssi}

-- The counter is a uint64; the new one is in the second component.
unfoldable pub round_robin : List Modem → ℕ → Option Modem × ℕ
round_robin [] counter = (none, counter)
round_robin (m ∷ ms) counter =
    let next = (counter + 1) % 2 ^ 64 in (get_elem? (m ∷ ms) (next % length (m ∷ ms)), next)

-- rand.Intn gives any number below its argument, here `draw % n`.
unfoldable pub random : ℕ → List Modem → Option Modem
random draw [] = none
random draw (m ∷ ms) = get_elem? (m ∷ ms) (draw % length (m ∷ ms))

-- The loop over the modems, with the best so far and its signal.
unfoldable pub strongest_loop : List Modem → Option Modem → ℕ → Option Modem
strongest_loop [] best best_rssi = best
strongest_loop (m ∷ ms) best best_rssi = elim m.signal [
  | no_service ↦ strongest_loop ms best best_rssi
  | query_failed ↦ strongest_loop ms best best_rssi
  | rssi r ↦
      let taken = strongest_loop ms (some m) r in
      let kept = strongest_loop ms best best_rssi in if ltb best_rssi r then taken else kept
]

unfoldable pub signal_strength : List Modem → Option Modem
unfolding strongest_loop
signal_strength [] = none
signal_strength (m ∷ ms) = elim (strongest_loop (m ∷ ms) none 0) [
  | none ↦ some m
  | some best ↦ some best
]

-- lastUsed, by the numbers of managers; the loop stops at a manager that was never used.
unfoldable pub least_loop : List (ℕ × ℕ) → List Modem → Option Modem → ℕ → Option Modem
least_loop used [] least time = least
least_loop used (m ∷ ms) least time =
    let on_taken = λ (t : ℕ). least_loop used ms (some m) t in
    let on_kept = least_loop used ms least time in
    elim (lookup ℕ_discrete used m.id) [
      | none ↦ some m
      | some t ↦ elim least [
        | none ↦ on_taken t
        | some l ↦ if ltb t time then on_taken t else on_kept
      ]
    ]

unfoldable pub least_used : ℕ → List Modem → List (ℕ × ℕ) → Option Modem × List (ℕ × ℕ)
unfolding least_loop
least_used now ms used =
    let chosen = least_loop used ms none 0 in
    elim chosen [ none ↦ (none, used) | some m ↦ (some m, insert ℕ_discrete used m.id now) ]
