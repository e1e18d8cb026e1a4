-- ===== src/Pool/Selectors/Turns.antt =====
-- pkg/manager/pool.go, RoundRobinSelector: whose turn it is.
use quectel_qmi_go.Common.{
  ℕ, zero, suc, ◌+◌, ◌-◌, ◌*◌, ◌/◌, ◌%◌, ◌^◌, ◌≤◌, ◌<◌, ◌≡◌, ap, ◌∙◌, List, [], ◌∷◌, length,
  get_elem?, leb, Option, inl, inr, Bool-cases, arith,
}
use native.Mathlib.Nat.{mul-add-mod_self_right, mod-eq_of_lt, div-add-mod', mod-lt}
use quectel_qmi_go.Pool.{Modem}
use quectel_qmi_go.Pool.Selectors.{round_robin}

-- The counter after k choices, each from its own list, and the choice behind them. The callers build
-- the list anew for each choice, in any order.
unfoldable pub counter_after : ℕ → (ℕ → List Modem) → ℕ → ℕ
counter_after zero lists counter = counter
counter_after (suc k) lists counter = (round_robin (lists k) (counter_after k lists counter)).1

abbrev pub choice : ℕ → (ℕ → List Modem) → ℕ → Option Modem
choice k lists counter = (round_robin (lists k) (counter_after k lists counter)).0

round_robin-turn :
    (ms : List Modem) (n counter : ℕ)
    → length ms ≡ suc n
    → let next = (counter + 1) % 2 ^ 64 in
      round_robin ms counter ≡ (get_elem? ms (next % suc n), next)
unfolding round_robin
round_robin-turn [] n counter e = absurd (ground (arith, e))
round_robin-turn (m ∷ ms) n counter e =
    let next = (counter + 1) % 2 ^ 64 in ap (λ l. (get_elem? (m ∷ ms) (next % l), next)) e

module _ (lists : ℕ → List Modem) (n : ℕ) (same : (k : ℕ) → length (lists k) ≡ suc n) where
  counter_after-add :
      (k counter : ℕ) → counter + k < 2 ^ 64 → counter_after k lists counter ≡ counter + k
  unfolding counter_after
  counter_after-add zero counter h = omega arith
  counter_after-add (suc k) counter h =
      let before = counter_after-add k counter (omega (arith, h)) in
      let turn = round_robin-turn (lists k) n (counter_after k lists counter) (same k) in
      ap (λ x. x.1) turn ∙ omega (arith, before, h)

-- A number that is i above a multiple of n.
turn_at : (q n i a : ℕ) → i < n → a ≡ q * n + i → a % n ≡ i
turn_at q n i a h e = rw e (mul-add-mod_self_right q n i ∙ mod-eq_of_lt h)

-- From any number, fewer than n steps lead to one that is i above a multiple of n.
turn_reached : (c n i : ℕ) → i < n → (k : ℕ) × ((k < n) × ((c + 1 + k) % n ≡ i))
turn_reached c n i h =
    let q = (c + 1) / n in
    let r = (c + 1) % n in
    let e = div-add-mod' (c + 1) n in
    let hr : r < n = mod-lt (c + 1) (omega (arith, h)) in
    elim (Bool-cases (leb r i)) [
      | inl b ↦
          let hb : r ≤ i = ground (arith, b) in
          (i - r, (omega (arith, h), turn_at q n i (c + 1 + (i - r)) h (omega (arith, e, hb))))
      | inr b ↦
          let hb : i < r = ground (arith, b) in
          (
            n + i - r,
            (
              omega (arith, h, hb, hr),
              turn_at (suc q) n i (c + 1 + (n + i - r)) h (omega (arith, e, hb, hr)),
            ),
          )
    ]

-- Among n choices, each from its own list of n modems, every position of the list has its turn, unless
-- the counter overflows meanwhile. Which modem stands at the position may differ from list to list.
pub every_position_chosen :
    (lists : ℕ → List Modem) (n counter i : ℕ)
    → ((k : ℕ) → length (lists k) ≡ suc n)
    → i < suc n
    → counter + suc n < 2 ^ 64
    → (k : ℕ) × ((k < suc n) × (choice k lists counter ≡ get_elem? (lists k) i))
every_position_chosen lists n counter i same h hc =
    let (k, (hk, e)) = turn_reached counter (suc n) i h in
    let before = counter_after k lists counter in
    let c = counter_after-add lists n same k counter (omega (arith, hk, hc)) in
    let small : (before + 1) % 2 ^ 64 ≡ counter + 1 + k = omega (arith, c, hk, hc) in
    let turn = round_robin-turn (lists k) n before (same k) in
    (k, (hk, ap (λ x. x.0) turn ∙ ap (get_elem? (lists k)) (ap (λ x. x % suc n) small ∙ e)))
