-- ===== src/Pool/Selectors/Strongest.antt =====
-- pkg/manager/pool.go, SignalStrengthSelector: which modem is chosen.
use quectel_qmi_go.Common.{
  ℕ, suc, ◌≤◌, ◌<◌, ◌≡◌, refl, List, [], ◌∷◌, ltb, get_elem?, All, Option, none, some, ◌⊎◌, inl,
  inr, if_either, arith,
}
use mathlib.Core.Path.{subst}
use quectel_qmi_go.Pool.{Modem, Signal, no_service, query_failed, rssi}
use quectel_qmi_go.Pool.Selectors.{strongest_loop, signal_strength}

-- The signal, and for none the least that there is.
abbrev pub strength : Signal → ℕ
strength no_service = 0
strength query_failed = 0
strength (rssi r) = r

-- No modem is stronger.
abbrev pub NoneAbove : ℕ → List Modem → Type 0
NoneAbove r ms = All (λ m. strength m.signal ≤ r) ms

-- What the loop ends with: the best of before, if no modem is stronger, or else the strongest of them.
abbrev Best : List Modem → Option Modem → ℕ → Option Modem → Type 0
Best ms best r o =
    ((o ≡ best) × NoneAbove r ms)
    ⊎ ((m : Modem) × ((i : ℕ) × ((o ≡ some m)
            × ((get_elem? ms i ≡ some m)
                × ((r < strength m.signal) × NoneAbove (strength m.signal) ms)))))

Best-behind :
    (x : Modem) (ms : List Modem) (best o : Option Modem) (r : ℕ)
    → strength x.signal ≤ r
    → Best ms best r o
    → Best (x ∷ ms) best r o
Best-behind x ms best o r h (inl v) = inl (v.0, (h, v.1))
Best-behind x ms best o r h (inr (m, (i, v))) =
    inr (m, (suc i, (v.0, (v.1.0, (v.1.1.0, (omega (arith, h, v.1.1.0), v.1.1.1))))))

Best-taken :
    (x : Modem) (ms : List Modem) (best o : Option Modem) (r : ℕ)
    → r < strength x.signal
    → Best ms (some x) (strength x.signal) o
    → Best (x ∷ ms) best r o
Best-taken x ms best o r h (inl v) = inr (x, (0, (v.0, (refl, (h, (omega arith, v.1))))))
Best-taken x ms best o r h (inr (m, (i, v))) =
    inr (m, (suc i, (v.0, (v.1.0, (omega (arith, h, v.1.1.0), (omega (arith, v.1.1.0), v.1.1.1))))))

signal_either {ℓ κ} :
    {A : Type ℓ} (P : A → Type κ) (s : Signal) {a b : A} {f : ℕ → A}
    → (s ≡ no_service → P a)
    → (s ≡ query_failed → P b)
    → ((r : ℕ) → s ≡ rssi r → P (f r))
    → P (elim s [ no_service ↦ a | query_failed ↦ b | rssi r ↦ f r ])
signal_either P no_service ha hb hf = ha refl
signal_either P query_failed ha hb hf = hb refl
signal_either P (rssi r) ha hb hf = hf r refl

strongest_loop-Best :
    (ms : List Modem) (best : Option Modem) (r : ℕ) → Best ms best r (strongest_loop ms best r)
unfolding strongest_loop
strongest_loop-Best [] best r = inl (refl, tt)
strongest_loop-Best (m ∷ ms) best r =
    let P = Best (m ∷ ms) best r in
    let kept : strength m.signal ≤ r → P (strongest_loop ms best r) =
      λ h. Best-behind m ms best (strongest_loop ms best r) r h (strongest_loop-Best ms best r) in
    signal_either P m.signal (λ e. kept (ground (arith, e))) (λ e. kept (ground (arith, e)))
      (λ x e.
        if_either P (ltb r x)
          (λ h. Best-taken m ms best (strongest_loop ms (some m) x) r (ground (arith, e, h)) (
            subst (λ y. Best ms (some m) y (strongest_loop ms (some m) x)) (ground (arith, e))
              (strongest_loop-Best ms (some m) x)))
          (λ h. kept (ground (arith, e, h))))

NoneAbove-weaken : (r : ℕ) (ms : List Modem) → NoneAbove 0 ms → NoneAbove r ms
NoneAbove-weaken r [] v = tt
NoneAbove-weaken r (m ∷ ms) v = (omega (arith, v.0), NoneAbove-weaken r ms (v.1))

-- Among modems that are not none the selector chooses one of them, and no other has a stronger signal,
-- one without an answer counting as the weakest.
pub strongest_selected :
    (m : Modem) (ms : List Modem)
    → (best : Modem) × ((i : ℕ) × ((signal_strength (m ∷ ms) ≡ some best)
          × ((get_elem? (m ∷ ms) i ≡ some best) × NoneAbove (strength best.signal) (m ∷ ms))))
unfolding signal_strength
strongest_selected m ms = elim (strongest_loop-Best (m ∷ ms) none 0) [
  | inl (e, v) ↦ (
    m,
    (0, (rw (signal_strength, e) refl, (refl, NoneAbove-weaken (strength m.signal) (m ∷ ms) v))),
  )
  | inr (best, (i, (e, (ei, (h, v))))) ↦ (best, (i, (rw (signal_strength, e) refl, (ei, v))))
]
