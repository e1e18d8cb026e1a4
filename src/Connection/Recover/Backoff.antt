-- ===== src/Connection/Recover/Backoff.antt =====
-- pkg/manager/manager.go, getRecoverDelay: the loop in closed form, and the bounds of the delay.
use quectel_qmi_go.Common.{
  ℕ, zero, suc, ◌+◌, ◌-◌, ◌*◌, ◌/◌, ◌%◌, ◌^◌, ◌≤◌, ◌<◌, ◌≡◌, ◌∙◌, ap, if◌then◌else◌, ltb, leb, inl,
  inr, Bool-cases, arith,
}
use native.Mathlib.Nat.{pow-succ', mul_assoc}
use quectel_qmi_go.Connection.{Manager}
use quectel_qmi_go.Connection.Recover.{
  recover_backoff_base, recover_backoff_max, backoff_loop, add_jitter, get_recover_delay,
}

-- What the loop computes: doubling, held at the maximum.
abbrev pub capped : ℕ → ℕ
capped d = if leb recover_backoff_max d then recover_backoff_max else d

abbrev doubled : ℕ → ℕ → ℕ
doubled zero d = d
doubled (suc n) d = doubled n (d * 2)

doubled-grows : (n d : ℕ) → d ≤ doubled n d
doubled-grows zero d = omega arith
doubled-grows (suc n) d = omega (arith, doubled-grows n (d * 2))

doubled-pow : (n d : ℕ) → doubled n d ≡ d * 2 ^ n
doubled-pow zero d = omega arith
doubled-pow (suc n) d = doubled-pow n (d * 2) ∙ rw (pow-succ' 2 n) (mul_assoc d 2 (2 ^ n))

at_max : (n d : ℕ) → d ≡ recover_backoff_max → backoff_loop n d ≡ recover_backoff_max
unfolding backoff_loop
at_max zero d h = h
at_max (suc n) d h = ground (arith, h)

backoff_loop-doubled : (n d : ℕ) → d < recover_backoff_max → backoff_loop n d ≡ capped (doubled n d)
unfolding backoff_loop
backoff_loop-doubled zero d h = ground (arith, h)
backoff_loop-doubled (suc n) d h = elim (Bool-cases (ltb (d * 2) recover_backoff_max)) [
  | inl e ↦ ground (arith, h, e, backoff_loop-doubled n (d * 2))
  | inr e ↦ ground (arith, h, e, doubled-grows n (d * 2), at_max n (d * 2))
]

-- The loop is the doubling of the base, held at the maximum.
backoff_loop-capped :
    (n : ℕ) → backoff_loop n recover_backoff_base ≡ capped (recover_backoff_base * 2 ^ n)
backoff_loop-capped n =
    backoff_loop-doubled n recover_backoff_base (omega arith)
    ∙ ap capped (doubled-pow n recover_backoff_base)

jitter_bound : (draw range : ℕ) → draw % (range * 2 + 1) ≤ range * 2
jitter_bound draw range = omega arith

add_jitter-bounds :
    (draw delay : ℕ)
    → recover_backoff_base ≤ delay
    → (delay - delay / 5 ≤ add_jitter draw delay) × (add_jitter draw delay ≤ delay + delay / 5)
unfolding add_jitter
add_jitter-bounds draw delay h = ground (arith, h, jitter_bound draw (delay / 5))

capped-least : (n : ℕ) → recover_backoff_base ≤ capped (recover_backoff_base * 2 ^ n)
capped-least n =
    ground (arith, doubled-pow n recover_backoff_base, doubled-grows n recover_backoff_base)

-- Whatever is drawn, the delay of a retry is within a fifth, either way, of half a second doubled for
-- each failure behind the first and held at fifteen seconds.
pub get_recover_delay-bounds :
    (draw : ℕ) (m : Manager)
    → let nominal = capped (recover_backoff_base * 2 ^ (m.recover_count - 1)) in
      (nominal - nominal / 5 ≤ get_recover_delay draw m)
      × (get_recover_delay draw m ≤ nominal + nominal / 5)
unfolding get_recover_delay
get_recover_delay-bounds draw m =
    let n = m.recover_count - 1 in
    rw (backoff_loop-capped n)
      (add_jitter-bounds draw (capped (recover_backoff_base * 2 ^ n)) (capped-least n))
