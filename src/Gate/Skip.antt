-- ===== src/Gate/Skip.antt =====
-- skipCanceledLocked of pkg/manager/card_access_gate.go: it ends at a ticket that is not canceled.
use quectel_qmi_go.Common.{
  ℕ, zero, suc, ◌+◌, ◌^◌, ◌≡◌, ◌≤◌, ◌<◌, refl, ◌∙◌, List, [], ◌∷◌, true, false, ◌⊎◌, inl, inr,
  if◌then◌else◌, ◌==◌, length, arith, Bool-cases,
}
use quectel_qmi_go.Gate.{
  CardAccessGate, next_uint64, mem, remove, init_locked, skip_loop, skip_canceled_locked,
}

pub mem-remove :
    (t s : ℕ) (xs : List ℕ) → mem t (remove s xs) ≡ (if s == t then false else mem t xs)
unfolding mem remove
mem-remove t s [] = ground arith
mem-remove t s (x ∷ xs) = ground (arith, mem-remove t s xs)

length-remove : (t : ℕ) (xs : List ℕ) → length (remove t xs) ≤ length xs
unfolding remove
length-remove t [] = omega arith
length-remove t (x ∷ xs) = ground (arith, length-remove t xs)

shrink_remove : (t : ℕ) (xs : List ℕ) → mem t xs ≡ true → length (remove t xs) < length xs
unfolding remove mem
shrink_remove t [] h = absurd (ground arith)
shrink_remove t (x ∷ xs) h = ground (arith, length-remove t xs, shrink_remove t xs)

-- With more fuel than canceled tickets the loop stops at one that is not canceled.
skip_loop-stops :
    (fuel : ℕ) (g : CardAccessGate)
    → length g.canceled < fuel
    → mem (skip_loop fuel g).serving_ticket (skip_loop fuel g).canceled ≡ false
unfolding skip_loop
skip_loop-stops zero g h = absurd (omega arith)
skip_loop-stops (suc fuel) g h =
    let g' = record g {
      canceled = remove g.serving_ticket g.canceled;
      serving_ticket = next_uint64 g.serving_ticket;
    } in
    ground (arith, skip_loop-stops fuel g', shrink_remove g.serving_ticket g.canceled)

-- The tickets between the one served and the next one to give out are those that wait and those that
-- were canceled.
pub record Tickets (waiting : List ℕ) (g : CardAccessGate) : Type 0 where
  pub bound : g.next_ticket < 2 ^ 64
  pub ordered : g.serving_ticket ≤ g.next_ticket
  pub live : (t : ℕ) → mem t waiting ≡ true → (g.serving_ticket ≤ t) × (t < g.next_ticket)
  pub dead :
      (t : ℕ)
      → mem t g.canceled ≡ true
      → (g.serving_ticket ≤ t) × (t < g.next_ticket) × (mem t waiting ≡ false)
  pub covered :
      (t : ℕ)
      → g.serving_ticket ≤ t
      → t < g.next_ticket
      → (mem t waiting ≡ true) ⊎ (mem t g.canceled ≡ true)

pub init_locked-Tickets :
    (waiting : List ℕ) (g : CardAccessGate) → Tickets waiting g → Tickets waiting (init_locked g)
unfolding init_locked
init_locked-Tickets waiting g v = record {
  bound = ground (arith, v.bound);
  ordered = ground (arith, v.ordered);
  live = λ t m. ground (arith, v.live t m);
  dead = λ t m. ground (arith, v.dead t);
  covered = λ t a b. ground (arith, v.covered t);
}

-- One canceled ticket skipped.
skipped-Tickets :
    (waiting : List ℕ) (g : CardAccessGate)
    → mem g.serving_ticket g.canceled ≡ true
    → Tickets waiting g
    → Tickets waiting (record g {
      canceled = remove g.serving_ticket g.canceled;
      serving_ticket = next_uint64 g.serving_ticket;
    })
skipped-Tickets waiting g h v =
    let s = g.serving_ticket in
    let served = v.dead s h in
    let e : next_uint64 s ≡ s + 1 = omega (arith, served, v.bound) in
    record {
      bound = v.bound;
      ordered = omega (arith, e, served);
      live = λ t m. ground (arith, e, v.live t m, served);
      dead = λ t m. ground (arith, e, v.dead t, mem-remove t s g.canceled);
      covered = λ t a b. ground (arith, e, v.covered t, mem-remove t s g.canceled);
    }

skip_loop-Tickets :
    (waiting : List ℕ) (fuel : ℕ) (g : CardAccessGate)
    → Tickets waiting g
    → Tickets waiting (skip_loop fuel g)
unfolding skip_loop
skip_loop-Tickets waiting zero g v = v
skip_loop-Tickets waiting (suc fuel) g v = elim (Bool-cases (mem g.serving_ticket g.canceled)) [
  | inl out ↦
      rw (out, skip_loop) (skip_loop-Tickets waiting fuel _ (skipped-Tickets waiting g out v))
  | inr stays ↦ rw (stays, skip_loop) v
]

-- What the loop leaves alone.
skip_loop-kept :
    (fuel : ℕ) (g : CardAccessGate)
    → ((skip_loop fuel g).active ≡ g.active)
      × ((skip_loop fuel g).barrier ≡ g.barrier)
      × ((skip_loop fuel g).next_ticket ≡ g.next_ticket)
      × ((skip_loop fuel g).signals ≡ g.signals)
unfolding skip_loop
skip_loop-kept zero g = (refl, refl, refl, refl)
skip_loop-kept (suc fuel) g = ground (
  arith,
  skip_loop-kept fuel (record g {
    canceled = remove g.serving_ticket g.canceled;
    serving_ticket = next_uint64 g.serving_ticket;
  }),
)

-- After skipCanceledLocked: the same holds of the tickets, the gate is as closed as it was, and the
-- ticket served is not a canceled one.
pub record Skipped (waiting : List ℕ) (g h : CardAccessGate) : Type 0 where
  pub tickets : Tickets waiting h
  pub active : h.active ≡ g.active
  pub barrier : h.barrier ≡ g.barrier
  pub signals : h.signals ≡ g.signals
  pub settled : mem h.serving_ticket h.canceled ≡ false
  pub next : h.next_ticket ≡ (if g.next_ticket == 0 then 1 else g.next_ticket)

pub skip-Skipped :
    (waiting : List ℕ) (g : CardAccessGate)
    → Tickets waiting g
    → Skipped waiting g (skip_canceled_locked g)
unfolding skip_canceled_locked
skip-Skipped waiting g v =
    let h = init_locked g in
    let fuel = suc (length h.canceled) in
    let kept = skip_loop-kept fuel h in
    let same : (h.active ≡ g.active)
        × (h.barrier ≡ g.barrier)
        × (h.next_ticket ≡ (if g.next_ticket == 0 then 1 else g.next_ticket))
        × (h.signals ≡ g.signals) =
      unfold init_locked in ground arith in
    record {
      tickets = skip_loop-Tickets waiting fuel h (init_locked-Tickets waiting g v);
      active = kept.0 ∙ same.0;
      barrier = kept.1 ∙ same.1;
      signals = kept.3 ∙ same.3;
      settled = skip_loop-stops fuel h (omega arith);
      next = kept.2 ∙ same.2;
    }
