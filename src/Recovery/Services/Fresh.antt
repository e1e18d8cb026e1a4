-- ===== src/Recovery/Services/Fresh.antt =====
-- pkg/manager/service_recovery.go, rebind…Service: whose client it returns.
use quectel_qmi_go.Common.{
  ℕ, ◌≡◌, ap, Bool, true, not, ◌&&◌, Option, none, some, inl, inr, if_either, elim_either,
  sum_either, arith,
}
use quectel_qmi_go.Recovery.Services.{
  Service, Handle, Bindings, AllocWorld, Bound, is_client, same_service, set_bound, store, allocate,
  allocate_supported, note_rebound, unbind, needs_support, rebind_service,
}

-- A client that was had belongs to the QMI client that the manager has, and is the service's.
abbrev pub IsFresh : Service → Bound → Type 0
IsFresh s (inl e, b) = Unit
IsFresh s (inr h, b) = (b.client ≡ some h.client) × (b.bound s ≡ some h)

is_client-eq : (o : Option ℕ) (c : ℕ) → is_client o c ≡ true → o ≡ some c
is_client-eq none c e = absurd (ground (arith, e))
is_client-eq (some c') c e = ap (λ x. some x) (ground (arith, e))

same : (s : Service) → same_service s s ≡ true
same s = ground arith

store-IsFresh : (s : Service) (h : Handle) (b : Bindings) → IsFresh s (store s h b)
unfolding store set_bound
store-IsFresh s h b =
    if_either (IsFresh s) (is_client b.client h.client)
      (λ e. (is_client-eq b.client h.client e, ground (arith, same s))) (λ e. tt)

note_rebound-IsFresh : (s : Service) (r : Bound) → IsFresh s r → IsFresh s (note_rebound s r)
note_rebound-IsFresh s (inl e, b) v = v
note_rebound-IsFresh s (inr h, b) v = ground (arith, v)

module _ (has : ℕ → Service → Bool) (w : AllocWorld) (s : Service) where
  allocate-IsFresh : (c : ℕ) (b : Bindings) → IsFresh s (allocate w s c b)
  unfolding allocate
  allocate-IsFresh c b =
      sum_either (IsFresh s) w.allocation (λ e _. tt)
        (λ id _. store-IsFresh s (record { id = id; client = c }) (w.during b))

  allocate_supported-IsFresh : (c : ℕ) (b : Bindings) → IsFresh s (allocate_supported has w s c b)
  unfolding allocate_supported
  allocate_supported-IsFresh c b =
      if_either (IsFresh s) (needs_support s && not (has c s)) (λ _. tt) (λ _. allocate-IsFresh c b)

  pub rebind_service-IsFresh : (b : Bindings) → IsFresh s (rebind_service has w s b)
  unfolding rebind_service
  rebind_service-IsFresh b = elim_either (IsFresh s) b.client tt (λ c _.
      note_rebound-IsFresh s (allocate_supported has w s c (unbind s b))
        (allocate_supported-IsFresh c (unbind s b)))
