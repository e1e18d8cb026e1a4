-- ===== src/Recovery/Retry/Calls.antt =====
-- pkg/manager/service_recovery.go, with…RecoveryValue: on which clients an operation is called, and whose
-- result is returned.
use mathlib.Core.Path.{subst}
use quectel_qmi_go.Common.{
  ℕ, ◌≡◌, refl, sym, ap, ◌∙◌, List, ◌∷◌, Bool, true, false, ◌&&◌, Option, none, some, ◌⊎◌, inl, inr,
  if_either, option_either, arith,
}
use quectel_qmi_go.Recovery.Errors.{OpError}
use quectel_qmi_go.Recovery.Services.{
  Service, Handle, Bindings, Bound, ensure_service, rebind_service,
}
use quectel_qmi_go.Recovery.Services.Fresh.{IsFresh, rebind_service-IsFresh}
use quectel_qmi_go.Recovery.Retry.{
  ServiceManager, ServiceConfig, RecoveryError, operation_failed, rebind_failed, RetryWorld,
  escalates_unbound, escalates_retry, trigger_core_recovery, storm_checked,
  record_service_timeout_failure, should_recover, succeeded, escalate, attempt, retry,
  rebind_and_retry, first_call, with_recovery, Recovered,
}

-- What the tests of an error and a call for a recovery leave alone.
abbrev pub Kept : ServiceManager → ServiceManager → Type 0
Kept m m' = (m'.bindings ≡ m.bindings) × (m'.attempts ≡ m.attempts)

trigger_core_recovery-Kept :
    (cfg : ServiceConfig) (now : ℕ) (m : ServiceManager) → Kept m (trigger_core_recovery cfg now m)
unfolding trigger_core_recovery
trigger_core_recovery-Kept cfg now m = ground arith

should_recover-Kept :
    (cfg : ServiceConfig) (now : ℕ) (s : Service) (op : ℕ) (e : OpError) (m : ServiceManager)
    → Kept m (should_recover cfg now s op e m).1
unfolding should_recover record_service_timeout_failure storm_checked
should_recover-Kept cfg now s op e m = ground arith

-- The result of a call as the caller gets it.
abbrev pub returned {ℓ} : {A : Type ℓ} → A × Option OpError → A × Option RecoveryError
returned (x, none) = (x, none)
returned (x, some e) = (x, some (operation_failed e))

returned-none {ℓ} : {A : Type ℓ} (p : A × Option OpError) → p.1 ≡ none → returned p ≡ (p.0, none)
returned-none (x, none) h = refl
returned-none (x, some e) h = absurd (ground (arith, h))

returned-some {ℓ} :
    {A : Type ℓ} (p : A × Option OpError) (e : OpError)
    → p.1 ≡ some e
    → returned p ≡ (p.0, some (operation_failed e))
returned-some (x, none) e h = absurd (ground (arith, h))
returned-some (x, some e') e h =
    ap (λ o. (x, elim o [ none ↦ none | some d ↦ some (operation_failed d) ])) h

escalate-Kept :
    (cfg : ServiceConfig) (wanted : Bool) (now : ℕ) (m : ServiceManager)
    → Kept m (escalate cfg wanted now m)
escalate-Kept cfg true now m = trigger_core_recovery-Kept cfg now m
escalate-Kept cfg false now m = (refl, refl)

-- Behind a failed call.
escalated-Kept :
    (cfg : ServiceConfig) (now : ℕ) (s : Service) (op : ℕ) (e : OpError) (m : ServiceManager)
    → let (again, m') = should_recover cfg now s op e m in
      (b : Bool) → Kept m (escalate cfg (again && b) now m')
escalated-Kept cfg now s op e m b =
    let (again, m') = should_recover cfg now s op e m in
    let kept = should_recover-Kept cfg now s op e m in
    let kept' = escalate-Kept cfg (again && b) now m' in (kept'.0 ∙ kept.0, kept'.1 ∙ kept.1)

module _ {ℓ} {A : Type ℓ} (zero : A) (has : ℕ → Service → Bool) (cfg : ServiceConfig) (s : Service)
    (op : ℕ) (fn : ℕ → Handle → A × Option OpError) where
  -- The result of the n-th call, on `h`, and the bindings that it found left alone.
  abbrev Returns : ℕ → Handle → ServiceManager → Recovered zero has cfg s op fn → Type ℓ
  Returns n h m r =
      (r.0 ≡ returned (fn n h)) × ((r.1.attempts ≡ h ∷ m.attempts) × (r.1.bindings ≡ m.bindings))

  retry-Returns :
      (w : RetryWorld) (h : Handle) (m : ServiceManager)
      → Returns 1 h m (retry zero has cfg s op fn w h m)
  unfolding retry succeeded attempt
  retry-Returns w h m =
      option_either (Returns 1 h m) (fn 1 h).1 (λ e. (sym (returned-none (fn 1 h) e), (refl, refl)))
        (λ e ee.
          let kept = escalated-Kept cfg w.retried_at s op e (attempt h m) (escalates_retry s) in
          (sym (returned-some (fn 1 h) e ee), (kept.1, kept.0)))

  -- The client is the service's, and that of the QMI client that the manager has.
  abbrev pub Held : Handle → Bindings → Type 0
  Held h b = (b.client ≡ some h.client) × (b.bound s ≡ some h)

  -- Called again on the client that the rebind had, which is held at the end, behind the calls of
  -- before.
  abbrev pub CalledAgain : Bound → List Handle → Recovered zero has cfg s op fn → Type ℓ
  CalledAgain got before r =
      (h : Handle) × ((got.0 ≡ inr h)
        × ((r.0 ≡ returned (fn 1 h)) × ((r.1.attempts ≡ h ∷ before) × Held h r.1.bindings)))

  -- Not called again, since the rebind failed.
  abbrev pub NotRebound : Bound → OpError → List Handle → Recovered zero has cfg s op fn → Type ℓ
  NotRebound got initial before r =
      (e : OpError) × ((got.0 ≡ inl e)
        × ((r.0 ≡ (zero, some (rebind_failed e initial))) × (r.1.attempts ≡ before)))

  abbrev pub Rebound : Bound → OpError → List Handle → Recovered zero has cfg s op fn → Type ℓ
  Rebound got initial before r = NotRebound got initial before r ⊎ CalledAgain got before r

  call_behind_rebind :
      (w : RetryWorld) (initial : OpError) (m : ServiceManager) (before : List Handle) (got : Bound)
      → m.attempts ≡ before
      → IsFresh s got
      → let m' = record m { bindings = got.1 } in
        let r : Recovered zero has cfg s op fn = elim (got.0) [
          | inl e ↦ (
            (zero, some (rebind_failed e initial)),
            escalate cfg (escalates_unbound s) w.first_at m',
          )
          | inr h ↦ retry zero has cfg s op fn w h m'
        ] in
        Rebound got initial before r
  call_behind_rebind w initial m before (inl e, b) ea v =
      let kept = escalate-Kept cfg (escalates_unbound s) w.first_at (record m { bindings = b }) in
      inl (e, (refl, (refl, kept.1 ∙ ea)))
  call_behind_rebind w initial m before (inr h, b) ea v =
      let called = retry-Returns w h (record m { bindings = b }) in
      inr (
        h,
        (
          refl,
          (
            called.0,
            (
              called.1.0 ∙ ap (λ hs. h ∷ hs) ea,
              (ap (λ x. x.client) (called.1.1) ∙ v.0, ap (λ x. x.bound s) (called.1.1) ∙ v.1),
            ),
          ),
        ),
      )

  rebind_and_retry-Rebound :
      (w : RetryWorld) (initial : OpError) (m : ServiceManager) (before : List Handle)
      → m.attempts ≡ before
      → Rebound
          (rebind_service has w.rebinding s m.bindings)
          initial
          before
          (rebind_and_retry zero has cfg s op fn w initial m)
  unfolding rebind_and_retry
  rebind_and_retry-Rebound w initial m before ea =
      call_behind_rebind w initial m before (rebind_service has w.rebinding s m.bindings) ea
        (rebind_service-IsFresh has w.rebinding s m.bindings)

  -- Behind the first call, on `h`, by a manager `m`.
  abbrev pub called_on : RetryWorld → Handle → ServiceManager → ServiceManager
  called_on w h m = record (attempt h m) { bindings = w.during_call m.bindings }

  -- Called once, on `h`, with the result of that call, which is no failure or one that calls for no
  -- rebind.
  abbrev pub CalledOnce :
      RetryWorld → Handle → ServiceManager → Recovered zero has cfg s op fn → Type ℓ
  CalledOnce w h m r =
      (r.0 ≡ returned (fn 0 h))
      × ((r.1.attempts ≡ h ∷ m.attempts)
          × (((fn 0 h).1 ≡ none)
              ⊎ ((e : OpError) × (((fn 0 h).1 ≡ some e)
                    × ((should_recover cfg w.first_at s op e (called_on w h m)).0 ≡ false)))))

  -- Or a first call on `h` fails, its error calls for a rebind, and the rebind follows.
  abbrev pub Called : RetryWorld → Handle → ServiceManager → Recovered zero has cfg s op fn → Type ℓ
  Called w h m r =
      CalledOnce w h m r
      ⊎ ((e : OpError) × (((fn 0 h).1 ≡ some e)
            × (((should_recover cfg w.first_at s op e (called_on w h m)).0 ≡ true)
                × Rebound (rebind_service has w.rebinding s (w.during_call m.bindings)) e
                    (h ∷ m.attempts) r)))

  first_call-Called :
      (w : RetryWorld) (h : Handle) (m : ServiceManager)
      → Called w h m (first_call zero has cfg s op fn w h m)
  unfolding first_call succeeded attempt
  first_call-Called w h m =
      let called = called_on w h m in
      let P = Called w h m in
      option_either P (fn 0 h).1 (λ e. inl (sym (returned-none (fn 0 h) e), (refl, inl e)))
        (λ e ee.
          let (again, m') = should_recover cfg w.first_at s op e called in
          let kept = should_recover-Kept cfg w.first_at s op e called in
          let again_called = rebind_and_retry-Rebound w e m' (h ∷ m.attempts) (kept.1) in
          if_either P again
            (λ ea. inr (
              e,
              (
                ee,
                (
                  ea,
                  subst
                      (λ b.
                        Rebound (rebind_service has w.rebinding s b) e (h ∷ m.attempts)
                          (rebind_and_retry zero has cfg s op fn w e m'))
                      (kept.0) again_called,
                ),
              ),
            ))
            (λ ea. inl (sym (returned-some (fn 0 h) e ee), (kept.1, inr (e, (ee, ea))))))

  -- What comes of the client that was had for the first call.
  abbrev pub Ensured : RetryWorld → ServiceManager → Bound → Recovered zero has cfg s op fn → Type ℓ
  Ensured w m got r =
      ((e : OpError) × ((got.0 ≡ inl e)
          × ((r.0 ≡ (zero, some (operation_failed e))) × (r.1.attempts ≡ m.attempts))))
      ⊎ ((h : Handle) × ((got.0 ≡ inr h) × Called w h (record m { bindings = got.1 }) r))

  call_behind_ensure :
      (w : RetryWorld) (m : ServiceManager) (got : Bound)
      → let m' = record m { bindings = got.1 } in
        let r : Recovered zero has cfg s op fn = elim (got.0) [
          | inl e ↦
              let (again, m'') = should_recover cfg w.first_at s op e m' in
              (
                (zero, some (operation_failed e)),
                escalate cfg (again && escalates_unbound s) w.first_at m'',
              )
          | inr h ↦ first_call zero has cfg s op fn w h m'
        ] in
        Ensured w m got r
  call_behind_ensure w m (inl e, b) =
      let kept =
        escalated-Kept cfg w.first_at s op e (record m { bindings = b }) (escalates_unbound s) in
      inl (e, (refl, (refl, kept.1)))
  call_behind_ensure w m (inr h, b) =
      inr (h, (refl, first_call-Called w h (record m { bindings = b })))

  -- A call of a service operation ends in one of these ways. No client of the service can be had: the
  -- operation is not called, and the error of that is returned. The operation is called once, on the
  -- client that was had, and its result is returned: it did not fail, or its error calls for no rebind.
  -- Or its error calls for a rebind: if the rebind fails, the operation is not called again, and both
  -- errors are returned; else it is called once more, on the client of the rebind, which is the
  -- service's and belongs to the QMI client that the manager has at the end, and the result of this
  -- second call is returned.
  pub with_recovery-Called :
      (w : RetryWorld) (m : ServiceManager)
      → Ensured w m
          (ensure_service has w.ensuring s m.bindings)
          (with_recovery zero has cfg s op fn w m)
  unfolding with_recovery
  with_recovery-Called w m = call_behind_ensure w m (ensure_service has w.ensuring s m.bindings)
