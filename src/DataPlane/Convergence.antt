-- ===== src/DataPlane/Convergence.antt =====
-- pkg/manager/data_plane.go, ConvergeDataPlane: what a convergence promises.
use quectel_qmi_go.Common.{
  ℕ, ◌+◌, ◌%◌, ◌^◌, ltb, ◌≡◌, refl, [], ◌∷◌, ◌++◌, Bool, true, false, not, ◌&&◌, ◌||◌, ◌==◌, Option,
  none, some, ◌⊎◌, inl, inr, if_either, elim_either, arith,
}
use quectel_qmi_go.Connection.{
  is_connected, Manager, send_event, set_state, emit_event, call, event_start,
}
use quectel_qmi_go.Connection.Dial.{do_disconnect, stop_calls}
use quectel_qmi_go.DataPlane.{
  DataPlaneMode, native, qmap, other, is_mode, DataPlaneSpec, PlaneError, DataPlaneSnapshot,
  DataPlane, PlaneWorld, Converging, converge_native, use_mux, create_mux, converge_qmap, publish,
  degrade, fall_back, is_current, converge_data_plane_locked, redial_if_generation_changed,
  converge_data_plane,
}

abbrev pub has_reason : DataPlaneSnapshot → Bool
has_reason s = elim s.degraded [ none ↦ false | some e ↦ true ]

-- A topology that was made for the specification: as asked for, or native in place of a multiplexed
-- one, and then it says why.
abbrev pub Serves : DataPlaneSpec → DataPlaneSnapshot → Type 0
Serves spec s =
    ((is_mode s.mode qmap && is_mode spec.mode qmap ≡ true)
      × ((s.default_mux_id ≡ spec.default_mux_id) × (has_reason s ≡ false)))
    ⊎ ((is_mode s.mode native ≡ true)
        × ((s.default_mux_id ≡ 0)
            × ((is_mode spec.mode native && not (has_reason s)
                  || is_mode spec.mode qmap && has_reason s)
                ≡ true)))

-- It has the next generation.
abbrev pub Made : DataPlaneSpec → DataPlaneSnapshot → DataPlaneSnapshot → Type 0
Made spec old s = (s.generation ≡ (old.generation + 1) % 2 ^ 64) × Serves spec s

-- The old topology, which is of the mode and the multiplexing identifier that were asked for.
abbrev pub Stays : DataPlaneSpec → DataPlaneSnapshot → DataPlaneSnapshot → Type 0
Stays spec old s =
    (s ≡ old) × ((is_mode old.mode spec.mode ≡ true) × (old.default_mux_id ≡ spec.default_mux_id))

-- Before the result is published.
abbrev Proposed : DataPlaneSpec → DataPlaneSnapshot → Converging → Type 0
Proposed spec old (inl e, p) = (p.snapshot ≡ old) × (p.declared_spec ≡ spec)
Proposed spec old (inr s, p) = (p.declared_spec ≡ spec) × Made spec old s

abbrev pub Converged : DataPlaneSpec → DataPlaneSnapshot → Converging → Type 0
Converged spec old (inl e, p) = p.snapshot ≡ old
Converged spec old (inr s, p) =
    (p.snapshot ≡ s) × ((p.declared_spec ≡ spec) × (Stays spec old s ⊎ Made spec old s))

publish-Converged :
    (spec : DataPlaneSpec) (old : DataPlaneSnapshot) (r : Converging)
    → Proposed spec old r
    → Converged spec old (publish r)
publish-Converged spec old (inl e, p) v = v.0
publish-Converged spec old (inr s, p) v = (refl, (v.0, inr (v.1)))

module _ (w : PlaneWorld) (spec : DataPlaneSpec) (old : DataPlaneSnapshot) where
  converge_native-Proposed :
      (master : ℕ) (p : DataPlane)
      → p.snapshot ≡ old
      → p.declared_spec ≡ spec
      → is_mode spec.mode native ≡ true
      → Proposed spec old (converge_native w master p)
  unfolding converge_native
  converge_native-Proposed master p ep ed es = ground (arith, ep, ed, es)

  degrade-Proposed :
      (reason : PlaneError) (master : ℕ) (p : DataPlane)
      → p.snapshot ≡ old
      → p.declared_spec ≡ spec
      → is_mode spec.mode qmap ≡ true
      → Proposed spec old (degrade reason (converge_native w master p))
  unfolding converge_native
  degrade-Proposed reason master p ep ed es = ground (arith, ep, ed, es)

  converge_qmap-Proposed :
      (p : DataPlane)
      → p.snapshot ≡ old
      → p.declared_spec ≡ spec
      → is_mode spec.mode qmap ≡ true
      → Proposed spec old (converge_qmap w spec p)
  unfolding converge_qmap create_mux use_mux
  converge_qmap-Proposed p ep ed es = ground (arith, ep, ed, es)

  fall_back-Proposed :
      (master : ℕ) (r : Converging)
      → is_mode spec.mode qmap ≡ true
      → Proposed spec old r
      → Proposed spec old (fall_back w master r)
  fall_back-Proposed master (inl e, p) es v = degrade-Proposed e master p (v.0) (v.1) es
  fall_back-Proposed master (inr s, p) es v = v

mode_cases :
    (d : DataPlaneMode) → is_mode d other ≡ false → is_mode d native ≡ false → is_mode d qmap ≡ true
mode_cases native e1 e2 = absurd (ground (arith, e2))
mode_cases qmap e1 e2 = ground arith
mode_cases other e1 e2 = absurd (ground (arith, e1))

converge-Converged :
    (interface : Option ℕ) (w : PlaneWorld) (spec : DataPlaneSpec) (p : DataPlane)
    → Converged spec p.snapshot (converge_data_plane_locked interface w spec p)
unfolding converge_data_plane_locked
converge-Converged interface w spec p =
    let declared = record p { declared_spec = spec } in
    let P = Converged spec p.snapshot in
    if_either P (is_mode spec.mode other) (λ e. refl)
      (λ eo.
        if_either P (is_mode spec.mode qmap && spec.default_mux_id == 0) (λ e. refl)
          (λ em.
            if_either P (is_current spec p.snapshot)
              (λ e. (refl, (refl, inl (refl, ground (arith, e)))))
              (λ e.
                if_either P (not w.services_ok) (λ e1. refl)
                  (λ e1. elim_either P interface refl (λ master ei.
                    if_either P (is_mode spec.mode native)
                      (λ en.
                        publish-Converged spec p.snapshot (converge_native w master declared)
                          (converge_native-Proposed w spec p.snapshot master declared refl refl en))
                      (λ en.
                        let eq = mode_cases spec.mode eo en in
                        publish-Converged spec p.snapshot
                          (fall_back w master (converge_qmap w spec declared))
                          (fall_back-Proposed w spec p.snapshot master
                            (converge_qmap w spec declared) eq
                            (converge_qmap-Proposed w spec p.snapshot declared refl refl eq))))))))

-- The manager is connected on the topology `s`, whose generation is not the last one.
abbrev pub is_on : DataPlaneSnapshot → Manager → Bool
is_on s m =
    is_connected m.state
    && (m.connected_generation == s.generation
        && (not (s.generation == 0) && ltb (s.generation + 1) (2 ^ 64)))

-- Where the manager was connected on another topology it is disconnected, and a start is queued.
abbrev pub Redialled : DataPlaneSnapshot → Manager → Manager → Type 0
Redialled s m m' =
    ((m.connected_generation == s.generation) ≡ false)
    × ((is_connected m'.state ≡ false) × (m'.event_ch ≡ m.event_ch ++ (event_start ∷ [])))

-- The manager is left alone or redialled. Afterwards, if it is connected, it is so on the topology of
-- this generation, and a connection on the old topology has not outlived that topology.
abbrev pub Aligned : DataPlaneSnapshot → PlaneError ⊎ DataPlaneSnapshot → Manager → Manager → Type 0
Aligned old (inl e) m m' = m' ≡ m
Aligned old (inr s) m m' =
    ((s.generation == 0
        || (not (is_connected m'.state)
            || (m'.connected_generation == 0 || m'.connected_generation == s.generation)))
      ≡ true)
    × (((m' ≡ m) × ((s ≡ old) ⊎ (is_on old m ≡ false))) ⊎ Redialled s m m')

-- Behind a test that leaves the manager alone.
outlived :
    (spec : DataPlaneSpec) (old s : DataPlaneSnapshot) (m : Manager)
    → (s.generation == 0
        || (not (is_connected m.state)
            || (m.connected_generation == 0 || m.connected_generation == s.generation)))
      ≡ true
    → Stays spec old s ⊎ Made spec old s
    → (s ≡ old) ⊎ (is_on old m ≡ false)
outlived spec old s m h (inl stays) = inl (stays.0)
outlived spec old s m h (inr made) = inr (ground (arith, h, made.0))

redial-Aligned :
    (spec : DataPlaneSpec) (old s : DataPlaneSnapshot) (m : Manager)
    → Stays spec old s ⊎ Made spec old s
    → Aligned old (inr s) m (redial_if_generation_changed s m)
unfolding redial_if_generation_changed send_event do_disconnect stop_calls set_state emit_event call
redial-Aligned spec old s m v =
    let P = Aligned old (inr s) m in
    if_either P (s.generation == 0)
      (λ e. (ground (arith, e), inl (refl, outlived spec old s m (ground (arith, e)) v)))
      (λ e.
        if_either P
          (not (is_connected m.state)
            || (m.connected_generation == 0 || m.connected_generation == s.generation))
          (λ e1. (ground (arith, e1), inl (refl, outlived spec old s m (ground (arith, e1)) v)))
          (λ e1. (ground arith, inr (ground (arith, e1), (refl, ground arith)))))

result-Aligned :
    (spec : DataPlaneSpec) (old : DataPlaneSnapshot) (r : Converging) (m : Manager)
    → Converged spec old r
    → Aligned old (r.0) m (elim (r.0) [ inl e ↦ m | inr s ↦ redial_if_generation_changed s m ])
result-Aligned spec old (inl e, p) m v = refl
result-Aligned spec old (inr s, p) m v = redial-Aligned spec old s m (v.1.1)

-- A convergence that succeeds records the specification, and ends with the old topology, where that is
-- of the mode and the multiplexing identifier that were asked for, or publishes one of the next
-- generation: as asked for, or a native one in place of a multiplexed one, with the reason. A manager
-- that was connected on the old topology, of a generation other than 0 and the last, is disconnected
-- and a start is queued when a new one is published; no manager stays connected on another generation.
-- A convergence that fails leaves the published topology and the manager alone.
pub converge_data_plane-Converged :
    (interface : Option ℕ) (w : PlaneWorld) (spec : DataPlaneSpec) (p : DataPlane) (m : Manager)
    → let (r, m') = converge_data_plane interface w spec p m in
      Converged spec p.snapshot r × Aligned p.snapshot (r.0) m m'
unfolding converge_data_plane
converge_data_plane-Converged interface w spec p m =
    let converged = converge-Converged interface w spec p in
    (
      converged,
      result-Aligned spec p.snapshot (converge_data_plane_locked interface w spec p) m converged,
    )
