-- ===== src/DataPlane.antt =====
-- pkg/manager/data_plane.go: the topology of the default data connection, native or multiplexed, and the
-- redial that follows when it changes. Interfaces are numbered, and the empty name is `none`.
pub mod Convergence
use quectel_qmi_go.Common.{
  ℕ, ◌+◌, ◌%◌, ◌^◌, List, Bool, true, false, not, ◌&&◌, ◌||◌, if◌then◌else◌, ◌==◌, Option, none,
  some, ◌⊎◌, inl, inr, lookup, ℕ_discrete,
}
use quectel_qmi_go.Connection.{is_connected, event_start, Manager, send_event}
use quectel_qmi_go.Connection.Dial.{do_disconnect}

-- "native", "qmap" and any other string.
pub data DataPlaneMode : Type 0 where
  native qmap other : DataPlaneMode

abbrev pub mode_number : DataPlaneMode → ℕ
mode_number native = 0
mode_number qmap = 1
mode_number other = 2

abbrev pub is_mode : DataPlaneMode → DataPlaneMode → Bool
is_mode a b = mode_number a == mode_number b

pub record DataPlaneSpec : Type 0 where
  pub mode : DataPlaneMode
  pub default_mux_id : ℕ

pub data PlaneError : Type 0 where
  unsupported_mode mux_id_missing services_failed interface_missing : PlaneError
  format_failed discovery_failed mux_failed : PlaneError
  fallback_failed : PlaneError → PlaneError → PlaneError

-- `degraded` is the error that DegradedReason is the text of.
pub record DataPlaneSnapshot : Type 0 where
  pub generation : ℕ
  pub mode : DataPlaneMode
  pub default_interface : ℕ
  pub default_mux_id : ℕ
  pub degraded : Option PlaneError

-- The fields of dataPlaneController without the sessions, and the two interfaces of the manager.
pub record DataPlane : Type 0 where
  pub snapshot : DataPlaneSnapshot
  pub declared_spec : DataPlaneSpec
  pub master_interface : Option ℕ
  pub master_iface : Option ℕ
  pub mux_iface : Option ℕ

-- What the modem and the host answer: whether the data services are there, whether the data format of
-- each mode is accepted, the master and the multiplexed interfaces that are found, and the interface
-- that is made. That raw IP is enabled is only logged.
pub record PlaneWorld : Type 0 where
  pub services_ok : Bool
  pub native_format_ok : Bool
  pub qmap_format_ok : Bool
  pub topology : Option (ℕ × List (ℕ × ℕ))
  pub added_mux : Option ℕ

abbrev pub Converging : Type 0
Converging = (PlaneError ⊎ DataPlaneSnapshot) × DataPlane

abbrev pub next_generation : DataPlane → ℕ
next_generation p = (p.snapshot.generation + 1) % 2 ^ 64

unfoldable pub converge_native : PlaneWorld → ℕ → DataPlane → Converging
converge_native w master p = if not w.native_format_ok then (inl format_failed, p) else (
  inr (record {
    generation = next_generation p;
    mode = native;
    default_interface = master;
    default_mux_id = 0;
    degraded = none;
  }),
  record p { master_iface = some master; mux_iface = none },
)

-- The end of convergeQMAPLocked, with the interface that was found or made.
unfoldable pub use_mux : DataPlaneSpec → ℕ → ℕ → DataPlane → Converging
use_mux spec master iface p = (
  inr (record {
    generation = next_generation p;
    mode = qmap;
    default_interface = iface;
    default_mux_id = spec.default_mux_id;
    degraded = none;
  }),
  record p { master_interface = some master; master_iface = some master; mux_iface = some iface },
)

unfoldable pub create_mux : PlaneWorld → DataPlaneSpec → ℕ → DataPlane → Converging
create_mux w spec master p = elim w.added_mux [
  | none ↦ (inl mux_failed, p)
  | some iface ↦ use_mux spec master iface p
]

unfoldable pub converge_qmap : PlaneWorld → DataPlaneSpec → DataPlane → Converging
converge_qmap w spec p =
    if not w.qmap_format_ok then (inl format_failed, p) else elim p.master_interface [
      | some master ↦ create_mux w spec master p
      | none ↦ elim w.topology [
        | none ↦ (inl discovery_failed, p)
        | some topology ↦ elim (lookup ℕ_discrete (topology.1) spec.default_mux_id) [
          | none ↦ create_mux w spec (topology.0) p
          | some iface ↦ use_mux spec (topology.0) iface p
        ]
      ]
    ]

-- The assignment of the result.
abbrev pub publish : Converging → Converging
publish (inl e, p) = (inl e, p)
publish (inr s, p) = (inr s, record p { snapshot = s })

abbrev pub degrade : PlaneError → Converging → Converging
degrade reason (inl e, p) = (inl (fallback_failed reason e), p)
degrade reason (inr s, p) = (inr (record s { degraded = some reason }), p)

-- Behind a failed multiplexed topology.
abbrev pub fall_back : PlaneWorld → ℕ → Converging → Converging
fall_back w master (inl e, p) = degrade e (converge_native w master p)
fall_back w master (inr s, p) = (inr s, p)

abbrev pub is_current : DataPlaneSpec → DataPlaneSnapshot → Bool
is_current spec s =
    not (s.generation == 0) && (is_mode s.mode spec.mode && s.default_mux_id == spec.default_mux_id)

-- `interface` is the configured one.
unfoldable pub converge_data_plane_locked :
    Option ℕ → PlaneWorld → DataPlaneSpec → DataPlane → Converging
converge_data_plane_locked interface w spec p =
    if is_mode spec.mode other
    then (inl unsupported_mode, p)
    else if is_mode spec.mode qmap && spec.default_mux_id == 0
    then (inl mux_id_missing, p)
    else (let declared = record p { declared_spec = spec } in
        if is_current spec p.snapshot
        then (inr p.snapshot, declared)
        else if not w.services_ok
        then (inl services_failed, declared)
        else elim interface [
          | none ↦ (inl interface_missing, declared)
          | some master ↦
              if is_mode spec.mode native
              then publish (converge_native w master declared)
              else publish (fall_back w master (converge_qmap w spec declared))
        ])

-- The redial of a connection that came up on another topology.
unfoldable pub redial_if_generation_changed : DataPlaneSnapshot → Manager → Manager
redial_if_generation_changed s m =
    if s.generation == 0
    then m
    else if not (is_connected m.state)
        || (m.connected_generation == 0 || m.connected_generation == s.generation)
    then m
    else send_event event_start (do_disconnect m)

unfoldable pub converge_data_plane :
    Option ℕ → PlaneWorld → DataPlaneSpec → DataPlane → Manager → Converging × Manager
converge_data_plane interface w spec p m =
    let r = converge_data_plane_locked interface w spec p in
    (r, elim (r.0) [ inl e ↦ m | inr s ↦ redial_if_generation_changed s m ])
