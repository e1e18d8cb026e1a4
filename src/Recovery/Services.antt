-- ===== src/Recovery/Services.antt =====
-- pkg/manager/service_recovery.go, uim_recovery.go, service_recovery_storm.go: the services of the
-- manager, allocated when they are first used and rebound when they fail. The functions for UIM, DMS,
-- NAS, WMS, VOICE, IMS and IMSA are the same but for the tests named here. Each critical section works
-- on the fields of the manager as they are at its time: what other goroutines do in between is a
-- function of them.
pub mod Fresh
use quectel_qmi_go.Common.{
  ℕ, List, [], ◌∷◌, Bool, true, false, not, ◌&&◌, ◌||◌, if◌then◌else◌, ◌==◌, Option, none, some,
  ◌⊎◌, inl, inr,
}
use quectel_qmi_go.Recovery.Errors.{OpError, err_service_not_ready, err_service_not_supported}

pub data Service : Type 0 where
  uim dms nas wms voice ims imsa : Service

abbrev pub service_number : Service → ℕ
service_number uim = 0x0b
service_number dms = 0x02
service_number nas = 0x03
service_number wms = 0x05
service_number voice = 0x09
service_number ims = 0x12
service_number imsa = 0x21

-- A service client of a QMI client, both numbered.
pub record Handle : Type 0 where
  pub id : ℕ
  pub client : ℕ

-- m.client and the pointers to the services. `allocated` and `closed` are logs of service clients, and
-- `replayed` one of the services whose state is set up anew after a rebind, newest first.
pub record Bindings : Type 0 where
  pub client : Option ℕ
  pub bound : Service → Option Handle
  pub allocated : List Handle
  pub closed : List Handle
  pub replayed : List Service

abbrev pub same_service : Service → Service → Bool
same_service s t = service_number s == service_number t

unfoldable pub set_bound : Service → Option Handle → Bindings → Bindings
set_bound s h b = record b { bound = λ t. if same_service t s then h else b.bound t }

-- Whether the client must declare the service.
abbrev pub needs_support : Service → Bool
needs_support ims = true
needs_support imsa = true
needs_support s = false

-- What the modem answers to the allocation of a client, and what goes on meanwhile: before the
-- recovery lock of the service is held, and during the allocation.
pub record AllocWorld : Type 0 where
  pub before_lock : Bindings → Bindings
  pub during : Bindings → Bindings
  pub allocation : OpError ⊎ ℕ

abbrev pub Bound : Type 0
Bound = (OpError ⊎ Handle) × Bindings

abbrev pub is_client : Option ℕ → ℕ → Bool
is_client o c = elim o [ none ↦ false | some c' ↦ c' == c ]

abbrev pub not_ready : Service → Bindings → Bound
not_ready s b = (inl (err_service_not_ready (service_number s)), b)

-- The last critical section of both functions.
unfoldable pub store : Service → Handle → Bindings → Bound
unfolding set_bound
store s h b =
    let b' = record b { allocated = h ∷ b.allocated } in
    if is_client b.client h.client
    then (inr h, set_bound s (some h) b')
    else not_ready s (record b' { closed = h ∷ b.closed })

unfoldable pub allocate : AllocWorld → Service → ℕ → Bindings → Bound
allocate w s c b = elim w.allocation [
  | inl e ↦ (inl e, w.during b)
  | inr id ↦ store s (record { id = id; client = c }) (w.during b)
]

-- The previous client of the service is closed, whether that fails or not.
unfoldable pub unbind : Service → Bindings → Bindings
unfolding set_bound
unbind s b = elim (b.bound s) [
  | none ↦ b
  | some prev ↦ record (set_bound s none b) { closed = prev ∷ b.closed }
]

-- UIM registers its indications again, and WMS recovers its state.
abbrev pub replays : Service → Bool
replays uim = true
replays wms = true
replays s = false

abbrev pub note_rebound : Service → Bound → Bound
note_rebound s (inl e, b) = (inl e, b)
note_rebound s (inr h, b) = (inr h, if replays s then record b { replayed = s ∷ b.replayed } else b)

-- `has` is HasService of each client.
module _ (has : ℕ → Service → Bool) where
  -- Behind the tests for a client.
  unfoldable pub allocate_supported : AllocWorld → Service → ℕ → Bindings → Bound
  allocate_supported w s c b =
      if needs_support s && not (has c s)
      then (inl err_service_not_supported, b)
      else allocate w s c b

  -- Under the recovery lock.
  unfoldable pub ensure_locked : AllocWorld → Service → Bindings → Bound
  ensure_locked w s b = elim (b.bound s) [
    | some h ↦ (inr h, b)
    | none ↦ elim b.client [ none ↦ not_ready s b | some c ↦ allocate_supported w s c b ]
  ]

  unfoldable pub ensure_service : AllocWorld → Service → Bindings → Bound
  ensure_service w s b = elim (b.bound s) [
    | some h ↦ (inr h, b)
    | none ↦ elim b.client [
      | none ↦ not_ready s b
      | some c ↦
          if needs_support s && not (has c s)
          then (inl err_service_not_supported, b)
          else ensure_locked w s (w.before_lock b)
    ]
  ]

  unfoldable pub rebind_service : AllocWorld → Service → Bindings → Bound
  rebind_service w s b = elim b.client [
    | none ↦ not_ready s (unbind s b)
    | some c ↦ note_rebound s (allocate_supported w s c (unbind s b))
  ]
