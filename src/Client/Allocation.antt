-- ===== src/Client/Allocation.antt =====
-- pkg/qmi/client.go: AllocateClientIDWithContext and ReleaseClientIDWithContext, over the outcomes of
-- their requests.
use quectel_qmi_go.Common.{
  ℕ, zero, suc, ◌+◌, ◌<◌, ◌≤◌, ap, ◌∙◌, IsU16, ◌≡◌, refl, List, [], ◌∷◌, Bool, true, false,
  if◌then◌else◌, ◌==◌, ◌||◌, Option, none, some, ◌⊎◌, inl, inr, lookup, insert, delete,
  lookup-insert, lookup-delete, ℕ_discrete, arith,
}
use quectel_qmi_go.Wire.Tlv.{Tlv, find_tlv}
use quectel_qmi_go.Wire.Ctl.{
  decode_ctl_service_client_id, encode_ctl_service_client_id, decode-encode_ctl_service_client_id,
}
use quectel_qmi_go.Wire.Packet.{Packet, CheckOutcome, passed, check_result}
use quectel_qmi_go.Client.Read.{Client}

-- What a request ends with: a response, or an error, which is not looked at, and whether the caller's
-- context is done by then.
pub record Answer : Type 0 where
  pub response : Option Packet
  pub done : Bool

pub data AllocationError : Type 0 where
  service_not_supported request_failed invalid_tlv : AllocationError
  check_failed : CheckOutcome → AllocationError

-- The services that the modem declared, `none` if it was not asked.
abbrev pub is_allocatable : Option (List ℕ) → ℕ → Bool
is_allocatable none service = true
is_allocatable (some []) service = false
is_allocatable (some (v ∷ vs)) service = v == service || is_allocatable (some vs) service

abbrev pub Allocated : Type 0
Allocated = (AllocationError ⊎ ℕ) × Client

-- Behind a response.
unfoldable pub file_response : ℕ → Packet → Client → Allocated
file_response service p c = elim (check_result p) [
  | passed ↦ elim (find_tlv p.tlvs 0x01) [
    | none ↦ (inl invalid_tlv, c)
    | some tlv ↦ elim (decode_ctl_service_client_id tlv.value) [
      | none ↦ (inl invalid_tlv, c)
      | some found ↦ (
        inr (found.1),
        record c { client_ids = insert ℕ_discrete c.client_ids service (found.1) },
      )
    ]
  ]
  | CheckOutcome.missing_result ↦ (inl (check_failed CheckOutcome.missing_result), c)
  | CheckOutcome.qmi_error s m r e ↦ (inl (check_failed (CheckOutcome.qmi_error s m r e)), c)
]

-- The loop, with the tries that are left and the number of the next; it counts the requests.
unfoldable pub allocate_loop : (ℕ → Answer) → ℕ → ℕ → ℕ → Client → Allocated × ℕ
allocate_loop answers service zero k c = ((inl request_failed, c), k)
allocate_loop answers service (suc n) k c =
    let rest = allocate_loop answers service n (suc k) c in
    elim (answers k).response [
      | some p ↦ (file_response service p c, suc k)
      | none ↦ if (answers k).done then ((inl request_failed, c), suc k) else rest
    ]

unfoldable pub allocate_client_id : Option (List ℕ) → (ℕ → Answer) → ℕ → Client → Allocated × ℕ
allocate_client_id versions answers service c =
    if is_allocatable versions service
    then allocate_loop answers service 3 0 c
    else ((inl service_not_supported, c), 0)

-- The error, `none` for nil.
unfoldable pub release_client_id : Answer → ℕ → Client → Option AllocationError × Client
release_client_id answer service c = elim answer.response [
  | none ↦ (some request_failed, c)
  | some p ↦ elim (check_result p) [
    | passed ↦ (none, record c { client_ids = delete ℕ_discrete c.client_ids service })
    | CheckOutcome.missing_result ↦ (some (check_failed CheckOutcome.missing_result), c)
    | CheckOutcome.qmi_error s m r e ↦ (some (check_failed (CheckOutcome.qmi_error s m r e)), c)
  ]
]

filed :
    (service id : ℕ) (p : Packet) (c : Client) (tlv : Tlv)
    → check_result p ≡ passed
    → find_tlv p.tlvs 0x01 ≡ some tlv
    → decode_ctl_service_client_id tlv.value ≡ some (service, id)
    → file_response service p c
      ≡ (inr id, record c { client_ids = insert ℕ_discrete c.client_ids service id })
unfolding file_response
filed service id p c tlv e1 e2 e3 = rw (file_response, e1, e2, e3) refl

-- The first response is that of try j, from try k on.
loop_answered :
    (answers : ℕ → Answer) (service : ℕ) (p : Packet) (c : Client) (d n k j : ℕ)
    → j ≡ k + d
    → d < n
    → ((i : ℕ) → k ≤ i → i < j → ((answers i).response ≡ none) × ((answers i).done ≡ false))
    → (answers j).response ≡ some p
    → allocate_loop answers service n k c ≡ (file_response service p c, suc j)
unfolding allocate_loop
loop_answered answers service p c d zero k j ej h none_yet e = absurd (ground (arith, h))
loop_answered answers service p c zero (suc n) k j ej h none_yet e =
    let here : k ≡ j = omega (arith, ej) in
    let answered : (answers k).response ≡ some p = ap (λ x. (answers x).response) here ∙ e in
    rw (allocate_loop, answered) (ap (λ x. (file_response service p c, suc x)) here)
loop_answered answers service p c (suc d) (suc n) k j ej h none_yet e =
    let first = none_yet k (omega arith) (omega (arith, ej)) in
    rw (allocate_loop, first.0, first.1)
      (loop_answered answers service p c d n (suc k) j (omega (arith, ej)) (omega (arith, h))
        (λ i hi hj. none_yet i (omega (arith, hi)) hj) e)

-- The service can be allocated, and among the three tries one is answered before the context ends, the
-- first time by a success that carries the service and an identifier as the control service writes
-- them: the identifier is returned and remembered for the service, with no request behind that try, and
-- a release that succeeds forgets it.
pub client_id_filed :
    (versions : Option (List ℕ)) (answers : ℕ → Answer) (service id j : ℕ) (p : Packet) (tlv : Tlv)
    (c : Client) (released : Answer) (q : Packet)
    → is_allocatable versions service ≡ true
    → j < 3
    → ((i : ℕ) → i < j → ((answers i).response ≡ none) × ((answers i).done ≡ false))
    → (answers j).response ≡ some p
    → check_result p ≡ passed
    → find_tlv p.tlvs 0x01 ≡ some tlv
    → IsU16 service
    → tlv.value ≡ (encode_ctl_service_client_id service id).value
    → released.response ≡ some q
    → check_result q ≡ passed
    → let (r, requests) = allocate_client_id versions answers service c in
      ((r.0 ≡ inr id) × ((lookup ℕ_discrete r.1.client_ids service ≡ some id) × (requests ≡ suc j)))
      × (lookup ℕ_discrete (release_client_id released service r.1).1.client_ids service ≡ none)
unfolding allocate_client_id release_client_id
client_id_filed versions answers service id j p tlv c released q ev hj none_yet ea ep et hs eb er
      eq =
    let decoded : decode_ctl_service_client_id tlv.value ≡ some (service, id) =
      ap decode_ctl_service_client_id eb ∙ decode-encode_ctl_service_client_id service id hs in
    let after = record c { client_ids = insert ℕ_discrete c.client_ids service id } in
    let stored : allocate_client_id versions answers service c ≡ ((inr id, after), suc j) =
      rw (allocate_client_id, ev)
        (loop_answered answers service p c j 3 0 j (omega arith) hj (λ i _ hi. none_yet i hi) ea
          ∙ ap (λ x. (x, suc j)) (filed service id p c tlv ep et decoded)) in
    rw stored (
      (refl, (ground (arith, lookup-insert ℕ_discrete c.client_ids service service id), refl)),
      rw (release_client_id, er, eq)
          (ground (arith, lookup-delete ℕ_discrete after.client_ids service service)),
    )
