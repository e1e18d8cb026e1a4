-- ===== src/Wire/Ctl.antt =====
-- pkg/qmi/frame.go: the service identifier in TLV 0x01 of the control service's messages. A service
-- that fits a byte takes one, any other takes two.
use quectel_qmi_go.Common.{
  ℕ, ◌/◌, ◌%◌, ◌≡◌, [], ◌∷◌, if◌then◌else◌, leb, Option, none, some, Bytes, u16_at, IsU16,
  u16_bytes, arith,
}
use quectel_qmi_go.Wire.Tlv.{Tlv}

unfoldable pub encode_ctl_service_only : ℕ → Tlv
encode_ctl_service_only service =
    if leb service 0xff
    then record { type = 0x01; value = (service % 256) ∷ [] }
    else record { type = 0x01; value = (service % 256) ∷ (service / 256 % 256) ∷ [] }

-- `none` where the Go function answers ok = false.
unfoldable pub decode_ctl_service_only : Bytes → Option ℕ
decode_ctl_service_only [] = none
decode_ctl_service_only (a ∷ []) = some a
decode_ctl_service_only (a ∷ b ∷ []) = some (u16_at (a ∷ b ∷ []) 0)
decode_ctl_service_only (a ∷ b ∷ c ∷ rest) = none

unfoldable pub encode_ctl_service_client_id : ℕ → ℕ → Tlv
encode_ctl_service_client_id service client_id =
    if leb service 0xff
    then record { type = 0x01; value = (service % 256) ∷ client_id ∷ [] }
    else record { type = 0x01; value = (service % 256) ∷ (service / 256 % 256) ∷ client_id ∷ [] }

unfoldable pub decode_ctl_service_client_id : Bytes → Option (ℕ × ℕ)
decode_ctl_service_client_id [] = none
decode_ctl_service_client_id (a ∷ []) = none
decode_ctl_service_client_id (a ∷ b ∷ []) = some (a, b)
decode_ctl_service_client_id (a ∷ b ∷ c ∷ []) = some (u16_at (a ∷ b ∷ []) 0, c)
decode_ctl_service_client_id (a ∷ b ∷ c ∷ d ∷ rest) = none

-- Every 16-bit service identifier is read back from the TLV of a request, in either width.
pub decode-encode_ctl_service_only :
    (service : ℕ)
    → IsU16 service
    → decode_ctl_service_only (encode_ctl_service_only service).value ≡ some service
unfolding decode_ctl_service_only encode_ctl_service_only
decode-encode_ctl_service_only service h = ground (arith, u16_bytes service h)

-- Every 16-bit service identifier and client identifier are read back from the TLV of a response, a
-- release or a revocation, in either width.
pub decode-encode_ctl_service_client_id :
    (service client_id : ℕ)
    → IsU16 service
    → decode_ctl_service_client_id (encode_ctl_service_client_id service client_id).value
      ≡ some (service, client_id)
unfolding decode_ctl_service_client_id encode_ctl_service_client_id
decode-encode_ctl_service_client_id service client_id h = ground (arith, u16_bytes service h)
