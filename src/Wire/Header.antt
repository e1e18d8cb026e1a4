-- ===== src/Wire/Header.antt =====
-- pkg/qmi/frame.go: the QMUX and QRTR frame headers, the control and service message headers.
pub mod Laws
use quectel_qmi_go.Common.{
  ℕ, suc, ◌+◌, ◌%◌, List, [], ◌∷◌, Bool, if◌then◌else◌, ltb, leb, ◌==◌, not, ◌≡◌, refl, ◌⊎◌, inl,
  inr, length, get_or, Bytes, put_u16, u16_at,
}

-- The errors of frame.go, with the numbers that their messages carry.
pub data FrameError : Type 0 where
  header_too_short : ℕ → FrameError
  invalid_if_type : ℕ → FrameError
  invalid_marker : ℕ → FrameError
  invalid_length : ℕ → FrameError
  truncated : ℕ → ℕ → FrameError
  tlv_header_too_short : FrameError
  tlv_truncated : ℕ → ℕ → FrameError
  body_too_short : ℕ → FrameError
  tlv_data_truncated : ℕ → ℕ → FrameError
  -- No Go error: the fuel of the TLV loop ran out.
  out_of_fuel : FrameError

pub data Result {ℓ} (A : Type ℓ) : Type ℓ where
  ok : A → Result A
  err : FrameError → Result A

infixl 5 ◌>>=◌
abbrev pub ◌>>=◌ {ℓ κ} : {A : Type ℓ} {B : Type κ} → Result A → (A → Result B) → Result B
ok a >>= f = f a
err e >>= f = err e

pub Result-cases {ℓ} :
    {A : Type ℓ} (r : Result A) → ((a : A) × (r ≡ ok a)) ⊎ ((e : FrameError) × (r ≡ err e))
Result-cases (ok a) = inl (a, refl)
Result-cases (err e) = inr (e, refl)

pub record QrtrVirtualHeader : Type 0 where
  pub if_type : ℕ
  pub length : ℕ
  pub control_flags : ℕ
  pub service_type : ℕ
  pub client_id : ℕ

abbrev pub qrtr_header_size : ℕ
qrtr_header_size = 7

unfoldable pub marshal_qrtr : QrtrVirtualHeader → Bytes
marshal_qrtr h =
    0x02 ∷ put_u16 h.length (h.control_flags ∷ put_u16 h.service_type (h.client_id ∷ []))

unfoldable pub unmarshal_qrtr : Bytes → Result QrtrVirtualHeader
unmarshal_qrtr bs =
    if ltb (length bs) qrtr_header_size
    then err (header_too_short (length bs))
    else if not (get_or bs 0 0 == 0x02)
    then err (invalid_if_type (get_or bs 0 0))
    else ok (record {
      if_type = get_or bs 0 0;
      length = u16_at bs 1;
      control_flags = get_or bs 3 0;
      service_type = u16_at bs 4;
      client_id = get_or bs 6 0;
    })

pub record QmuxHeader : Type 0 where
  pub if_type : ℕ
  pub length : ℕ
  pub control_flags : ℕ
  pub service_type : ℕ
  pub client_id : ℕ

abbrev pub qmux_header_size : ℕ
qmux_header_size = 6

unfoldable pub marshal_qmux : QmuxHeader → Bytes
marshal_qmux h = 0x01 ∷ put_u16 h.length (h.control_flags ∷ h.service_type ∷ h.client_id ∷ [])

unfoldable pub unmarshal_qmux : Bytes → Result QmuxHeader
unmarshal_qmux bs =
    if ltb (length bs) qmux_header_size
    then err (header_too_short (length bs))
    else if not (get_or bs 0 0 == 0x01)
    then err (invalid_if_type (get_or bs 0 0))
    else ok (record {
      if_type = get_or bs 0 0;
      length = u16_at bs 1;
      control_flags = get_or bs 3 0;
      service_type = get_or bs 4 0;
      client_id = get_or bs 5 0;
    })

-- The conversions uint16(bodyLen + 5) and uint16(bodyLen + 6) wrap.
unfoldable pub marshal_frame_header : ℕ → ℕ → ℕ → Bytes
unfolding marshal_qmux marshal_qrtr
marshal_frame_header service client_id body_len =
    if leb service 0xff
    then marshal_qmux (record {
      if_type = 0x01;
      length = (body_len + 5) % 65536;
      control_flags = 0x00;
      service_type = service % 256;
      client_id = client_id;
    })
    else marshal_qrtr (record {
      if_type = 0x02;
      length = (body_len + 6) % 65536;
      control_flags = 0x00;
      service_type = service;
      client_id = client_id;
    })

pub record DecodedFrameHeader : Type 0 where
  pub header_size : ℕ
  pub length : ℕ
  pub control_flags : ℕ
  pub service_type : ℕ
  pub client_id : ℕ

unfoldable pub unmarshal_frame_header : Bytes → Result DecodedFrameHeader
unfolding unmarshal_qmux unmarshal_qrtr
unmarshal_frame_header [] = err (header_too_short 0)
unmarshal_frame_header (b ∷ bs) =
    if b == 0x01
    then (do
      h ← unmarshal_qmux (b ∷ bs)
      ok (record {
        header_size = qmux_header_size;
        length = h.length;
        control_flags = h.control_flags;
        service_type = h.service_type;
        client_id = h.client_id;
      }))
    else if b == 0x02
    then (do
      h ← unmarshal_qrtr (b ∷ bs)
      ok (record {
        header_size = qrtr_header_size;
        length = h.length;
        control_flags = h.control_flags;
        service_type = h.service_type;
        client_id = h.client_id;
      }))
    else err (invalid_marker b)

pub record CtlHeader : Type 0 where
  pub control_flags : ℕ
  pub transaction_id : ℕ
  pub message_id : ℕ
  pub length : ℕ

abbrev pub ctl_header_size : ℕ
ctl_header_size = 6

unfoldable pub marshal_ctl : CtlHeader → Bytes
marshal_ctl h = h.control_flags ∷ h.transaction_id ∷ put_u16 h.message_id (put_u16 h.length [])

unfoldable pub unmarshal_ctl : Bytes → Result CtlHeader
unmarshal_ctl bs =
    if ltb (length bs) ctl_header_size
    then err (header_too_short (length bs))
    else ok (record {
      control_flags = get_or bs 0 0;
      transaction_id = get_or bs 1 0;
      message_id = u16_at bs 2;
      length = u16_at bs 4;
    })

pub record ServiceHeader : Type 0 where
  pub control_flags : ℕ
  pub transaction_id : ℕ
  pub message_id : ℕ
  pub length : ℕ

abbrev pub service_header_size : ℕ
service_header_size = 7

unfoldable pub marshal_service : ServiceHeader → Bytes
marshal_service h =
    h.control_flags ∷ put_u16 h.transaction_id (put_u16 h.message_id (put_u16 h.length []))

unfoldable pub unmarshal_service : Bytes → Result ServiceHeader
unmarshal_service bs =
    if ltb (length bs) service_header_size
    then err (header_too_short (length bs))
    else ok (record {
      control_flags = get_or bs 0 0;
      transaction_id = u16_at bs 1;
      message_id = u16_at bs 3;
      length = u16_at bs 5;
    })
