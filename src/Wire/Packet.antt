-- ===== src/Wire/Packet.antt =====
-- pkg/qmi/frame.go: whole packets, and the result code that a response carries.
pub mod RoundTrip
pub mod Flagged
pub mod Success
use quectel_qmi_go.Common.{
  ℕ, ◌+◌, ◌%◌, List, ◌++◌, Bool, true, false, not, if◌then◌else◌, ltb, ◌==◌, ◌&&◌, length, take,
  drop, Option, none, some, Bytes, u16_at, bit_and,
}
use quectel_qmi_go.Wire.Header.{
  FrameError, invalid_length, truncated, body_too_short, tlv_data_truncated, out_of_fuel, Result,
  ok, err, ◌>>=◌, marshal_frame_header, unmarshal_frame_header, DecodedFrameHeader, CtlHeader,
  ctl_header_size, marshal_ctl, unmarshal_ctl, ServiceHeader, service_header_size, marshal_service,
  unmarshal_service,
}
use quectel_qmi_go.Wire.Tlv.{Tlv, Parse, parsed, failed, stuck, parse_tlvs, marshal_tlvs, find_tlv}

pub record Packet : Type 0 where
  pub service_type : ℕ
  pub client_id : ℕ
  pub transaction_id : ℕ
  pub message_id : ℕ
  pub is_indication : Bool
  pub tlvs : List Tlv

abbrev pub service_control : ℕ
service_control = 0x00

-- The message header and the TLVs. Of a control transaction only the low 8 bits are kept.
unfoldable pub marshal_body : Packet → Bytes
marshal_body p =
    let tlv_bytes = marshal_tlvs p.tlvs in
    if p.service_type == service_control
    then marshal_ctl (record {
      control_flags = 0x00;
      transaction_id = p.transaction_id % 256;
      message_id = p.message_id;
      length = length tlv_bytes % 65536;
    })
      ++ tlv_bytes
    else marshal_service (record {
      control_flags = 0x00;
      transaction_id = p.transaction_id;
      message_id = p.message_id;
      length = length tlv_bytes % 65536;
    })
      ++ tlv_bytes

unfoldable pub marshal : Packet → Bytes
marshal p =
    let body = marshal_body p in
    marshal_frame_header p.service_type p.client_id (length body) ++ body

-- p.TLVs, err = ParseTLVs(tlvData[:length]), behind the check of the length.
unfoldable pub read_tlvs : ℕ → Bytes → Result (List Tlv)
read_tlvs n tlv_data =
    if ltb (length tlv_data) n
    then err (tlv_data_truncated n (length tlv_data))
    else elim (parse_tlvs (take n tlv_data)) [
      | parsed ts ↦ ok ts
      | failed ts e ↦ err e
      | stuck ↦ err out_of_fuel
    ]

-- The branch of the control service.
unfoldable pub unmarshal_ctl_body : DecodedFrameHeader → Bytes → Result Packet
unmarshal_ctl_body fh body =
    if ltb (length body) ctl_header_size then err (body_too_short (length body)) else (do
      h ← unmarshal_ctl body
      ts ← read_tlvs h.length (drop ctl_header_size body)
      ok (record {
        service_type = fh.service_type % 256;
        client_id = fh.client_id;
        transaction_id = h.transaction_id;
        message_id = h.message_id;
        is_indication = not (bit_and h.control_flags 0x02 == 0);
        tlvs = ts;
      }))

-- The branch of every other service.
unfoldable pub unmarshal_service_body : DecodedFrameHeader → Bytes → Result Packet
unmarshal_service_body fh body =
    if ltb (length body) service_header_size then err (body_too_short (length body)) else (do
      h ← unmarshal_service body
      ts ← read_tlvs h.length (drop service_header_size body)
      ok (record {
        service_type = fh.service_type % 256;
        client_id = fh.client_id;
        transaction_id = h.transaction_id;
        message_id = h.message_id;
        is_indication = not (bit_and h.control_flags 0x04 == 0);
        tlvs = ts;
      }))

unfoldable pub unmarshal_body : DecodedFrameHeader → Bytes → Result Packet
unmarshal_body fh body =
    if fh.service_type == service_control
    then unmarshal_ctl_body fh body
    else unmarshal_service_body fh body

-- The frame is cut out of the buffer by the length that its header gives.
unfoldable pub unmarshal_frame : DecodedFrameHeader → Bytes → Result Packet
unmarshal_frame fh bs =
    let expected_total = fh.length + 1 in
    if ltb expected_total fh.header_size
    then err (invalid_length fh.length)
    else if ltb (length bs) expected_total
    then err (truncated expected_total (length bs))
    else unmarshal_body fh (drop fh.header_size (take expected_total bs))

unfoldable pub unmarshal : Bytes → Result Packet
unmarshal bs = do fh ← unmarshal_frame_header bs; unmarshal_frame fh bs

-- (result, err, ok) of TLV 0x02, `none` where the Go function answers ok = false.
unfoldable pub get_result_code : Packet → Option (ℕ × ℕ)
get_result_code p = elim (find_tlv p.tlvs 0x02) [
  | none ↦ none
  | some tlv ↦
      if ltb (length tlv.value) 4 then none else some (u16_at tlv.value 0, u16_at tlv.value 2)
]

unfoldable pub is_success : Packet → Bool
is_success p = elim (get_result_code p) [ none ↦ false | some (result, e) ↦ result == 0 ]

-- The error that CheckResult returns; `passed` is nil.
pub data CheckOutcome : Type 0 where
  passed : CheckOutcome
  missing_result : CheckOutcome
  qmi_error : (service message_id result error_code : ℕ) → CheckOutcome

unfoldable pub check_result : Packet → CheckOutcome
check_result p = elim (get_result_code p) [
  | none ↦ missing_result
  | some (result, e) ↦
      if not (result == 0) then qmi_error p.service_type p.message_id result e else passed
]
