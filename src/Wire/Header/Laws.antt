-- ===== src/Wire/Header/Laws.antt =====
-- What the frame and message headers of pkg/qmi/frame.go keep.
use quectel_qmi_go.Common.{
  ℕ, ◌+◌, ◌-◌, ◌≤◌, ◌≡◌, ◌++◌, if◌then◌else◌, leb, length, Bytes, IsU16, u16_bytes, arith,
}
use quectel_qmi_go.Wire.Header.{
  ok, marshal_frame_header, unmarshal_frame_header, CtlHeader, marshal_ctl, unmarshal_ctl,
  ServiceHeader, marshal_service, unmarshal_service, qmux_header_size, qrtr_header_size,
}

-- A control header is read back from the bytes written, whatever follows.
pub unmarshal_ctl-marshal_ctl :
    (h : CtlHeader) (rest : Bytes)
    → IsU16 h.message_id
    → IsU16 h.length
    → unmarshal_ctl (marshal_ctl h ++ rest) ≡ ok h
unfolding unmarshal_ctl marshal_ctl
unmarshal_ctl-marshal_ctl h rest hm hl =
    ground (arith, u16_bytes h.message_id hm, u16_bytes h.length hl)

-- So is a service header.
pub unmarshal_service-marshal_service :
    (h : ServiceHeader) (rest : Bytes)
    → IsU16 h.transaction_id
    → IsU16 h.message_id
    → IsU16 h.length
    → unmarshal_service (marshal_service h ++ rest) ≡ ok h
unfolding unmarshal_service marshal_service
unmarshal_service-marshal_service h rest ht hm hl =
    ground (arith, u16_bytes h.transaction_id ht, u16_bytes h.message_id hm, u16_bytes h.length hl)

abbrev pub frame_header_size : ℕ → ℕ
frame_header_size service = if leb service 0xff then qmux_header_size else qrtr_header_size

-- Either frame header is read back with the service, the client and a length that counts every byte
-- behind the marker, whatever follows.
pub unmarshal_frame_header-marshal_frame_header :
    (service client_id body_len : ℕ) (rest : Bytes)
    → IsU16 service
    → frame_header_size service + body_len ≤ 65536
    → unmarshal_frame_header (marshal_frame_header service client_id body_len ++ rest)
      ≡ ok (record {
        header_size = frame_header_size service;
        length = frame_header_size service + body_len - 1;
        control_flags = 0;
        service_type = service;
        client_id = client_id;
      })
unfolding unmarshal_frame_header marshal_frame_header
unmarshal_frame_header-marshal_frame_header service client_id body_len rest hs hl = ground (arith)

pub length-marshal_frame_header :
    (service client_id body_len : ℕ)
    → length (marshal_frame_header service client_id body_len) ≡ frame_header_size service
unfolding marshal_frame_header
length-marshal_frame_header service client_id body_len = ground arith
