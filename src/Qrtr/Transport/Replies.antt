-- ===== src/Qrtr/Transport/Replies.antt =====
-- pkg/qmi/qrtr_transport_linux.go: the frames that the transport makes up for its reader.
use quectel_qmi_go.Common.{
  ℕ, ◌+◌, ◌/◌, ◌%◌, ◌≤◌, ◌≡◌, refl, sym, ◌∙◌, List, [], ◌∷◌, ◌++◌, Bool, false, ◌&&◌, if◌then◌else◌,
  length, Bytes, IsU16, append_assoc, arith,
}
use quectel_qmi_go.Wire.Header.{
  ok, marshal_frame_header, DecodedFrameHeader, CtlHeader, marshal_ctl,
}
use quectel_qmi_go.Wire.Header.Laws.{
  unmarshal_frame_header-marshal_frame_header, length-marshal_frame_header,
  unmarshal_ctl-marshal_ctl,
}
use quectel_qmi_go.Wire.Tlv.{Tlv, marshal_tlvs}
use quectel_qmi_go.Wire.Packet.{
  Packet, service_control, unmarshal, unmarshal_body, unmarshal_ctl_body,
}
use quectel_qmi_go.Wire.Packet.RoundTrip.{
  unmarshal_frame-whole, read_tlvs-marshal_tlvs, ctl_long_enough, drop-marshal_ctl,
}
use quectel_qmi_go.Qrtr.Transport.{QrtrTransport}

-- A send that waits for room in the queue goes through once Read takes a frame. After Close the
-- select of pushRx may as well drop the frame: `drop_if_closed` is its choice.
unfoldable pub push_rx : Bool → Bytes → QrtrTransport → QrtrTransport
push_rx drop_if_closed frame t =
    if t.closed && drop_if_closed then t else record t { rx = t.rx ++ (frame ∷ []) }

unfoldable pub rebuild_frame : ℕ → ℕ → Bytes → Bytes
rebuild_frame service client_id sdu = marshal_frame_header service client_id (length sdu) ++ sdu

abbrev pub success_result_tlv : Tlv
success_result_tlv = record { type = 0x02; value = 0x00 ∷ 0x00 ∷ 0x00 ∷ 0x00 ∷ [] }

unfoldable pub error_result_tlv : ℕ → Tlv
error_result_tlv code = record {
  type = 0x02;
  value = 0x01 ∷ 0x00 ∷ (code % 256) ∷ (code / 256 % 256) ∷ [];
}

unfoldable pub marshal_ctl_response_frame : ℕ → ℕ → List Tlv → Bytes
marshal_ctl_response_frame tx_id msg_id tlvs =
    let tlv_bytes = marshal_tlvs tlvs in
    let body =
      marshal_ctl (record {
        control_flags = 0x01;
        transaction_id = tx_id;
        message_id = msg_id;
        length = length tlv_bytes % 65536;
      })
      ++ tlv_bytes in
    marshal_frame_header service_control 0 (length body) ++ body

unfoldable pub reply_ctl : Bool → ℕ → ℕ → List Tlv → QrtrTransport → QrtrTransport
reply_ctl drop_if_closed tx_id msg_id tlvs t =
    push_rx drop_if_closed (marshal_ctl_response_frame tx_id msg_id tlvs) t

unfoldable pub reply_ctl_error : Bool → ℕ → ℕ → ℕ → QrtrTransport → QrtrTransport
reply_ctl_error drop_if_closed tx_id msg_id code t =
    reply_ctl drop_if_closed tx_id msg_id (error_result_tlv code ∷ []) t

-- What the read loop makes of a reply.
abbrev pub reply_packet : ℕ → ℕ → List Tlv → Packet
reply_packet tx_id msg_id tlvs = record {
  service_type = service_control;
  client_id = 0;
  transaction_id = tx_id;
  message_id = msg_id;
  is_indication = false;
  tlvs = tlvs;
}

module _ (tx_id msg_id : ℕ) (tlvs : List Tlv) where
  abbrev reply_header : CtlHeader
  reply_header = record {
    control_flags = 0x01;
    transaction_id = tx_id;
    message_id = msg_id;
    length = length (marshal_tlvs tlvs) % 65536;
  }

  abbrev reply_body : Bytes
  reply_body = marshal_ctl reply_header ++ marshal_tlvs tlvs

  length-reply_body : length reply_body ≡ 6 + length (marshal_tlvs tlvs)
  unfolding marshal_ctl
  length-reply_body = omega arith

  unmarshal_body-reply_body :
      (fh : DecodedFrameHeader)
      → fh.service_type ≡ 0
      → fh.client_id ≡ 0
      → IsU16 msg_id
      → length (marshal_tlvs tlvs) + 12 ≤ 65536
      → unmarshal_body fh reply_body ≡ ok (reply_packet tx_id msg_id tlvs)
  unfolding unmarshal_body unmarshal_ctl_body
  unmarshal_body-reply_body fh es ec hm hl = rw (
    es,
    ec,
    ctl_long_enough reply_header (marshal_tlvs tlvs),
    unmarshal_ctl-marshal_ctl reply_header (marshal_tlvs tlvs) hm (omega arith),
    drop-marshal_ctl reply_header (marshal_tlvs tlvs),
    read_tlvs-marshal_tlvs tlvs (length (marshal_tlvs tlvs) % 65536) (omega (arith, hl))
        (omega (arith, hl)),
  )

-- The reader takes a reply of the transport for a response of the control service: the transaction,
-- the message and the TLVs of the reply, client 0, and no indication, whatever follows in the buffer.
pub unmarshal-marshal_ctl_response_frame :
    (tx_id msg_id : ℕ) (tlvs : List Tlv) (rest : Bytes)
    → IsU16 msg_id
    → length (marshal_tlvs tlvs) + 12 ≤ 65536
    → unmarshal (marshal_ctl_response_frame tx_id msg_id tlvs ++ rest)
      ≡ ok (reply_packet tx_id msg_id tlvs)
unfolding unmarshal marshal_ctl_response_frame
unmarshal-marshal_ctl_response_frame tx_id msg_id tlvs rest hm hl =
    let body = reply_body tx_id msg_id tlvs in
    let header = marshal_frame_header service_control 0 (length body) in
    let n = length-reply_body tx_id msg_id tlvs in
    rw
      (
        append_assoc header body rest,
        unmarshal_frame_header-marshal_frame_header 0 0 (length body) (body ++ rest) (omega arith)
            (omega (arith, n, hl)),
      )
      (unmarshal_frame-whole _ header body rest
          (sym (length-marshal_frame_header 0 0 (length body)))
          (omega (arith, length-marshal_frame_header 0 0 (length body)))
        ∙ unmarshal_body-reply_body tx_id msg_id tlvs _ refl refl hm hl)
