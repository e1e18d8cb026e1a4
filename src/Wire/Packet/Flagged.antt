-- ===== src/Wire/Packet/Flagged.antt =====
-- pkg/qmi/frame.go: packets of a service as the modem sends them, with control flags.
use quectel_qmi_go.Common.{
  ℕ, ◌+◌, ◌≡◌, ◌∙◌, [], ◌++◌, append-nil, not, bit_and, ◌≢◌, ◌==◌, length, Bytes, arith,
}
use quectel_qmi_go.Wire.Header.{ok, marshal_frame_header, service_header_size, marshal_service}
use quectel_qmi_go.Wire.Tlv.{marshal_tlvs}
use quectel_qmi_go.Wire.Packet.{Packet, service_control, unmarshal_body, unmarshal}
use quectel_qmi_go.Wire.Packet.RoundTrip.{
  IsSendable, frame_of, flagged_header, unmarshal_service_body-marshal_service, unmarshal-framed,
}

-- A message of a service with any control flags: the bit 0x04 makes it an indication.
abbrev pub flagged_message : ℕ → Packet → Bytes
flagged_message flags p = marshal_service (flagged_header flags p) ++ marshal_tlvs p.tlvs

pub length-flagged_message :
    (flags : ℕ) (p : Packet)
    → length (flagged_message flags p) ≡ service_header_size + length (marshal_tlvs p.tlvs)
unfolding marshal_service
length-flagged_message flags p = ground arith

pub unmarshal-flagged :
    (flags : ℕ) (p : Packet)
    → IsSendable p
    → p.service_type ≢ service_control
    → let body = flagged_message flags p in
      unmarshal (marshal_frame_header p.service_type p.client_id (length body) ++ body)
      ≡ ok (record p { is_indication = not (bit_and flags 0x04 == 0) })
unfolding unmarshal_body
unmarshal-flagged flags p v ne =
    let body = flagged_message flags p in
    let framed =
      unmarshal-framed p body [] v.service
        (ground (arith, length-flagged_message flags p, v.room, v.service)) in
    let body_read = unmarshal_service_body-marshal_service p v (frame_of p body) flags in
    let last : unmarshal_body (frame_of p body) body
        ≡ ok (record p { is_indication = not (bit_and flags 0x04 == 0) }) =
      ground (arith, body_read, ne, v.service) in
    rw append-nil at (framed ∙ last)
