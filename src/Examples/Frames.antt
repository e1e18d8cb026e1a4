-- ===== src/Examples/Frames.antt =====
-- Runs of pkg/qmi/frame.go and qrtr_wire.go.
use quectel_qmi_go.Common.{◌≡◌, refl, [], ◌∷◌, ◌++◌, false, arith, replicate}
use quectel_qmi_go.Wire.Header.{ok, marshal_frame_header, marshal_service}
use quectel_qmi_go.Wire.Tlv.{
  marshal_tlv, marshal_tlvs, parse_tlvs, parse_tlvs_loop, unmarshal_tlv, parsed,
}
use quectel_qmi_go.Wire.Tlv.Reading.{Explains, parse_tlvs-Explains}
use quectel_qmi_go.Wire.Packet.{Packet, marshal, marshal_body, unmarshal}
use quectel_qmi_go.Wire.Packet.RoundTrip.{received, unmarshal-marshal}
use quectel_qmi_go.Qrtr.Wire.{QrtrCtrlPkt}

-- A request of the network access service with two TLVs, and one of the control service.
abbrev pub nas_request : Packet
nas_request = record {
  service_type = 0x03;
  client_id = 7;
  transaction_id = 0x0102;
  message_id = 0x0024;
  is_indication = false;
  tlvs = record { type = 0x10; value = 1 ∷ 2 ∷ [] } ∷ record { type = 0x02; value = [] } ∷ [];
}

abbrev pub ctl_request : Packet
ctl_request = record {
  service_type = 0x00;
  client_id = 0;
  transaction_id = 0x0105;
  message_id = 0x0022;
  is_indication = false;
  tlvs = record { type = 0x01; value = 0x03 ∷ [] } ∷ [];
}

nas_request_bytes :
    marshal nas_request
    ≡ 0x01 ∷ 20 ∷ 0 ∷ 0 ∷ 3 ∷ 7 ∷ 0 ∷ 2 ∷ 1 ∷ 0x24 ∷ 0 ∷ 8 ∷ 0 ∷ 0x10 ∷ 2 ∷ 0 ∷ 1 ∷ 2 ∷ 2 ∷ 0 ∷ 0
      ∷ []
unfolding marshal marshal_body marshal_frame_header marshal_service marshal_tlvs marshal_tlv
nas_request_bytes = refl

-- Three zero bytes are a TLV of type 0, not padding.
zeros_parsed : parse_tlvs (replicate 5 0) ≡ parsed (record { type = 0; value = [] } ∷ [])
unfolding parse_tlvs parse_tlvs_loop unmarshal_tlv
zeros_parsed = refl

unmarshal-marshal_example :
    unmarshal (marshal ctl_request ++ (9 ∷ 9 ∷ [])) ≡ ok (received ctl_request)
unfolding marshal_tlvs marshal_tlv
unmarshal-marshal_example = unmarshal-marshal ctl_request (9 ∷ 9 ∷ []) (omega arith)

-- A TLV that claims more than there is.
parse_tlvs-Explains_example :
    Explains (1 ∷ 1 ∷ 0 ∷ 5 ∷ 2 ∷ 9 ∷ 0 ∷ 7 ∷ []) (parse_tlvs (1 ∷ 1 ∷ 0 ∷ 5 ∷ 2 ∷ 9 ∷ 0 ∷ 7 ∷ []))
parse_tlvs-Explains_example = parse_tlvs-Explains (1 ∷ 1 ∷ 0 ∷ 5 ∷ 2 ∷ 9 ∷ 0 ∷ 7 ∷ []) (omega arith)

abbrev new_server : QrtrCtrlPkt
new_server = record { cmd = 4; service = 3; instance_id = 0x101; node = 0; port = 77 }
