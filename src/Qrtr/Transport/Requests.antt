-- ===== src/Qrtr/Transport/Requests.antt =====
-- pkg/qmi/qrtr_transport_linux.go: what Write makes of the packets that the client sends.
use quectel_qmi_go.Common.{
  ℕ, ◌+◌, ◌%◌, ◌≤◌, ◌<◌, ◌≡◌, ◌≢◌, [], ◌++◌, append-nil, if◌then◌else◌, ltb-false, ◌==◌, length,
  take, drop, Bytes, IsU16, take-length_append, drop-length_append, length-append, arith,
}
use quectel_qmi_go.Wire.Header.{marshal_frame_header, marshal_ctl}
use quectel_qmi_go.Wire.Header.Laws.{
  unmarshal_frame_header-marshal_frame_header, length-marshal_frame_header,
  unmarshal_ctl-marshal_ctl, frame_header_size,
}
use quectel_qmi_go.Wire.Tlv.{parsed, parse_tlvs, marshal_tlvs}
use quectel_qmi_go.Wire.Tlv.RoundTrip.{parse_tlvs-marshal_tlvs}
use quectel_qmi_go.Wire.Packet.{Packet, service_control, marshal, marshal_body}
use quectel_qmi_go.Wire.Packet.RoundTrip.{
  IsSendable, ctl_header_of, run-Fits, drop-marshal_ctl, length-marshal_body,
}
use quectel_qmi_go.Qrtr.Transport.{QrtrTransport}
use quectel_qmi_go.Qrtr.Transport.Control.{
  Kernel, dispatch_ctl, handle_ctl_write, handle_data_write, write,
}

module _ (k : Kernel) (t : QrtrTransport) where
  pub write-frame :
      (service client_id : ℕ) (body : Bytes)
      → IsU16 service
      → frame_header_size service + length body ≤ 65536
      → write k (marshal_frame_header service client_id (length body) ++ body) t ≡ (
          if service == service_control
          then handle_ctl_write k body t
          else handle_data_write k service client_id body t)
  unfolding write
  write-frame service client_id body hs hl =
      let header = marshal_frame_header service client_id (length body) in
      let size = length-marshal_frame_header service client_id (length body) in
      let cut : drop (frame_header_size service) (header ++ body) ≡ body =
        rw size at (drop-length_append header body) in
      rw (
        write,
        unmarshal_frame_header-marshal_frame_header service client_id (length body) body hs hl,
        ltb-false (length (header ++ body)) (frame_header_size service)
            (omega (arith, length-append header body, size)),
        cut,
      )

  module _ (p : Packet) (v : IsSendable p) where
    -- A sendable packet of another service goes to the client of its service, message header and all.
    pub write-marshal_data :
        p.service_type ≢ service_control
        → write k (marshal p) t ≡ handle_data_write k p.service_type p.client_id (marshal_body p) t
    unfolding marshal
    write-marshal_data ne = ground (
      arith,
      write-frame p.service_type p.client_id (marshal_body p),
      length-marshal_body p,
      v.room,
      v.service,
    )

    pub handle_ctl_write-marshal :
        handle_ctl_write k (marshal_ctl (ctl_header_of p) ++ marshal_tlvs p.tlvs) t
        ≡ dispatch_ctl k (ctl_header_of p) p.tlvs t
    unfolding handle_ctl_write dispatch_ctl
    handle_ctl_write-marshal =
        let h = ctl_header_of p in
        let run = marshal_tlvs p.tlvs in
        let short : length run < 65536 = omega (arith, v.room) in
        let n : length run % 65536 ≡ length run = omega (arith, short) in
        let back : parse_tlvs run ≡ parsed p.tlvs =
          rw append-nil at
            (parse_tlvs-marshal_tlvs p.tlvs 0 (run-Fits p.tlvs short) (omega arith)) in
        let whole : take (length run) run ≡ run = rw append-nil at (take-length_append run []) in
        rw (
          handle_ctl_write,
          unmarshal_ctl-marshal_ctl h run v.message (omega arith),
          drop-marshal_ctl h run,
          n,
          ltb-false (length run) (length run) (omega arith),
          whole,
          back,
        )
