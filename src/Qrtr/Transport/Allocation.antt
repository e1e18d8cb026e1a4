-- ===== src/Qrtr/Transport/Allocation.antt =====
-- pkg/qmi/qrtr_transport_linux.go: the allocation of a client identifier, from the request that the
-- client writes to the response that it reads.
use quectel_qmi_go.Common.{
  ℕ, ◌+◌, ◌%◌, ◌≤◌, ◌≡◌, ◌∙◌, ap, List, [], ◌∷◌, ◌++◌, append-nil, true, false, length, none, some,
  Bytes, IsU16, lookup, ℕ_discrete, lookup-insert, arith,
}
use quectel_qmi_go.Wire.Header.{ok}
use quectel_qmi_go.Wire.Tlv.{Tlv, marshal_tlvs, marshal_tlv, find_tlv}
use quectel_qmi_go.Wire.Ctl.{
  encode_ctl_service_only, decode-encode_ctl_service_only, encode_ctl_service_client_id,
}
use quectel_qmi_go.Wire.Packet.{Packet, service_control, marshal, marshal_body, unmarshal}
use quectel_qmi_go.Wire.Packet.RoundTrip.{IsSendable, length-marshal_body}
use quectel_qmi_go.Qrtr.Transport.{
  QrtrService, QrtrClient, QrtrTransport, Lookup, resolve_service, apply_wakes,
}
use quectel_qmi_go.Qrtr.Transport.Replies.{
  push_rx, success_result_tlv, reply_ctl, marshal_ctl_response_frame, reply_packet,
  unmarshal-marshal_ctl_response_frame,
}
use quectel_qmi_go.Qrtr.Transport.Control.{
  Kernel, ctl_get_client_id, allocate_cid, replace_client, enter_client, open_client, allocate_for,
  handle_allocate_client_id, dispatch_ctl, write,
}
use quectel_qmi_go.Qrtr.Transport.Requests.{write-frame, handle_ctl_write-marshal}

-- The packet of AllocateClientIDWithContext.
abbrev pub client_id_request : ℕ → ℕ → Packet
client_id_request tx_id service = record {
  service_type = service_control;
  client_id = 0;
  transaction_id = tx_id;
  message_id = ctl_get_client_id;
  is_indication = false;
  tlvs = encode_ctl_service_only service ∷ [];
}

client_id_request-IsSendable :
    (tx_id service : ℕ) → IsU16 tx_id → IsSendable (client_id_request tx_id service)
unfolding encode_ctl_service_only marshal_tlvs marshal_tlv
client_id_request-IsSendable tx_id service h = record {
  service = omega arith;
  transaction = h;
  message = omega arith;
  room = ground arith;
}

-- The client that handleAllocateClientID makes when nothing fails.
abbrev pub allocated_client : ℕ → QrtrService → ℕ → QrtrTransport → QrtrClient
allocated_client service srv sock t = record {
  client_id = (allocate_cid t).0;
  service = service;
  sock = sock;
  peer = record { node = srv.node; port = srv.port };
}

abbrev pub client_id_tlvs : ℕ → ℕ → List Tlv
client_id_tlvs service cid = success_result_tlv ∷ encode_ctl_service_client_id service cid ∷ []

client_id_tlvs-short :
    (service cid : ℕ) → length (marshal_tlvs (client_id_tlvs service cid)) + 12 ≤ 65536
unfolding marshal_tlvs marshal_tlv encode_ctl_service_client_id
client_id_tlvs-short service cid = ground arith

-- The kernel's answers where the data socket opens and nothing comes between.
abbrev pub granting : Kernel → ℕ → Kernel
granting k sock = record k { new_socket = some sock; timeout_set = true; meanwhile = [] }

module _ (k : Kernel) (t : QrtrTransport) (tx_id : ℕ) where
  handle_allocate-request :
      (service : ℕ)
      → IsU16 service
      → handle_allocate_client_id k tx_id (encode_ctl_service_only service ∷ []) t
        ≡ allocate_for k tx_id service t
  unfolding handle_allocate_client_id
  handle_allocate-request service hs =
      let found : find_tlv (encode_ctl_service_only service ∷ []) 0x01
          ≡ some (encode_ctl_service_only service) =
        unfold find_tlv encode_ctl_service_only in ground arith in
      rw (handle_allocate_client_id, found, decode-encode_ctl_service_only service hs)

  resolve_service-known :
      (l : Lookup) (service : ℕ) (srv : QrtrService)
      → lookup ℕ_discrete t.services service ≡ some srv
      → resolve_service l service t ≡ (some srv, t)
  unfolding resolve_service
  resolve_service-known l service srv e = rw (resolve_service, e)

  allocate_for-known :
      (service sock : ℕ) (srv : QrtrService)
      → lookup ℕ_discrete t.services service ≡ some srv
      → allocate_for (granting k sock) tx_id service t
        ≡ enter_client
            (granting k sock)
            tx_id
            (allocated_client service srv sock t)
            (allocate_cid t).1
  unfolding allocate_for open_client apply_wakes
  allocate_for-known service sock srv e =
      let found = resolve_service-known k.lookup_answer service srv e in
      rw (allocate_for, ap (λ r. r.0) found, ap (λ r. r.1) found)

module _ (t : QrtrTransport) (service : ℕ) (cl : QrtrClient) where
  enter_client-rx :
      (k : Kernel) (tx_id : ℕ)
      → t.closed ≡ false
      → ((enter_client k tx_id cl t).0 ≡ none)
        × (((enter_client k tx_id cl t).1.rx
              ≡ t.rx
                ++ (marshal_ctl_response_frame tx_id ctl_get_client_id
                      (client_id_tlvs cl.service cl.client_id)
                    ∷ []))
            × (lookup ℕ_discrete (enter_client k tx_id cl t).1.clients cl.service ≡ some cl))
  unfolding enter_client reply_ctl push_rx replace_client
  enter_client-rx k tx_id e =
      ground (arith, e, lookup-insert ℕ_discrete t.clients cl.service cl.service cl)

module _ (k : Kernel) (t : QrtrTransport) (tx_id service sock : ℕ) (srv : QrtrService) where
  write-client_id_request :
      IsU16 tx_id
      → IsU16 service
      → lookup ℕ_discrete t.services service ≡ some srv
      → write (granting k sock) (marshal (client_id_request tx_id service)) t
        ≡ enter_client
            (granting k sock)
            (tx_id % 256)
            (allocated_client service srv sock t)
            (allocate_cid t).1
  unfolding marshal marshal_body dispatch_ctl
  write-client_id_request ht hs e =
      let p = client_id_request tx_id service in
      let v = client_id_request-IsSendable tx_id service ht in
      write-frame (granting k sock) t 0 0 (marshal_body p) (omega arith)
        (ground (arith, length-marshal_body p, v.room))
      ∙ handle_ctl_write-marshal (granting k sock) t p v
      ∙ handle_allocate-request (granting k sock) t (tx_id % 256) service hs
      ∙ allocate_for-known k t (tx_id % 256) service sock srv e

  -- The client asks for an identifier of a service that was announced, while the transport is open
  -- and its data socket opens: Write succeeds, the table files the new client under the service with
  -- the announced peer and its own socket, and one frame is queued, which the read loop takes for the
  -- response of the request, a success with the service and the client's identifier.
  pub client_id_allocated :
      IsU16 tx_id
      → IsU16 service
      → lookup ℕ_discrete t.services service ≡ some srv
      → t.closed ≡ false
      → ((write (granting k sock) (marshal (client_id_request tx_id service)) t).0 ≡ none)
        × ((frame : Bytes) × (((write
                  (granting k sock)
                  (marshal (client_id_request tx_id service))
                  t).1.rx
                ≡ t.rx ++ (frame ∷ []))
              × ((unmarshal frame
                    ≡ ok (
                        reply_packet
                          (tx_id % 256)
                          ctl_get_client_id
                          (client_id_tlvs service (allocate_cid t).0)))
                  × (lookup ℕ_discrete
                        (write
                          (granting k sock)
                          (marshal (client_id_request tx_id service))
                          t).1.clients
                        service
                      ≡ some (allocated_client service srv sock t)))))
  unfolding allocate_cid
  client_id_allocated ht hs e ec =
      let cl = allocated_client service srv sock t in
      let step = write-client_id_request ht hs e in
      let (e0, (e1, e2)) =
        enter_client-rx (allocate_cid t).1 service cl (granting k sock) (tx_id % 256) ec in
      let reply =
        marshal_ctl_response_frame (tx_id % 256) ctl_get_client_id
          (client_id_tlvs service cl.client_id) in
      (
        ap (λ r. r.0) step ∙ e0,
        (
          reply,
          (
            ap (λ r. r.1.rx) step ∙ e1,
            (
              rw append-nil at (
                  unmarshal-marshal_ctl_response_frame (tx_id % 256) ctl_get_client_id
                    (client_id_tlvs service cl.client_id) [] (omega arith)
                    (client_id_tlvs-short service cl.client_id)),
              ap (λ r. lookup ℕ_discrete r.1.clients service) step ∙ e2,
            ),
          ),
        ),
      )
