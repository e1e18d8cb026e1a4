-- ===== src/Examples/Transports.antt =====
-- Runs of pkg/qmi/qrtr_transport_linux.go.
use quectel_qmi_go.Common.{
  ◌≡◌, refl, ◌++◌, [], ◌∷◌, true, false, none, some, arith, Bytes, lookup, ℕ_discrete,
}
use quectel_qmi_go.Wire.Header.{ok}
use quectel_qmi_go.Wire.Tlv.{marshal_tlvs, marshal_tlv}
use quectel_qmi_go.Wire.Packet.{marshal, marshal_body, unmarshal}
use quectel_qmi_go.Qrtr.Wire.{
  QrtrCtrlPkt, marshal_qrtr_ctrl_pkt, unmarshal_qrtr_ctrl_pkt, is_zero_server,
}
use quectel_qmi_go.Qrtr.Transport.{
  QrtrService, QrtrClient, QrtrTransport, new_qrtr_transport, Wake, ctrl_arrives, close_runs,
  resolve_service, ctrl_received, ctrl_packet,
}
use quectel_qmi_go.Qrtr.Transport.Replies.{reply_packet}
use quectel_qmi_go.Qrtr.Transport.Control.{Kernel, write, allocate_cid}
use quectel_qmi_go.Qrtr.Transport.Allocation.{
  client_id_request, allocated_client, client_id_tlvs, granting, client_id_allocated,
}
use quectel_qmi_go.Qrtr.Transport.Data.{data_sent_to_service}
use quectel_qmi_go.Qrtr.Transport.Services.{spares, IsAnnouncement, service_resolved}
use quectel_qmi_go.Qrtr.Transport.Sockets.{is_open}
use quectel_qmi_go.Qrtr.Transport.Ownership.{holding, IsSafe}
use quectel_qmi_go.Qrtr.Transport.Ownership.Steps.{writes, hears, here, next, sockets-IsSafe}
use quectel_qmi_go.Examples.Frames.{nas_request}

abbrev announced_service : QrtrCtrlPkt
announced_service = record { cmd = 4; service = 3; instance_id = 0x101; node = 0; port = 77 }

abbrev nas_service : QrtrService
nas_service = record { node = 0; port = 77; version_major = 1 }

abbrev announced : QrtrTransport
announced = record new_qrtr_transport { services = (3, nas_service) ∷ [] }

abbrev kernel : Kernel
kernel = record {
  lookup_answer = record { request_sent = true; meanwhile = []; rounds = [] };
  new_socket = some 11;
  timeout_set = true;
  meanwhile = [];
  data_sent_ok = true;
  drop_if_closed = false;
}

abbrev nas_client : QrtrClient
nas_client = record { client_id = 7; service = 3; sock = 11; peer = record { node = 0; port = 77 } }

abbrev connected : QrtrTransport
connected = record announced {
  clients = (3, nas_client) ∷ [];
  open_sockets = 11 ∷ [];
  next_cid = 7;
}

client_id_allocated_example :
    ((write (granting kernel 11) (marshal (client_id_request 0x105 3)) announced).0 ≡ none)
    × ((frame : Bytes) × (((write
              (granting kernel 11)
              (marshal (client_id_request 0x105 3))
              announced).1.rx
            ≡ [] ++ (frame ∷ []))
          × ((unmarshal frame
                ≡ ok (reply_packet 5 0x22 (client_id_tlvs 3 (allocate_cid announced).0)))
              × (lookup ℕ_discrete
                    (write
                      (granting kernel 11)
                      (marshal (client_id_request 0x105 3))
                      announced).1.clients
                    3
                  ≡ some (allocated_client 3 nas_service 11 announced)))))
unfolding lookup ℕ_discrete
client_id_allocated_example =
    client_id_allocated kernel announced 0x105 3 11 nas_service (omega arith) (omega arith) refl
      refl

data_sent_to_service_example : write kernel (marshal nas_request) connected ≡ (
  none,
  record connected {
    data_sent = (11, (record { node = 0; port = 77 }, marshal_body nas_request)) ∷ [];
  },
)
unfolding lookup marshal_tlvs marshal_tlv ℕ_discrete
data_sent_to_service_example =
    data_sent_to_service nas_request connected nas_client
      (record {
        service = omega arith;
        transaction = omega arith;
        message = omega arith;
        room = omega arith;
      })
      kernel (ground arith) refl refl

-- In one wait a packet too short to read, the announcement, and the end of another service.
other_gone-spares :
    spares 3
      (ctrl_arrives (marshal_qrtr_ctrl_pkt (record announced_service { cmd = 5; service = 4 })))
    ≡ true
unfolding marshal_qrtr_ctrl_pkt unmarshal_qrtr_ctrl_pkt
other_gone-spares = ground arith

short-spares : spares 3 (ctrl_arrives (1 ∷ 2 ∷ [])) ≡ true
unfolding unmarshal_qrtr_ctrl_pkt
short-spares = ground arith

announced_service-IsAnnouncement : IsAnnouncement announced_service
unfolding is_zero_server
announced_service-IsAnnouncement = record {
  fields = record {
    cmd = omega arith;
    service = omega arith;
    instance_id = omega arith;
    node = omega arith;
    port = omega arith;
  };
  command = refl;
  nonzero = ground arith;
}

abbrev short_packet : Wake
short_packet = ctrl_arrives (1 ∷ 2 ∷ [])

abbrev other_gone : Wake
other_gone =
    ctrl_arrives (marshal_qrtr_ctrl_pkt (record announced_service { cmd = 5; service = 4 }))

service_resolved_example :
    (resolve_service
      (record {
        request_sent = true;
        meanwhile = short_packet ∷ [];
        rounds =
            (record { arrivals = other_gone ∷ []; ends = false } ∷ [])
            ++ (record {
              arrivals =
                  (short_packet ∷ [])
                  ++ (ctrl_arrives (marshal_qrtr_ctrl_pkt announced_service) ∷ other_gone ∷ []);
              ends = false;
            }
                ∷ record { arrivals = close_runs ∷ []; ends = true }
                ∷ []);
      })
      3
      new_qrtr_transport).0
    ≡ some nas_service
unfolding lookup
service_resolved_example =
    service_resolved announced_service announced_service-IsAnnouncement (short_packet ∷ [])
      (short_packet ∷ []) (other_gone ∷ [])
      (record { arrivals = other_gone ∷ []; ends = false } ∷ [])
      (record { arrivals = close_runs ∷ []; ends = true } ∷ []) new_qrtr_transport
      (short-spares, tt) ((refl, (other_gone-spares, tt)), tt) (short-spares, tt)
      (other_gone-spares, tt) refl refl

abbrev after_announcement : QrtrTransport
after_announcement = ctrl_received (marshal_qrtr_ctrl_pkt announced_service) new_qrtr_transport

abbrev after_write : QrtrTransport
after_write = (write kernel (marshal (client_id_request 0x105 3)) after_announcement).1

sockets-IsSafe_example : IsSafe none (holding after_write)
unfolding is_open ctrl_received ctrl_packet
sockets-IsSafe_example = sockets-IsSafe after_write (
    next (next here (hears new_qrtr_transport (marshal_qrtr_ctrl_pkt announced_service))) (
      writes after_announcement kernel (marshal (client_id_request 0x105 3))
        (λ sock e. ground arith)))
