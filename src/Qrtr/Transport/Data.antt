-- ===== src/Qrtr/Transport/Data.antt =====
-- pkg/qmi/qrtr_transport_linux.go: the data between the client and a service, both ways.
use quectel_qmi_go.Common.{
  ℕ, ◌≡◌, ◌≢◌, ◌∙◌, [], ◌∷◌, ◌++◌, Bool, true, false, none, some, lookup, ℕ_discrete,
}
use quectel_qmi_go.Wire.Packet.{Packet, service_control, marshal, marshal_body}
use quectel_qmi_go.Wire.Packet.RoundTrip.{IsSendable}
use quectel_qmi_go.Qrtr.Transport.{QrtrClient, QrtrTransport}
use quectel_qmi_go.Qrtr.Transport.Control.{Kernel, handle_data_write, write}
use quectel_qmi_go.Qrtr.Transport.Requests.{write-marshal_data}

module _ (p : Packet) (t : QrtrTransport) (cl : QrtrClient) (v : IsSendable p) where
  -- A packet of a service with a client, where SendTo succeeds: Write succeeds, and all that it does
  -- is to send the packet without its frame header, on that client's socket, to the service's
  -- address, whatever client identifier the packet names.
  pub data_sent_to_service :
      (k : Kernel)
      → p.service_type ≢ service_control
      → lookup ℕ_discrete t.clients p.service_type ≡ some cl
      → k.data_sent_ok ≡ true
      → write k (marshal p) t ≡ (
        none,
        record t { data_sent = t.data_sent ++ ((cl.sock, (cl.peer, marshal_body p)) ∷ []) },
      )
  unfolding handle_data_write
  data_sent_to_service k ne e es = write-marshal_data k t p v ne ∙ rw (handle_data_write, e, es)

-- What a service sends to a client, with its control flags.
pub data Arrival : Type 0 where
  response indication : Arrival

abbrev pub flags_of : Arrival → ℕ
flags_of response = 0x02
flags_of indication = 0x04

abbrev pub is_indicated : Arrival → Bool
is_indicated response = false
is_indicated indication = true
