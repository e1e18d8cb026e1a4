-- ===== src/Qrtr/Transport.antt =====
-- pkg/qmi/qrtr_transport_linux.go: the state of the transport, the control reader, and the waits for
-- an announcement. Sockets are numbered handles; what the kernel answers
-- is an argument.
pub mod Replies
pub mod Control
pub mod Sockets
pub mod Ownership
pub mod Requests
pub mod Allocation
pub mod Data
pub mod Services
use quectel_qmi_go.Common.{
  ℕ, ◌+◌, ◌/◌, ◌%◌, ◌^◌, List, [], ◌∷◌, ◌++◌, Bool, true, false, not, ◌||◌, ◌&&◌, if◌then◌else◌,
  ltb, ◌==◌, length, Option, none, some, Bytes, lookup, delete, insert, ℕ_discrete, ◌-◌, leb,
}
use quectel_qmi_go.Wire.Header.{marshal_frame_header, marshal_ctl}
use quectel_qmi_go.Wire.Tlv.{Tlv, marshal_tlvs}
use quectel_qmi_go.Wire.Packet.{service_control}
use quectel_qmi_go.Qrtr.Wire.{
  QrtrCtrlPkt, SockaddrQrtr, WireResult, ok, err, unmarshal_qrtr_ctrl_pkt, is_zero_server,
  qrtr_type_new_server, qrtr_type_del_server, marshal_qrtr_ctrl_pkt, new_lookup_request,
}

pub record QrtrService : Type 0 where
  pub node : ℕ
  pub port : ℕ
  pub version_major : ℕ

pub record QrtrClient : Type 0 where
  pub client_id : ℕ
  pub service : ℕ
  pub sock : ℕ
  pub peer : SockaddrQrtr

-- `open_sockets` are the data sockets not closed yet, `data_sent` what SendTo was given on them,
-- `ctrl_sent` what it was given on the control socket, and `rx` the frames in rxCh or waiting to
-- enter it. `notified` counts the calls of broadcastLocked.
pub record QrtrTransport : Type 0 where
  pub closed : Bool
  pub services : List (ℕ × QrtrService)
  pub clients : List (ℕ × QrtrClient)
  pub next_cid : ℕ
  pub enum_gen : ℕ
  pub notified : ℕ
  pub rx : List Bytes
  pub open_sockets : List ℕ
  pub data_sent : List (ℕ × (SockaddrQrtr × Bytes))
  pub ctrl_sent : List Bytes

-- newQRTRTransport, where the control socket opens.
abbrev pub new_qrtr_transport : QrtrTransport
new_qrtr_transport = record {
  closed = false;
  services = [];
  clients = [];
  next_cid = 0;
  enum_gen = 0;
  notified = 0;
  rx = [];
  open_sockets = [];
  data_sent = [];
  ctrl_sent = [];
}

unfoldable pub close_socket : ℕ → List ℕ → List ℕ
close_socket s [] = []
close_socket s (x ∷ xs) = let rest = close_socket s xs in if x == s then rest else x ∷ rest

unfoldable pub close_sockets : List (ℕ × QrtrClient) → List ℕ → List ℕ
close_sockets [] sockets = sockets
close_sockets ((service, cl) ∷ clients) sockets =
    close_sockets clients (close_socket cl.sock sockets)

unfoldable pub broadcast_locked : QrtrTransport → QrtrTransport
broadcast_locked t = record t { notified = t.notified + 1 }

-- Close; a second call does nothing.
unfoldable pub close : QrtrTransport → QrtrTransport
unfolding broadcast_locked
close t =
    if t.closed
    then t
    else broadcast_locked (record t {
      closed = true;
      open_sockets = close_sockets t.clients t.open_sockets;
      clients = [];
    })

-- The switch of runCtrlReader. uint16(pkt.service) keeps 16 bits, pkt.instance & 0xff keeps 8.
unfoldable pub ctrl_packet : QrtrCtrlPkt → QrtrTransport → QrtrTransport
unfolding broadcast_locked
ctrl_packet pkt t =
    if pkt.cmd == qrtr_type_new_server
    then broadcast_locked (
        if is_zero_server pkt then record t { enum_gen = (t.enum_gen + 1) % 2 ^ 64 } else record t {
          services =
              insert ℕ_discrete t.services (pkt.service % 65536) (record {
                node = pkt.node;
                port = pkt.port;
                version_major = pkt.instance_id % 256;
              });
        })
    else if pkt.cmd == qrtr_type_del_server
    then broadcast_locked
        (record t { services = delete ℕ_discrete t.services (pkt.service % 65536) })
    else t

-- One round of runCtrlReader with the bytes that arrived.
unfoldable pub ctrl_received : Bytes → QrtrTransport → QrtrTransport
ctrl_received bs t = elim (unmarshal_qrtr_ctrl_pkt bs) [ ok pkt ↦ ctrl_packet pkt t | err e ↦ t ]

-- What happens while the lock is free: the control reader takes a packet, or Close runs.
pub data Wake : Type 0 where
  ctrl_arrives : Bytes → Wake
  close_runs : Wake

unfoldable pub apply_wake : Wake → QrtrTransport → QrtrTransport
apply_wake (ctrl_arrives bs) t = ctrl_received bs t
apply_wake close_runs t = close t

unfoldable pub apply_wakes : List Wake → QrtrTransport → QrtrTransport
apply_wakes [] t = t
apply_wakes (w ∷ ws) t = apply_wakes ws (apply_wake w t)

-- A wait of waitChangeLocked: all that happens until it has the lock again, and whether its select
-- takes the deadline or closeCh in place of the notify channel. If that channel is not closed
-- meanwhile, the wait goes on.
pub record Round : Type 0 where
  pub arrivals : List Wake
  pub ends : Bool

-- What the kernel answers to SendTo on the control socket, what happens during that call, and the
-- waits, behind which the deadline passes.
pub record Lookup : Type 0 where
  pub request_sent : Bool
  pub meanwhile : List Wake
  pub rounds : List Round

-- The waits of resolveService on the notify channel of this number, and the tests of its loop behind
-- each wake-up.
unfoldable pub resolve_loop :
    List Round → ℕ → ℕ → QrtrTransport → Option QrtrService × QrtrTransport
resolve_loop [] service channel t = (none, t)
resolve_loop (r ∷ rs) service channel t =
    let t' = apply_wakes r.arrivals t in
    let waiting = resolve_loop rs service channel t' in
    let again = resolve_loop rs service t'.notified t' in
    if r.ends
    then (none, t')
    else if t'.notified == channel
    then waiting
    else elim (lookup ℕ_discrete t'.services service) [
      | some srv ↦ (some srv, t')
      | none ↦ if t'.closed then (none, t') else again
    ]

unfoldable pub send_ctrl : QrtrCtrlPkt → QrtrTransport → QrtrTransport
send_ctrl pkt t = record t { ctrl_sent = t.ctrl_sent ++ (marshal_qrtr_ctrl_pkt pkt ∷ []) }

-- `none` where the Go function returns an error.
unfoldable pub resolve_service : Lookup → ℕ → QrtrTransport → Option QrtrService × QrtrTransport
unfolding send_ctrl
resolve_service l service t = elim (lookup ℕ_discrete t.services service) [
  | some srv ↦ (some srv, t)
  | none ↦
      let t' = apply_wakes l.meanwhile (send_ctrl (new_lookup_request service) t) in
      if t.closed
      then (none, t)
      else if not l.request_sent
      then (none, t)
      else elim (lookup ℕ_discrete t'.services service) [
        | some srv ↦ (some srv, t')
        | none ↦ if t'.closed then (none, t') else resolve_loop l.rounds service t'.notified t'
      ]
]

unfoldable pub enumerate_loop : List Round → ℕ → ℕ → QrtrTransport → QrtrTransport
enumerate_loop [] start_gen channel t = t
enumerate_loop (r ∷ rs) start_gen channel t =
    let t' = apply_wakes r.arrivals t in
    let waiting = enumerate_loop rs start_gen channel t' in
    let again = enumerate_loop rs start_gen t'.notified t' in
    if r.ends
    then t'
    else if t'.notified == channel
    then waiting
    else if t'.enum_gen == start_gen && not t'.closed
    then again
    else t'

unfoldable pub enumerate_services : Lookup → QrtrTransport → QrtrTransport
unfolding send_ctrl
enumerate_services l t =
    let t' = apply_wakes l.meanwhile (send_ctrl (new_lookup_request 0) t) in
    if t.closed || not l.request_sent
    then t
    else if t'.enum_gen == t.enum_gen && not t'.closed
    then enumerate_loop l.rounds t.enum_gen t'.notified t'
    else t'
