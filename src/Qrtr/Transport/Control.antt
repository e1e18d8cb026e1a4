-- ===== src/Qrtr/Transport/Control.antt =====
-- pkg/qmi/qrtr_transport_linux.go: Read and Write, the control service that Write plays, and the
-- way of the data between a client and its service.
use quectel_qmi_go.Common.{
  ℕ, ◌+◌, ◌%◌, List, [], ◌∷◌, ◌++◌, Bool, true, false, not, ◌&&◌, if◌then◌else◌, ltb, ◌==◌, length,
  take, drop, put_u16, Option, none, some, Bytes, lookup, delete, insert, ℕ_discrete,
}
use quectel_qmi_go.Wire.Header.{
  FrameError, ok, err, CtlHeader, ctl_header_size, unmarshal_ctl, unmarshal_frame_header,
}
use quectel_qmi_go.Wire.Tlv.{Tlv, parsed, failed, stuck, parse_tlvs, find_tlv}
use quectel_qmi_go.Wire.Ctl.{
  decode_ctl_service_only, encode_ctl_service_client_id, decode_ctl_service_client_id,
}
use quectel_qmi_go.Wire.Packet.{service_control}
use quectel_qmi_go.Qrtr.Transport.{
  QrtrService, QrtrClient, QrtrTransport, Wake, apply_wakes, Lookup, resolve_service,
  enumerate_services, close_socket,
}
use quectel_qmi_go.Qrtr.Transport.Replies.{
  push_rx, rebuild_frame, success_result_tlv, reply_ctl, reply_ctl_error,
}

abbrev pub ctl_get_version_info : ℕ
ctl_get_version_info = 0x0021

abbrev pub ctl_get_client_id : ℕ
ctl_get_client_id = 0x0022

abbrev pub ctl_release_client_id : ℕ
ctl_release_client_id = 0x0023

abbrev pub ctl_sync : ℕ
ctl_sync = 0x0027

abbrev pub qmi_err_malformed_msg : ℕ
qmi_err_malformed_msg = 0x0001

abbrev pub qmi_err_device_not_ready : ℕ
qmi_err_device_not_ready = 0x0005

pub data WriteError : Type 0 where
  bad_frame_header : FrameError → WriteError
  short_frame : ℕ → ℕ → WriteError
  bad_ctl_header : FrameError → WriteError
  ctl_tlv_truncated : ℕ → ℕ → WriteError
  bad_ctl_tlvs : FrameError → WriteError
  unsupported_message : ℕ → WriteError
  socket_not_opened : ℕ → WriteError
  timeout_not_set : WriteError
  no_open_client : ℕ → WriteError
  send_failed : WriteError

-- What the kernel answers to the calls of one Write: the lookup, the handle of the new data socket
-- (`none` for an error), whether its receive timeout is set, whether SendTo on a data socket
-- succeeds. `meanwhile` is what other goroutines do between allocateCID and the entry of the client.
pub record Kernel : Type 0 where
  pub lookup_answer : Lookup
  pub new_socket : Option ℕ
  pub timeout_set : Bool
  pub meanwhile : List Wake
  pub data_sent_ok : Bool
  pub drop_if_closed : Bool

abbrev pub Written : Type 0
Written = Option WriteError × QrtrTransport

-- One entry of the version list for each service whose identifier fits a byte, in the map's order.
unfoldable pub version_entries : List (ℕ × QrtrService) → List (ℕ × ℕ)
version_entries [] = []
version_entries ((id, s) ∷ services) =
    let rest = version_entries services in
    if ltb 0xff id then rest else (id, s.version_major) ∷ rest

unfoldable pub version_bytes : List (ℕ × ℕ) → Bytes
version_bytes [] = []
version_bytes ((service, major) ∷ entries) =
    (service % 256) ∷ put_u16 major (put_u16 0 (version_bytes entries))

unfoldable pub handle_get_version_info : Kernel → ℕ → QrtrTransport → Written
handle_get_version_info k tx_id t =
    let t' = enumerate_services k.lookup_answer t in
    let list = version_entries t'.services in
    (
      none,
      reply_ctl k.drop_if_closed tx_id ctl_get_version_info
          (success_result_tlv
            ∷ record { type = 0x01; value = (length list % 256) ∷ version_bytes list }
            ∷ [])
          t',
    )

unfoldable pub allocate_cid : QrtrTransport → ℕ × QrtrTransport
allocate_cid t =
    let next = (t.next_cid + 1) % 256 in
    let cid = if next == 0 then 1 else next in (cid, record t { next_cid = cid })

-- t.clients[service] = cl, the socket of the client that it replaces closed.
unfoldable pub replace_client : ℕ → QrtrClient → QrtrTransport → QrtrTransport
replace_client service cl t = elim (lookup ℕ_discrete t.clients service) [
  | some old ↦ record t {
    open_sockets = close_socket old.sock t.open_sockets;
    clients = insert ℕ_discrete t.clients service cl;
  }
  | none ↦ record t { clients = insert ℕ_discrete t.clients service cl }
]

-- The locked end of handleAllocateClientID and its reply.
unfoldable pub enter_client : Kernel → ℕ → QrtrClient → QrtrTransport → Written
enter_client k tx_id cl t =
    if t.closed
    then (none, reply_ctl_error k.drop_if_closed tx_id ctl_get_client_id qmi_err_device_not_ready t)
    else (
      none,
      reply_ctl k.drop_if_closed tx_id ctl_get_client_id
          (success_result_tlv ∷ encode_ctl_service_client_id cl.service cl.client_id ∷ [])
          (replace_client cl.service cl (record t { open_sockets = cl.sock ∷ t.open_sockets })),
    )

-- handleAllocateClientID behind the lookup.
unfoldable pub open_client : Kernel → ℕ → ℕ → QrtrService → QrtrTransport → Written
open_client k tx_id service srv t = elim k.new_socket [
  | none ↦ (some (socket_not_opened service), t)
  | some sock ↦
      if not k.timeout_set
      then (some timeout_not_set, t)
      else (let (cid, t') = allocate_cid t in
          enter_client k tx_id
            (record {
              client_id = cid;
              service = service;
              sock = sock;
              peer = record { node = srv.node; port = srv.port };
            })
            (apply_wakes k.meanwhile t'))
]

unfoldable pub allocate_for : Kernel → ℕ → ℕ → QrtrTransport → Written
allocate_for k tx_id service t =
    let (found, t') = resolve_service k.lookup_answer service t in
    elim found [
      | some srv ↦ open_client k tx_id service srv t'
      | none ↦ (
        none,
        reply_ctl_error k.drop_if_closed tx_id ctl_get_client_id qmi_err_device_not_ready t',
      )
    ]

unfoldable pub handle_allocate_client_id : Kernel → ℕ → List Tlv → QrtrTransport → Written
handle_allocate_client_id k tx_id tlvs t =
    let malformed : Written =
      (none, reply_ctl_error k.drop_if_closed tx_id ctl_get_client_id qmi_err_malformed_msg t) in
    elim (find_tlv tlvs 0x01) [
      | none ↦ malformed
      | some tlv ↦ elim (decode_ctl_service_only tlv.value) [
        | none ↦ malformed
        | some service ↦ allocate_for k tx_id service t
      ]
    ]

-- delete(t.clients, service), and the socket closed.
unfoldable pub drop_client : ℕ → QrtrTransport → QrtrTransport
drop_client service t = elim (lookup ℕ_discrete t.clients service) [
  | some cl ↦ record t {
    clients = delete ℕ_discrete t.clients service;
    open_sockets = close_socket cl.sock t.open_sockets;
  }
  | none ↦ t
]

unfoldable pub handle_release_client_id : Kernel → ℕ → List Tlv → QrtrTransport → Written
handle_release_client_id k tx_id tlvs t =
    let malformed : Written = (
      none,
      reply_ctl_error k.drop_if_closed tx_id ctl_release_client_id qmi_err_malformed_msg t,
    ) in
    elim (find_tlv tlvs 0x01) [
      | none ↦ malformed
      | some tlv ↦ elim (decode_ctl_service_client_id tlv.value) [
        | none ↦ malformed
        | some (service, client_id) ↦ (
          none,
          reply_ctl k.drop_if_closed tx_id ctl_release_client_id (success_result_tlv ∷ [])
              (drop_client service t),
        )
      ]
    ]

-- The switch of handleCTLWrite.
unfoldable pub dispatch_ctl : Kernel → CtlHeader → List Tlv → QrtrTransport → Written
dispatch_ctl k h tlvs t =
    if h.message_id == ctl_sync
    then (none, reply_ctl k.drop_if_closed h.transaction_id ctl_sync (success_result_tlv ∷ []) t)
    else if h.message_id == ctl_get_version_info
    then handle_get_version_info k h.transaction_id t
    else if h.message_id == ctl_get_client_id
    then handle_allocate_client_id k h.transaction_id tlvs t
    else if h.message_id == ctl_release_client_id
    then handle_release_client_id k h.transaction_id tlvs t
    else (some (unsupported_message h.message_id), t)

unfoldable pub handle_ctl_write : Kernel → Bytes → QrtrTransport → Written
handle_ctl_write k body t = elim (unmarshal_ctl body) [
  | err e ↦ (some (bad_ctl_header e), t)
  | ok h ↦
      if ltb (length (drop ctl_header_size body)) h.length
      then (some (ctl_tlv_truncated h.length (length (drop ctl_header_size body))), t)
      else elim (parse_tlvs (take h.length (drop ctl_header_size body))) [
        | parsed tlvs ↦ dispatch_ctl k h tlvs t
        | failed tlvs e ↦ (some (bad_ctl_tlvs e), t)
        | stuck ↦ (some (bad_ctl_tlvs FrameError.out_of_fuel), t)
      ]
]

-- Routed by the service alone: another client identifier is only logged.
unfoldable pub handle_data_write : Kernel → ℕ → ℕ → Bytes → QrtrTransport → Written
handle_data_write k service client_id body t = elim (lookup ℕ_discrete t.clients service) [
  | none ↦ (some (no_open_client service), t)
  | some cl ↦
      if k.data_sent_ok
      then (none, record t { data_sent = t.data_sent ++ ((cl.sock, (cl.peer, body)) ∷ []) })
      else (some send_failed, t)
]

unfoldable pub write : Kernel → Bytes → QrtrTransport → Written
write k frame t = elim (unmarshal_frame_header frame) [
  | err e ↦ (some (bad_frame_header e), t)
  | ok fh ↦
      if ltb (length frame) fh.header_size
      then (some (short_frame (length frame) fh.header_size), t)
      else if fh.service_type == service_control
      then handle_ctl_write k (drop fh.header_size frame) t
      else handle_data_write k fh.service_type fh.client_id (drop fh.header_size frame) t
]

-- One round of runClientReader with the bytes that arrived.
unfoldable pub client_received : Bool → ℕ → QrtrClient → Bytes → QrtrTransport → QrtrTransport
client_received drop_if_closed service cl [] t = t
client_received drop_if_closed service cl (b ∷ bs) t =
    push_rx drop_if_closed (rebuild_frame service cl.client_id (b ∷ bs)) t

-- `waiting` is no answer of Read: nothing is there yet.
pub data ReadOutcome : Type 0 where
  frame_read : Bytes → ReadOutcome
  frame_too_long : ℕ → ℕ → ReadOutcome
  end_of_file : ReadOutcome
  deadline_exceeded : ReadOutcome
  waiting : ReadOutcome

-- Read with a buffer of `size` bytes. Of the channels that are ready the select takes any:
-- `prefer_frame` is its choice between a frame and the end.
unfoldable pub read :
    (expired prefer_frame : Bool) → ℕ → QrtrTransport → ReadOutcome × QrtrTransport
read true prefer_frame size t = (deadline_exceeded, t)
read false prefer_frame size t = elim t.rx [
  | [] ↦ if t.closed then (end_of_file, t) else (waiting, t)
  | frame ∷ rest ↦
      if t.closed && not prefer_frame
      then (end_of_file, t)
      else if ltb size (length frame)
      then (frame_too_long (length frame) size, record t { rx = rest })
      else (frame_read frame, record t { rx = rest })
]
