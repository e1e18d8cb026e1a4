-- ===== src/Client/Read.antt =====
-- pkg/qmi/client.go: what the read loop does with a frame, the client identifiers, and the ends of a
-- transaction. The state that these share is one record.
pub mod Routing
pub mod Late
use quectel_qmi_go.Common.{
  ℕ, suc, ◌+◌, ◌-◌, ◌%◌, ◌≡◌, List, [], ◌∷◌, ◌++◌, Bool, true, false, not, ◌&&◌, ◌||◌,
  if◌then◌else◌, ltb, ◌==◌, Option, none, some, Bytes, lookup, insert, delete, ℕ_discrete,
}
use quectel_qmi_go.Wire.Header.{Result, ok, err}
use quectel_qmi_go.Wire.Tlv.{Tlv, find_tlv}
use quectel_qmi_go.Wire.Ctl.{decode_ctl_service_client_id}
use quectel_qmi_go.Wire.Packet.{Packet, unmarshal, marshal, service_control}
use quectel_qmi_go.Client.Ids.{Counters, allocate_tx_id, transaction_key}
use quectel_qmi_go.Client.Recent.{RecentTransaction, Recents, remember_recent, take_recent}
use quectel_qmi_go.Client.Event.{Event, event_of, ctl_revoke_client_id_ind}

-- `ch` is the channel of one response: what it holds, not yet received.
pub record TransactionEntry : Type 0 where
  pub ch : Option Packet
  pub service : ℕ
  pub msg_id : ℕ
  pub tx_id : ℕ
  pub start : ℕ
  pub deadline : ℕ

pub record Client : Type 0 where
  pub counters : Counters
  pub transactions : List (ℕ × TransactionEntry)
  pub recent_transactions : Recents
  pub client_ids : List (ℕ × ℕ)
  pub unmatched_responses : ℕ
  pub parse_errors : ℕ
  pub late_response_last_log : ℕ
  pub late_response_suppressed : ℕ
  -- What dispatchIndication handed on, oldest first: to the handler of a service, which is not
  -- modelled, and to the queue of indications (Client/Indications).
  pub dispatched : List Event

-- 5 * time.Second
abbrev late_response_log_min_interval : ℕ
late_response_log_min_interval = 5_000_000_000

-- The line is logged, or counted as suppressed.
unfoldable pub log_late_response : ℕ → Client → Client
log_late_response now c =
    if not (c.late_response_last_log == 0)
      && ltb (now - c.late_response_last_log) late_response_log_min_interval
    then record c { late_response_suppressed = c.late_response_suppressed + 1 }
    else record c { late_response_last_log = now; late_response_suppressed = 0 }

-- delete, if the client identifier cached for the service is the one revoked.
unfoldable pub revoke : Client → ℕ → ℕ → Client
revoke c service client_id = elim (lookup ℕ_discrete c.client_ids service) [
  | none ↦ c
  | some cached ↦
      if cached == client_id
      then record c { client_ids = delete ℕ_discrete c.client_ids service }
      else c
]

-- uint8(service)
unfoldable pub handle_client_id_revoke : Client → Packet → Client
unfolding revoke
handle_client_id_revoke c p =
    if not (p.service_type == service_control) || not (p.message_id == ctl_revoke_client_id_ind)
    then c
    else elim (find_tlv p.tlvs 0x01) [
      | none ↦ c
      | some tlv ↦ elim (decode_ctl_service_client_id tlv.value) [
        | none ↦ c
        | some (service, client_id) ↦ revoke c (service % 256) client_id
      ]
    ]

unfoldable pub dispatch_indication : Client → Packet → Client
dispatch_indication c p =
    let revoked =
      if p.service_type == service_control && p.message_id == ctl_revoke_client_id_ind
      then handle_client_id_revoke c p
      else c in
    record revoked { dispatched = revoked.dispatched ++ (event_of p ∷ []) }

-- A send that does not wait, on a channel with room for one.
unfoldable pub send_response : TransactionEntry → Packet → TransactionEntry
send_response entry p = elim entry.ch [ none ↦ record entry { ch = some p } | some held ↦ entry ]

-- A response that no transaction waits for.
unfoldable pub unmatched : ℕ → Client → ℕ → Packet → Client
unmatched now c key p =
    let taken = take_recent now key p.service_type p.message_id c.recent_transactions in
    let forgotten = record c {
      unmatched_responses = c.unmatched_responses + 1;
      recent_transactions = taken.1;
    } in
    elim taken.0 [
      | some r ↦ log_late_response now forgotten
      | none ↦ dispatch_indication forgotten p
    ]

-- A packet that answers no transaction.
unfoldable pub handle_other : ℕ → Client → Packet → Client
handle_other now c p =
    if not p.is_indication && not (p.service_type == service_control)
    then unmatched now c (transaction_key p.service_type p.transaction_id) p
    else dispatch_indication c p

unfoldable pub handle_packet : ℕ → Client → Packet → Client
handle_packet now c p =
    let key = transaction_key p.service_type p.transaction_id in
    elim (lookup ℕ_discrete c.transactions key) [
      | none ↦ handle_other now c p
      | some entry ↦
          if not p.is_indication
          then record c {
            transactions = insert ℕ_discrete c.transactions key (send_response entry p);
          }
          else handle_other now c p
    ]

-- The body of the inner loop of readLoop behind the cut of a frame.
unfoldable pub handle_frame : ℕ → Client → Bytes → Client
handle_frame now c bs = elim (unmarshal bs) [
  | err e ↦ record c { parse_errors = c.parse_errors + 1 }
  | ok p ↦ handle_packet now c p
]

-- SendRequest up to the wait: the identifier, the entry and the bytes to write.
unfoldable pub begin_request : ℕ → ℕ → Client → ℕ → ℕ → ℕ → List Tlv → Client × ℕ × Bytes
begin_request now deadline c service client_id msg_id tlvs =
    let (tx, counters) = allocate_tx_id c.counters service in
    let key = transaction_key service tx in
    let entry : TransactionEntry = record {
      ch = none;
      service = service;
      msg_id = msg_id;
      tx_id = tx;
      start = now;
      deadline = deadline;
    } in
    let p : Packet = record {
      service_type = service;
      client_id = client_id;
      transaction_id = tx;
      message_id = msg_id;
      is_indication = false;
      tlvs = tlvs;
    } in
    (
      record c { counters = counters; transactions = insert ℕ_discrete c.transactions key entry },
      key,
      marshal p,
    )

-- How SendRequest ends: with a response, by its context, or by any other error.
pub data Cause : Type 0 where
  answered context_done failed : Cause

-- completeTransaction
unfoldable pub complete_transaction : ℕ → Client → ℕ → TransactionEntry → Cause → Client
complete_transaction now c key entry cause =
    let removed = record c { transactions = delete ℕ_discrete c.transactions key } in
    elim cause [
      | context_done ↦ record removed {
        recent_transactions =
            remember_recent now key
              (record {
                service = entry.service;
                msg_id = entry.msg_id;
                tx_id = entry.tx_id;
                start = entry.start;
                deadline = entry.deadline;
                completed_at = now;
              })
              c.recent_transactions;
      }
      | _ ↦ removed
    ]
