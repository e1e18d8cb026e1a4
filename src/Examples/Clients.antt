-- ===== src/Examples/Clients.antt =====
-- Runs of pkg/qmi/client.go.
use quectel_qmi_go.Common.{
  ℕ, zero, suc, false, inr, ◌+◌, ◌≡◌, ◌≢◌, ◌≤◌, refl, List, [], ◌∷◌, true, arith, some, none, Bytes,
  map, length, lookup, ℕ_discrete,
}
use quectel_qmi_go.Wire.Header.{ok, marshal_frame_header, marshal_qmux, marshal_ctl}
use quectel_qmi_go.Wire.Tlv.{marshal_tlv, marshal_tlvs}
use quectel_qmi_go.Wire.Packet.{Packet, service_control, marshal, marshal_body, unmarshal}
use quectel_qmi_go.Wire.Packet.RoundTrip.{received}
use quectel_qmi_go.Wire.Tlv.{find_tlv}
use quectel_qmi_go.Wire.Ctl.{encode_ctl_service_client_id}
use quectel_qmi_go.Wire.Packet.{check_result, get_result_code}
use quectel_qmi_go.Client.Allocation.{
  Answer, allocate_client_id, release_client_id, client_id_filed,
}
use quectel_qmi_go.Client.Stream.{split, read_chunks, skip_to_marker}
use quectel_qmi_go.Client.Stream.Chunks.{read_chunks-joined}
use quectel_qmi_go.Client.Stream.Delivery.{delivery}
use quectel_qmi_go.Client.Ids.{Counters, nth_tx_id, nth_tx_id_fresh}
use quectel_qmi_go.Client.Recent.{RecentTransaction}
use quectel_qmi_go.Client.Event.{
  Event, EventType, coalescing_key, CoalescingKey, KeyPrefix, event_of,
}
use quectel_qmi_go.Client.Coalesced.{
  CoalescedEventStore, empty_store, store_coalesced_event, pop_coalesced_event,
}
use quectel_qmi_go.Client.Coalesced.View.{
  IsConsistent, view, upsert, front, behind, contains, store_coalesced_event-refines,
  pop_coalesced_event-refines,
}
use quectel_qmi_go.Client.Indications.{
  Run, start, offer, initial, enqueue_indication, IndicationState,
}
use quectel_qmi_go.Client.Indications.Edges.{edge_line}
use quectel_qmi_go.Client.Indications.Order.{
  edges_offered, edge_indications_counted, edge_indications_in_order,
}
use quectel_qmi_go.Client.Read.{
  Client, TransactionEntry, handle_packet, complete_transaction, context_done,
}
use quectel_qmi_go.Client.Read.Routing.{key_of, Answered, transactions-Answered}
use quectel_qmi_go.Client.Read.Late.{late_response_swallowed}
use quectel_qmi_go.Examples.Frames.{nas_request, ctl_request}

-- A control request behind noise, cut in the middle.
delivery_example :
    (fs : List Bytes) × (r : Bytes) × (read_chunks [] (
        (0xff ∷ 0x01 ∷ 15 ∷ [])
        ∷ (0 ∷ 0 ∷ 0 ∷ 0 ∷ 0 ∷ 5 ∷ 0x22 ∷ 0 ∷ 4 ∷ 0 ∷ 1 ∷ 1 ∷ 0 ∷ 3 ∷ [])
        ∷ [])
      ≡ some (fs, r))
    × (map unmarshal fs ≡ ok (received ctl_request) ∷ [])
unfolding skip_to_marker marshal marshal_body marshal_frame_header marshal_qmux marshal_ctl
    marshal_tlvs marshal_tlv
delivery_example =
    delivery ((0xff ∷ [], ctl_request) ∷ [])
      ((0xff ∷ 0x01 ∷ 15 ∷ [])
        ∷ (0 ∷ 0 ∷ 0 ∷ 0 ∷ 0 ∷ 5 ∷ 0x22 ∷ 0 ∷ 4 ∷ 0 ∷ 1 ∷ 1 ∷ 0 ∷ 3 ∷ [])
        ∷ [])
      ((refl, omega arith), tt) refl

read_chunks-joined_example :
    (fs : List Bytes) × (r : Bytes) × (s : Bytes) × (read_chunks []
        ((7 ∷ 1 ∷ []) ∷ (2 ∷ 3 ∷ []) ∷ [])
      ≡ some (fs, r))
    × (split (7 ∷ 1 ∷ 2 ∷ 3 ∷ []) ≡ some (fs, s))
read_chunks-joined_example = read_chunks-joined ((7 ∷ 1 ∷ []) ∷ (2 ∷ 3 ∷ []) ∷ [])

abbrev near_wrap : Counters
near_wrap = record { last_tx_id = 0xffff_fffe; ctl_tx_id = 0xffff_fffe }

nth_tx_id_fresh_example :
    (1 ≤ nth_tx_id 0 0 near_wrap)
    × (nth_tx_id 0 0 near_wrap ≤ 255)
    × (nth_tx_id 0 0 near_wrap ≢ nth_tx_id 200 0 near_wrap)
nth_tx_id_fresh_example = nth_tx_id_fresh 0 near_wrap 0 200 (omega arith) (omega arith)

abbrev ended_request : RecentTransaction
ended_request = record {
  service = 3;
  msg_id = 0x24;
  tx_id = 0x0102;
  start = 5;
  deadline = 9;
  completed_at = 9;
}

abbrev signal_key : CoalescingKey
signal_key = record { prefix = KeyPrefix.nas_signal_info; service_id = 3; message_id = 0x51 }

abbrev signal_event : Event
signal_event = record {
  type = EventType.nas_signal_info_changed;
  service_id = 3;
  message_id = 0x51;
  packet = nas_request;
}

empty-IsConsistent : IsConsistent empty_store
unfolding contains lookup
empty-IsConsistent = record {
  distinct = tt;
  listed = λ k h. refl;
  present = λ k h. absurd (ground arith);
}

store_coalesced_event-refines_example :
    (view (store_coalesced_event empty_store signal_key signal_event)
      ≡ upsert (view empty_store) signal_key signal_event)
    × IsConsistent (store_coalesced_event empty_store signal_key signal_event)
store_coalesced_event-refines_example =
    store_coalesced_event-refines empty_store signal_key signal_event empty-IsConsistent

abbrev stored : CoalescedEventStore
stored = store_coalesced_event empty_store signal_key signal_event

pop_coalesced_event-refines_example :
    ((pop_coalesced_event stored).0 ≡ front (view stored))
    × (view (pop_coalesced_event stored).1 ≡ behind (view stored))
    × IsConsistent (pop_coalesced_event stored).1
pop_coalesced_event-refines_example =
    pop_coalesced_event-refines stored
      (store_coalesced_event-refines empty_store signal_key signal_event empty-IsConsistent).1

-- Two messages for a queue with room for one.
abbrev message_event : Event
message_event = record {
  type = EventType.new_message;
  service_id = 5;
  message_id = 1;
  packet = nas_request;
}

abbrev full : IndicationState
full = enqueue_indication 1 (enqueue_indication 1 initial message_event) message_event

full-Run : Run 1 (message_event ∷ message_event ∷ []) full
unfolding enqueue_indication
full-Run = offer (offer start refl message_event) refl message_event

edge_indications_counted_example :
    length (edges_offered (message_event ∷ message_event ∷ []))
    ≡ length (edge_line full) + full.dropped_edge_indications
edge_indications_counted_example =
    edge_indications_counted 1 (message_event ∷ message_event ∷ []) full full-Run

edge_indications_in_order_example :
    edges_offered (message_event ∷ message_event ∷ []) ≡ edge_line full
unfolding enqueue_indication coalescing_key
edge_indications_in_order_example =
    edge_indications_in_order 1 (message_event ∷ message_event ∷ []) full full-Run refl

abbrev pending_request : TransactionEntry
pending_request = record {
  ch = none;
  service = 3;
  msg_id = 0x24;
  tx_id = 0x0102;
  start = 5;
  deadline = 9;
}

abbrev busy_client : Client
busy_client = record {
  counters = near_wrap;
  transactions = (key_of nas_request, pending_request) ∷ [];
  recent_transactions = [];
  client_ids = (3, 7) ∷ [];
  unmatched_responses = 0;
  parse_errors = 0;
  late_response_last_log = 0;
  late_response_suppressed = 0;
  dispatched = [];
}

transactions-Answered_example :
    Answered nas_request
      (key_of nas_request)
      (lookup ℕ_discrete busy_client.transactions (key_of nas_request))
      (lookup ℕ_discrete
        (handle_packet 8 busy_client nas_request).transactions
        (key_of nas_request))
transactions-Answered_example = transactions-Answered 8 busy_client nas_request (key_of nas_request)

abbrev nas_indication : Packet
nas_indication = record nas_request { is_indication = true }

abbrev ended : Client
ended = complete_transaction 9 busy_client (key_of nas_request) pending_request context_done

abbrev once : Client
once = handle_packet 20 ended nas_request

nas_not_control : nas_request.service_type ≢ service_control
nas_not_control = omega arith

late_response_swallowed_example :
    (lookup ℕ_discrete ended.transactions (key_of nas_request) ≡ none)
    × (once.dispatched ≡ [])
    × (once.unmatched_responses ≡ 0 + 1)
    × ((handle_packet 20 once nas_request).dispatched ≡ event_of nas_request ∷ [])
late_response_swallowed_example =
    late_response_swallowed 9 20 busy_client pending_request nas_request refl nas_not_control refl
      refl (omega arith)

abbrev granted : Packet
granted = record {
  service_type = 0;
  client_id = 0;
  transaction_id = 5;
  message_id = 0x22;
  is_indication = false;
  tlvs =
      record { type = 0x02; value = 0 ∷ 0 ∷ 0 ∷ 0 ∷ [] }
      ∷ record { type = 0x01; value = 3 ∷ 9 ∷ [] }
      ∷ [];
}

-- The first try has no answer.
abbrev tries : ℕ → Answer
tries zero = record { response = none; done = false }
tries (suc i) = record { response = some granted; done = false }

abbrev quiet_client : Client
quiet_client = record {
  counters = record { last_tx_id = 0; ctl_tx_id = 0 };
  transactions = [];
  recent_transactions = [];
  client_ids = [];
  unmatched_responses = 0;
  parse_errors = 0;
  late_response_last_log = 0;
  late_response_suppressed = 0;
  dispatched = [];
}

client_id_filed_example :
    let (r, requests) = allocate_client_id (some (1 ∷ 3 ∷ [])) tries 3 quiet_client in
    ((r.0 ≡ inr 9) × ((lookup ℕ_discrete r.1.client_ids 3 ≡ some 9) × (requests ≡ 2)))
    × (lookup ℕ_discrete (release_client_id (tries 1) 3 r.1).1.client_ids 3 ≡ none)
unfolding check_result get_result_code find_tlv encode_ctl_service_client_id
client_id_filed_example =
    client_id_filed (some (1 ∷ 3 ∷ [])) tries 3 9 1 granted
      (record { type = 0x01; value = 3 ∷ 9 ∷ [] }) quiet_client (tries 1) granted refl
      (ground arith) (λ i h. ground (arith, h)) refl refl refl (ground arith) refl refl refl
