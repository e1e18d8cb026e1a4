-- ===== src/Client/Read/Late.antt =====
-- pkg/qmi/client.go: a response that comes after its request has ended.
use quectel_qmi_go.Common.{
  ℕ, ◌+◌, ◌≡◌, ◌≢◌, ◌≤◌, refl, [], ◌∷◌, ◌++◌, false, Option, none, some, lookup, ℕ_discrete,
  lookup-delete, arith,
}
use quectel_qmi_go.Wire.Packet.{Packet, service_control}
use quectel_qmi_go.Client.Recent.{
  RecentTransaction, Recents, remember_recent, take_recent, recent_transaction_ttl,
}
use quectel_qmi_go.Client.Recent.Bounds.{take-remember_recent}
use quectel_qmi_go.Client.Event.{event_of}
use quectel_qmi_go.Client.Read.{
  TransactionEntry, Client, log_late_response, dispatch_indication, unmatched, handle_other,
  handle_packet, context_done, complete_transaction,
}
use quectel_qmi_go.Client.Read.Routing.{key_of, log-kept, dispatch-dispatched, log-recent}

-- The outcome of an unmatched response, by what the memory of ended requests answers.
abbrev counted : ℕ → Client → ℕ → Packet → Client
counted now c key p = record c {
  unmatched_responses = c.unmatched_responses + 1;
  recent_transactions = (take_recent now key p.service_type p.message_id c.recent_transactions).1;
}

unmatched_known :
    (now : ℕ) (c : Client) (key : ℕ) (p : Packet) (r : RecentTransaction)
    → (take_recent now key p.service_type p.message_id c.recent_transactions).0 ≡ some r
    → unmatched now c key p ≡ log_late_response now (counted now c key p)
unfolding unmatched
unmatched_known now c key p r e = ground arith

unmatched_unknown :
    (now : ℕ) (c : Client) (key : ℕ) (p : Packet)
    → (take_recent now key p.service_type p.message_id c.recent_transactions).0 ≡ none
    → unmatched now c key p ≡ dispatch_indication (counted now c key p) p
unfolding unmatched
unmatched_unknown now c key p e = ground arith

-- With no transaction of its key, a response of a service other than the control service is
-- unmatched.
handle_packet-unmatched :
    (now : ℕ) (c : Client) (p : Packet)
    → p.is_indication ≡ false
    → p.service_type ≢ service_control
    → lookup ℕ_discrete c.transactions (key_of p) ≡ none
    → handle_packet now c p ≡ unmatched now c (key_of p) p
unfolding handle_packet handle_other
handle_packet-unmatched now c p h s e = ground arith

module _ (now : ℕ) (c : Client) (p : Packet) (h : p.is_indication ≡ false)
    (s : p.service_type ≢ service_control)
    (e : lookup ℕ_discrete c.transactions (key_of p) ≡ none) where
  abbrev taken : Option RecentTransaction × Recents
  taken = take_recent now (key_of p) p.service_type p.message_id c.recent_transactions

  known_swallowed :
      (r : RecentTransaction)
      → taken.0 ≡ some r
      → ((handle_packet now c p).dispatched ≡ c.dispatched)
        × ((handle_packet now c p).unmatched_responses ≡ c.unmatched_responses + 1)
        × ((handle_packet now c p).transactions ≡ c.transactions)
        × ((handle_packet now c p).recent_transactions ≡ taken.1)
  known_swallowed r q =
      rw (handle_packet-unmatched now c p h s e, unmatched_known now c (key_of p) p r q)
        (ground (
          arith,
          log-kept now (counted now c (key_of p) p),
          log-recent now (counted now c (key_of p) p),
        ))

  unknown_dispatched :
      taken.0 ≡ none → (handle_packet now c p).dispatched ≡ c.dispatched ++ (event_of p ∷ [])
  unknown_dispatched q =
      rw (handle_packet-unmatched now c p h s e, unmatched_unknown now c (key_of p) p q)
        (dispatch-dispatched (counted now c (key_of p) p) p)

-- A request whose context ended has no transaction. If its response comes within two minutes, it is
-- counted as unmatched and swallowed: it is not dispatched as an indication. A second copy of it is.
pub late_response_swallowed :
    (now later : ℕ) (c : Client) (entry : TransactionEntry) (p : Packet)
    → p.is_indication ≡ false
    → p.service_type ≢ service_control
    → entry.service ≡ p.service_type
    → entry.msg_id ≡ p.message_id
    → later ≤ now + recent_transaction_ttl
    → let ended = complete_transaction now c (key_of p) entry context_done in
      let first = handle_packet later ended p in
      let second = handle_packet later first p in
      (lookup ℕ_discrete ended.transactions (key_of p) ≡ none)
      × (first.dispatched ≡ c.dispatched)
      × (first.unmatched_responses ≡ c.unmatched_responses + 1)
      × (second.dispatched ≡ c.dispatched ++ (event_of p ∷ []))
late_response_swallowed now later c entry p h s es em t =
    let key = key_of p in
    let ended = complete_transaction now c key entry context_done in
    let first = handle_packet later ended p in
    let remembered : RecentTransaction = record {
      service = entry.service;
      msg_id = entry.msg_id;
      tx_id = entry.tx_id;
      start = entry.start;
      deadline = entry.deadline;
      completed_at = now;
    } in
    let gone : lookup ℕ_discrete ended.transactions key ≡ none =
      unfold complete_transaction in
      ground (arith, lookup-delete ℕ_discrete c.transactions key key) in
    let kept : (ended.dispatched ≡ c.dispatched)
        × (ended.unmatched_responses ≡ c.unmatched_responses)
        × (ended.recent_transactions ≡ remember_recent now key remembered c.recent_transactions) =
      unfold complete_transaction in (refl, refl, refl) in
    let once = take-remember_recent now later key remembered c.recent_transactions t in
    let known = known_swallowed later ended p h s gone remembered (ground (arith, once, kept)) in
    let again =
      unknown_dispatched later first p h s (ground (arith, gone, known))
        (ground (arith, once, kept, known)) in
    (
      gone,
      ground (arith, known, kept),
      ground (arith, known, kept),
      ground (arith, again, known, kept),
    )
