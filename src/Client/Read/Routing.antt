-- ===== src/Client/Read/Routing.antt =====
-- Where the read loop of pkg/qmi/client.go sends each packet.
use quectel_qmi_go.Common.{
  ℕ, ◌+◌, ◌≡◌, refl, sym, ◌∙◌, ap, List, [], ◌∷◌, ◌++◌, Bool, true, false, not, ◌&&◌, if◌then◌else◌,
  ◌==◌, Option, none, some, lookup, insert, ℕ_discrete, lookup-insert, arith, Option-cases,
  Bool-cases, inl, inr, ◌⊎◌,
}
use mathlib.Core.Logic.{if_pos, if_neg}
use quectel_qmi_go.Wire.Packet.{Packet}
use quectel_qmi_go.Client.Ids.{transaction_key}
use quectel_qmi_go.Client.Recent.{take_recent}
use quectel_qmi_go.Client.Event.{event_of}
use quectel_qmi_go.Client.Read.{
  TransactionEntry, Client, log_late_response, revoke, handle_client_id_revoke, dispatch_indication,
  send_response, unmatched, handle_other, handle_packet,
}

abbrev pub key_of : Packet → ℕ
key_of p = transaction_key p.service_type p.transaction_id

-- Dispatching changes the client identifiers and the list of what was dispatched, and no more.
dispatch-transactions :
    (c : Client) (p : Packet) → (dispatch_indication c p).transactions ≡ c.transactions
unfolding dispatch_indication handle_client_id_revoke revoke
dispatch-transactions c p = ground arith

pub log-kept :
    (now : ℕ) (c : Client)
    → ((log_late_response now c).transactions ≡ c.transactions)
      × ((log_late_response now c).dispatched ≡ c.dispatched)
      × ((log_late_response now c).unmatched_responses ≡ c.unmatched_responses)
unfolding log_late_response
log-kept now c = ground arith

pub dispatch-dispatched :
    (c : Client) (p : Packet)
    → (dispatch_indication c p).dispatched ≡ c.dispatched ++ (event_of p ∷ [])
unfolding dispatch_indication handle_client_id_revoke revoke
dispatch-dispatched c p = ground arith

unmatched-transactions :
    (now : ℕ) (c : Client) (key : ℕ) (p : Packet)
    → (unmatched now c key p).transactions ≡ c.transactions
unfolding unmatched
unmatched-transactions now c key p =
    let taken = take_recent now key p.service_type p.message_id c.recent_transactions in
    let forgotten : Client = record c {
      unmatched_responses = c.unmatched_responses + 1;
      recent_transactions = taken.1;
    } in
    ground (arith, log-kept now forgotten, dispatch-transactions forgotten p)

handle_other-transactions :
    (now : ℕ) (c : Client) (p : Packet) → (handle_other now c p).transactions ≡ c.transactions
unfolding handle_other
handle_other-transactions now c p =
    ground (arith, unmatched-transactions now c (key_of p) p, dispatch-transactions c p)

-- A response that a transaction waits for goes into its channel, and nothing else changes: no event
-- is dispatched, nothing is counted.
pub handle_packet_answers :
    (now : ℕ) (c : Client) (p : Packet) (entry : TransactionEntry)
    → p.is_indication ≡ false
    → lookup ℕ_discrete c.transactions (key_of p) ≡ some entry
    → handle_packet now c p ≡ record c {
      transactions = insert ℕ_discrete c.transactions (key_of p) (send_response entry p);
    }
unfolding handle_packet
handle_packet_answers now c p entry h e = ground arith

-- The packet is the answer that this entry waits for: no indication, of the entry's key, and nothing
-- has come before.
abbrev pub is_answer : Packet → ℕ → TransactionEntry → Bool
is_answer p key entry =
    not p.is_indication && (key == key_of p && elim entry.ch [ none ↦ true | some held ↦ false ])

-- An entry before and after a packet: with the packet if that is its answer, else the same.
abbrev pub Answered : Packet → ℕ → Option TransactionEntry → Option TransactionEntry → Type 0
Answered p key none after = after ≡ none
Answered p key (some entry) after =
    after ≡ some (if is_answer p key entry then record entry { ch = some p } else entry)

-- Another packet: an indication, of another key, or of a key that nothing waits for.
Answered-same :
    (p : Packet) (key : ℕ) (before after : Option TransactionEntry)
    → (p.is_indication ≡ true) ⊎ ((before ≡ none) ⊎ ((key == key_of p) ≡ false))
    → after ≡ before
    → Answered p key before after
Answered-same p key none after h e = e
Answered-same p key (some entry) after h e = ground (arith, h, e)

-- The entry of the packet's own key, with the response sent into its channel.
Answered-sent :
    (p : Packet) (key : ℕ) (entry : TransactionEntry) (before : Option TransactionEntry)
    → p.is_indication ≡ false
    → before ≡ some entry
    → key ≡ key_of p
    → Answered p key before (some (send_response entry p))
unfolding send_response
Answered-sent p key entry none h e k = absurd (ground arith)
Answered-sent p key entry (some other) h e k = elim (Option-cases entry.ch) [
  | inl empty ↦ ground (arith, h, e, k, empty)
  | inr (held, full) ↦ ground (arith, h, e, k, full)
]

module _ (now : ℕ) (c : Client) (p : Packet) where
  handle_packet-other :
      (p.is_indication ≡ true) ⊎ (lookup ℕ_discrete c.transactions (key_of p) ≡ none)
      → handle_packet now c p ≡ handle_other now c p
  unfolding handle_packet
  handle_packet-other h = ground arith

  handle_packet-Answered :
      (key : ℕ)
      → Answered p key
          (lookup ℕ_discrete c.transactions key)
          (lookup ℕ_discrete (handle_packet now c p).transactions key)
  handle_packet-Answered key = elim (Bool-cases p.is_indication) [
    | inl ind ↦ same (inl ind) (inl ind)
    | inr response ↦ elim (Option-cases (lookup ℕ_discrete c.transactions (key_of p))) [
      | inl unknown ↦ same (inr unknown) (inr (spared unknown))
      | inr (entry, e) ↦
          rw
            (
              handle_packet_answers now c p entry response e,
              lookup-insert ℕ_discrete c.transactions (key_of p) key (send_response entry p),
            )
            (elim (ℕ_discrete (key_of p) key) [
              | yes k ↦ rw (if_pos _ k) (
                  Answered-sent p key entry (lookup ℕ_discrete c.transactions key) response
                    (rw k at e) (sym k))
              | no k ↦ rw (if_neg _ k) (
                  Answered-same p key (lookup ℕ_discrete c.transactions key) _
                    (inr (inr (ground (arith, k)))) refl)
            ])
    ]
  ]
    where
      spared :
          lookup ℕ_discrete c.transactions (key_of p) ≡ none
          → (lookup ℕ_discrete c.transactions key ≡ none) ⊎ ((key == key_of p) ≡ false)
      spared unknown = elim (ℕ_discrete (key_of p) key) [
        | yes k ↦ inl (rw k at unknown)
        | no k ↦ inr (ground (arith, k))
      ]

      same :
          (p.is_indication ≡ true) ⊎ (lookup ℕ_discrete c.transactions (key_of p) ≡ none)
          → (p.is_indication ≡ true)
            ⊎ ((lookup ℕ_discrete c.transactions key ≡ none) ⊎ ((key == key_of p) ≡ false))
          → Answered p key
              (lookup ℕ_discrete c.transactions key)
              (lookup ℕ_discrete (handle_packet now c p).transactions key)
      same h h' = Answered-same p key (lookup ℕ_discrete c.transactions key) _ h' (
          ap (λ (m : List (ℕ × TransactionEntry)). lookup ℕ_discrete m key)
            (ap (λ (x : Client). x.transactions) (handle_packet-other h)
              ∙ handle_other-transactions now c p))

-- Reading a packet neither adds nor removes a transaction. It completes the transaction that it
-- answers: if the packet is no indication and has the key of an entry whose channel is still empty,
-- that channel holds the packet afterwards. Every other entry stays as it was, also one of the same
-- key to which a response has come before.
pub transactions-Answered :
    (now : ℕ) (c : Client) (p : Packet) (key : ℕ)
    → Answered p key
        (lookup ℕ_discrete c.transactions key)
        (lookup ℕ_discrete (handle_packet now c p).transactions key)
transactions-Answered now c p key = handle_packet-Answered now c p key

-- An indication is always dispatched, and never ends a transaction.
pub indications_dispatched :
    (now : ℕ) (c : Client) (p : Packet)
    → p.is_indication ≡ true
    → ((handle_packet now c p).dispatched ≡ c.dispatched ++ (event_of p ∷ []))
      × ((handle_packet now c p).transactions ≡ c.transactions)
unfolding handle_other
indications_dispatched now c p h =
    ground (
      arith,
      handle_packet-other now c p (inl h),
      dispatch-dispatched c p,
      dispatch-transactions c p,
    )

pub log-recent :
    (now : ℕ) (c : Client) → (log_late_response now c).recent_transactions ≡ c.recent_transactions
unfolding log_late_response
log-recent now c = ground arith
