-- ===== src/Client/Indications.antt =====
-- pkg/qmi/client.go: the queue of indications between the read loop, which offers them, and the
-- indication loop, which delivers them. The read loop and the indication loop are two goroutines; each
-- function below is one uninterrupted part of one of them. Closing the client is not modelled here, and
-- with it the branches on closeCh.
pub mod Edges
pub mod Order
use quectel_qmi_go.Common.{
  ℕ, suc, ◌+◌, ◌≡◌, List, [], ◌∷◌, ◌++◌, Bool, true, false, if◌then◌else◌, ltb, length, Option,
  none, some,
}
use quectel_qmi_go.Client.Event.{Event, coalescing_key}
use quectel_qmi_go.Client.Coalesced.{
  CoalescedEventStore, empty_store, store_coalesced_event, pop_coalesced_event,
}

pub record IndicationState : Type 0 where
  -- indicationInCh, oldest first; the event with which deliverEvent waits for room in eventCh; and what
  -- eventCh has taken, oldest first.
  pub indication_in_ch : List Event
  pub in_flight : Option Event
  pub delivered : List Event
  pub coalesced : CoalescedEventStore
  -- coalescedSignalCh holds a signal.
  pub signalled : Bool
  -- The indication with which the read loop waits for room.
  pub waiting : Option Event
  pub coalesced_indications : ℕ
  pub dropped_edge_indications : ℕ

abbrev pub initial : IndicationState
initial = record {
  indication_in_ch = [];
  in_flight = none;
  delivered = [];
  coalesced = empty_store;
  signalled = false;
  waiting = none;
  coalesced_indications = 0;
  dropped_edge_indications = 0;
}

abbrev pub push : IndicationState → Event → IndicationState
push s event = record s { indication_in_ch = s.indication_in_ch ++ (event ∷ []) }

-- enqueueIndication, up to the point where it returns or waits. `capacity` is IndicationQueueSize.
unfoldable pub enqueue_indication : ℕ → IndicationState → Event → IndicationState
enqueue_indication capacity s event =
    if ltb (length s.indication_in_ch) capacity then push s event else elim (coalescing_key event) [
      | some key ↦ record s {
        coalesced = store_coalesced_event s.coalesced key event;
        coalesced_indications = s.coalesced_indications + 1;
        signalled = true;
      }
      | none ↦ record s { waiting = some event }
    ]

-- The wait ends by its timer.
unfoldable pub drop_waiting : IndicationState → IndicationState
drop_waiting s = elim s.waiting [
  | none ↦ s
  | some event ↦ record s {
    waiting = none;
    dropped_edge_indications = s.dropped_edge_indications + 1;
  }
]

-- The wait ends by room in the queue.
unfoldable pub admit_waiting : ℕ → IndicationState → IndicationState
admit_waiting capacity s = elim s.waiting [
  | none ↦ s
  | some event ↦
      if ltb (length s.indication_in_ch) capacity
      then push (record s { waiting = none }) event
      else s
]

-- One pass of indicationLoop up to the call of deliverEvent: a coalesced event first; then the queue, or the signal that the select
-- takes when the queue is empty.
unfoldable pub take_queued : IndicationState → IndicationState
take_queued s = elim s.indication_in_ch [
  | [] ↦ record s { signalled = false }
  | event ∷ rest ↦ record s { indication_in_ch = rest; in_flight = some event }
]

-- There is none while deliverEvent waits.
unfoldable pub indication_pass : IndicationState → IndicationState
indication_pass s =
    let popped = pop_coalesced_event s.coalesced in
    let taken : IndicationState = elim popped.0 [
      | some event ↦ record s { coalesced = popped.1; in_flight = some event }
      | none ↦ take_queued (record s { coalesced = popped.1 })
    ] in
    elim s.in_flight [ none ↦ taken | some event ↦ s ]

-- eventCh has room.
unfoldable pub deliver_event : IndicationState → IndicationState
deliver_event s = elim s.in_flight [
  | none ↦ s
  | some event ↦ record s { delivered = s.delivered ++ (event ∷ []); in_flight = none }
]

-- Any interleaving of the two loops, with the indications offered, latest first. While the read loop
-- waits it offers nothing.
pub data Run (capacity : ℕ) : List Event → IndicationState → Type 0 where
  start : Run capacity [] initial
  offer :
      {os : List Event} {s : IndicationState}
      → Run capacity os s
      → s.waiting ≡ none
      → (e : Event) → Run capacity (e ∷ os) (enqueue_indication capacity s e)
  time_out :
      {os : List Event} {s : IndicationState} → Run capacity os s → Run capacity os (drop_waiting s)
  admit :
      {os : List Event} {s : IndicationState}
      → Run capacity os s
      → Run capacity os (admit_waiting capacity s)
  pass :
      {os : List Event} {s : IndicationState}
      → Run capacity os s
      → Run capacity os (indication_pass s)
  deliver :
      {os : List Event} {s : IndicationState}
      → Run capacity os s
      → Run capacity os (deliver_event s)
  -- The select may take the signal while the queue holds events.
  unsignal :
      {os : List Event} {s : IndicationState}
      → Run capacity os s
      → Run capacity os (record s { signalled = false })
