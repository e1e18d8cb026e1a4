-- ===== src/Client/Coalesced.antt =====
-- pkg/qmi/client.go: storeCoalescedEvent and popCoalescedEvent, the latest event of each key in the
-- order in which the keys came.
pub mod View
use quectel_qmi_go.Common.{List, [], ◌∷◌, ◌++◌, Option, none, some, lookup, insert, delete}
use quectel_qmi_go.Client.Event.{Event, CoalescingKey, CoalescingKey-discrete}

pub record CoalescedEventStore : Type 0 where
  pub events : List (CoalescingKey × Event)
  pub order : List CoalescingKey

abbrev pub empty_store : CoalescedEventStore
empty_store = record { events = []; order = [] }

unfoldable pub store_coalesced_event :
    CoalescedEventStore → CoalescingKey → Event → CoalescedEventStore
store_coalesced_event s key event = record {
  events = insert CoalescingKey-discrete s.events key event;
  order = elim (lookup CoalescingKey-discrete s.events key) [
    | none ↦ s.order ++ (key ∷ [])
    | some old ↦ s.order
  ];
}

-- The loop drops keys without an event.
unfoldable pub pop_loop :
    List (CoalescingKey × Event) → List CoalescingKey → Option Event × CoalescedEventStore
pop_loop events [] = (none, record { events = events; order = [] })
pop_loop events (key ∷ order) =
    let left = delete CoalescingKey-discrete events key in
    let more = pop_loop left order in
    elim (lookup CoalescingKey-discrete events key) [
      | none ↦ more
      | some event ↦ (some event, record { events = left; order = order })
    ]

unfoldable pub pop_coalesced_event : CoalescedEventStore → Option Event × CoalescedEventStore
pop_coalesced_event s = pop_loop s.events s.order
