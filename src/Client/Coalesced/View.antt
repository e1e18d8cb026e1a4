-- ===== src/Client/Coalesced/View.antt =====
-- The store of coalesced events refines a list of keyed events: storing replaces the event of a key
-- in its place or appends it, popping takes the front.
use quectel_qmi_go.Common.{
  ◌≡◌, ◌≢◌, refl, List, [], ◌∷◌, ◌++◌, Bool, true, false, inl, inr, ◌||◌, Option, none, some,
  lookup, insert, delete, lookup-insert, lookup-delete, Option-cases, Bool-cases, arith,
}
use mathlib.Core.Logic.{ite}
use quectel_qmi_go.Client.Event.{Event, CoalescingKey, CoalescingKey-discrete}
use quectel_qmi_go.Client.Coalesced.{
  CoalescedEventStore, store_coalesced_event, pop_loop, pop_coalesced_event,
}

abbrev d : Discrete CoalescingKey
d = CoalescingKey-discrete

abbrev pub Pending : Type 0
Pending = List (CoalescingKey × Event)

unfoldable pub contains : List CoalescingKey → CoalescingKey → Bool
contains [] k = false
contains (j ∷ ks) k = ite (d j k) true (contains ks k)

unfoldable pub view_loop : List (CoalescingKey × Event) → List CoalescingKey → Pending
view_loop events [] = []
view_loop events (k ∷ ks) = elim (lookup d events k) [
  | none ↦ view_loop events ks
  | some e ↦ (k, e) ∷ view_loop events ks
]

-- What the store will deliver, in order.
unfoldable pub view : CoalescedEventStore → Pending
view s = view_loop s.events s.order

-- The abstract operation: a new key goes to the end, a known one keeps its place.
unfoldable pub upsert : Pending → CoalescingKey → Event → Pending
upsert [] k e = (k, e) ∷ []
upsert ((j, v) ∷ l) k e = ite (d j k) ((k, e) ∷ l) ((j, v) ∷ upsert l k e)

abbrev Distinct : List CoalescingKey → Type 0
Distinct [] = Unit {0}
Distinct (k ∷ ks) = (contains ks k ≡ false) × Distinct ks

-- The keys in the order are distinct, and they are the keys of the events.
pub record IsConsistent (s : CoalescedEventStore) : Type 0 where
  pub distinct : Distinct s.order
  pub listed : (k : CoalescingKey) → contains s.order k ≡ false → lookup d s.events k ≡ none
  pub present : (k : CoalescingKey) → contains s.order k ≡ true → lookup d s.events k ≢ none

-- An event of a key that is not in the order does not show.
view-insert_other :
    (events : List (CoalescingKey × Event)) (order : List CoalescingKey) (k : CoalescingKey)
    (e : Event)
    → contains order k ≡ false
    → view_loop (insert d events k e) order ≡ view_loop events order
unfolding view_loop contains
view-insert_other events [] k e h = refl
view-insert_other events (j ∷ ks) k e h =
    ground (arith, lookup-insert d events k j e, view-insert_other events ks k e)

view-delete_other :
    (events : List (CoalescingKey × Event)) (order : List CoalescingKey) (k : CoalescingKey)
    → contains order k ≡ false
    → view_loop (delete d events k) order ≡ view_loop events order
unfolding view_loop contains
view-delete_other events [] k h = refl
view-delete_other events (j ∷ ks) k h =
    ground (arith, lookup-delete d events k j, view-delete_other events ks k)

view-store_new :
    (events : List (CoalescingKey × Event)) (order : List CoalescingKey) (k : CoalescingKey)
    (e : Event)
    → contains order k ≡ false
    → view_loop (insert d events k e) (order ++ (k ∷ [])) ≡ upsert (view_loop events order) k e
unfolding view_loop contains upsert
view-store_new events [] k e h = ground (arith, lookup-insert d events k k e)
view-store_new events (j ∷ ks) k e h =
    ground (arith, lookup-insert d events k j e, view-store_new events ks k e)

view-store_known :
    (events : List (CoalescingKey × Event)) (order : List CoalescingKey) (k : CoalescingKey)
    (e : Event)
    → Distinct order
    → contains order k ≡ true
    → lookup d events k ≢ none
    → view_loop (insert d events k e) order ≡ upsert (view_loop events order) k e
unfolding view_loop contains upsert
view-store_known events [] k e u h p = absurd (ground arith)
view-store_known events (j ∷ ks) k e u h p = ground (
  arith,
  lookup-insert d events k j e,
  view-insert_other events ks k e,
  view-store_known events ks k e u.1,
)

contains-append_one :
    (ks : List CoalescingKey) (k j : CoalescingKey)
    → contains (ks ++ (k ∷ [])) j ≡ (contains ks j || contains (k ∷ []) j)
unfolding contains
contains-append_one [] k j = refl
contains-append_one (i ∷ ks) k j = ground (arith, contains-append_one ks k j)

Distinct-append_one :
    (ks : List CoalescingKey) (k : CoalescingKey)
    → Distinct ks
    → contains ks k ≡ false
    → Distinct (ks ++ (k ∷ []))
unfolding contains
Distinct-append_one [] k u h = (refl, tt)
Distinct-append_one (j ∷ ks) k u h =
    (ground (arith, contains-append_one ks k j, u.0), Distinct-append_one ks k u.1 (ground arith))

view-store_coalesced_event :
    (s : CoalescedEventStore) (k : CoalescingKey) (e : Event)
    → IsConsistent s
    → view (store_coalesced_event s k e) ≡ upsert (view s) k e
unfolding view store_coalesced_event
view-store_coalesced_event s k e v = elim (Option-cases (lookup d s.events k)) [
  | inl new ↦ elim (Bool-cases (contains s.order k)) [
    | inl yes_listed ↦ absurd (v.present k yes_listed new)
    | inr unlisted ↦ ground (arith, view-store_new s.events s.order k e unlisted)
  ]
  | inr (old, known) ↦ elim (Bool-cases (contains s.order k)) [
    | inl yes_listed ↦ ground (
      arith,
      view-store_known s.events s.order k e v.distinct yes_listed (v.present k yes_listed),
    )
    | inr unlisted ↦ absurd (ground (arith, v.listed k unlisted))
  ]
]

store_coalesced_event-IsConsistent :
    (s : CoalescedEventStore) (k : CoalescingKey) (e : Event)
    → IsConsistent s
    → IsConsistent (store_coalesced_event s k e)
unfolding store_coalesced_event contains
store_coalesced_event-IsConsistent s k e v = record {
  distinct = ground (arith, Distinct-append_one s.order k v.distinct, v.present k);
  listed = λ j h. ground (
    arith,
    lookup-insert d s.events k j e,
    v.listed j,
    v.present k,
    contains-append_one s.order k j,
  );
  present = λ j h. ground (
    arith,
    lookup-insert d s.events k j e,
    v.present j,
    v.listed k,
    contains-append_one s.order k j,
  );
}

-- The front of the view, and what is behind it.
abbrev pub front : Pending → Option Event
front [] = none
front ((k, e) ∷ l) = some e

abbrev pub behind : Pending → Pending
behind [] = []
behind ((k, e) ∷ l) = l

pop_loop-front :
    (events : List (CoalescingKey × Event)) (order : List CoalescingKey)
    → IsConsistent (record { events = events; order = order })
    → ((pop_loop events order).0 ≡ front (view_loop events order))
      × (view (pop_loop events order).1 ≡ behind (view_loop events order))
unfolding pop_loop view_loop view
pop_loop-front events [] v = (refl, refl)
pop_loop-front events (k ∷ ks) v = elim (Option-cases (lookup d events k)) [
  | inl missing ↦ absurd (v.present k (unfold contains in ground arith) missing)
  | inr (e, found) ↦ ground (arith, view-delete_other events ks k v.distinct.0)
]

pop_loop-IsConsistent :
    (events : List (CoalescingKey × Event)) (order : List CoalescingKey)
    → IsConsistent (record { events = events; order = order })
    → IsConsistent (pop_loop events order).1
unfolding pop_loop contains
pop_loop-IsConsistent events [] v = v
pop_loop-IsConsistent events (k ∷ ks) v = elim (Option-cases (lookup d events k)) [
  | inl missing ↦ absurd (v.present k (ground arith) missing)
  | inr (e, found) ↦
      rw (found, pop_loop)
        (record {
          distinct = v.distinct.1;
          listed = λ j h. ground (arith, lookup-delete d events k j, v.listed j);
          present = λ j h. ground (arith, lookup-delete d events k j, v.present j, v.distinct.0);
        })
]

-- On a consistent store, storing an event puts it in the place of the one with its key, or at the end
-- if there is none; the store stays consistent.
pub store_coalesced_event-refines :
    (s : CoalescedEventStore) (k : CoalescingKey) (e : Event)
    → IsConsistent s
    → (view (store_coalesced_event s k e) ≡ upsert (view s) k e)
      × IsConsistent (store_coalesced_event s k e)
store_coalesced_event-refines s k e v =
    (view-store_coalesced_event s k e v, store_coalesced_event-IsConsistent s k e v)

-- On a consistent store, popping answers the front of the view, or nothing if that is empty, and
-- leaves what was behind it; the store stays consistent.
pub pop_coalesced_event-refines :
    (s : CoalescedEventStore)
    → IsConsistent s
    → ((pop_coalesced_event s).0 ≡ front (view s))
      × (view (pop_coalesced_event s).1 ≡ behind (view s))
      × IsConsistent (pop_coalesced_event s).1
unfolding pop_coalesced_event view
pop_coalesced_event-refines s v =
    let h = pop_loop-front s.events s.order v in
    (h.0, h.1, pop_loop-IsConsistent s.events s.order v)
