-- ===== src/Client/Indications/Edges.antt =====
-- The edge indications of pkg/qmi/client.go on their way through the queue.
use quectel_qmi_go.Common.{
  ℕ, ◌+◌, ◌≡◌, refl, List, [], ◌∷◌, ◌++◌, Bool, true, false, inl, inr, Option, none, some, lookup,
  delete, Option-cases, arith, if◌then◌else◌, length, length-append, append-nil, append_assoc,
}
use quectel_qmi_go.Client.Event.{Event, coalescing_key, CoalescingKey, CoalescingKey-discrete}
use quectel_qmi_go.Client.Coalesced.{pop_coalesced_event, pop_loop}
use quectel_qmi_go.Client.Indications.{
  IndicationState, enqueue_indication, drop_waiting, admit_waiting, take_queued, indication_pass,
  deliver_event,
}

-- An indication that is never replaced by a later one.
unfoldable pub is_edge : Event → Bool
is_edge e = elim (coalescing_key e) [ none ↦ true | some k ↦ false ]

unfoldable pub edges : List Event → List Event
edges [] = []
edges (e ∷ es) = let rest = edges es in if is_edge e then e ∷ rest else rest

unfoldable pub waiting_list : Option Event → List Event
waiting_list none = []
waiting_list (some e) = e ∷ []

-- The edge indications between the offer and the application, and those it has, oldest first.
unfoldable pub edge_line : IndicationState → List Event
edge_line s =
    edges (s.delivered ++ waiting_list s.in_flight)
    ++ (edges s.indication_in_ch ++ waiting_list s.waiting)

edges-append : (xs ys : List Event) → edges (xs ++ ys) ≡ edges xs ++ edges ys
unfolding edges
edges-append [] ys = refl
edges-append (x ∷ xs) ys = ground (arith, edges-append xs ys)

-- Only indications with a key are stored.
abbrev pub AllKeyed : List (CoalescingKey × Event) → Type 0
AllKeyed [] = Unit {0}
AllKeyed ((k, e) ∷ m) = (is_edge e ≡ false) × AllKeyed m

pub AllKeyed-delete :
    (m : List (CoalescingKey × Event)) (k : CoalescingKey)
    → AllKeyed m
    → AllKeyed (delete CoalescingKey-discrete m k)
unfolding delete
AllKeyed-delete [] k h = tt
AllKeyed-delete ((j, e) ∷ m) k h = ground (arith, AllKeyed-delete m k h.1, h.0)

lookup-AllKeyed :
    (m : List (CoalescingKey × Event)) (k : CoalescingKey) (e : Event)
    → AllKeyed m
    → lookup CoalescingKey-discrete m k ≡ some e
    → is_edge e ≡ false
unfolding lookup
lookup-AllKeyed [] k e h q = absurd (ground arith)
lookup-AllKeyed ((j, v) ∷ m) k e h q = ground (arith, lookup-AllKeyed m k e h.1, h.0)

pub pop_loop-AllKeyed :
    (m : List (CoalescingKey × Event)) (order : List CoalescingKey)
    → AllKeyed m
    → AllKeyed (pop_loop m order).1.events
unfolding pop_loop
pop_loop-AllKeyed m [] h = h
pop_loop-AllKeyed m (k ∷ ks) h = ground (
  arith,
  AllKeyed-delete m k h,
  pop_loop-AllKeyed (delete CoalescingKey-discrete m k) ks (AllKeyed-delete m k h),
)

pop_loop-keyed :
    (m : List (CoalescingKey × Event)) (order : List CoalescingKey) (e : Event)
    → AllKeyed m
    → (pop_loop m order).0 ≡ some e
    → is_edge e ≡ false
unfolding pop_loop
pop_loop-keyed m [] e h q = absurd (ground arith)
pop_loop-keyed m (k ∷ ks) e h q = ground (
  arith,
  lookup-AllKeyed m k e h,
  pop_loop-keyed (delete CoalescingKey-discrete m k) ks e (AllKeyed-delete m k h),
)

-- What the indication loop has taken.
abbrev taken : IndicationState → List Event
taken s = s.delivered ++ waiting_list s.in_flight

-- An offer puts an edge indication at the end of the line.
pub enqueue-edge_line :
    (capacity : ℕ) (s : IndicationState) (e : Event)
    → s.waiting ≡ none
    → edge_line (enqueue_indication capacity s e) ≡ edge_line s ++ edges (e ∷ [])
unfolding enqueue_indication edge_line waiting_list edges is_edge
enqueue-edge_line capacity s e h = ground (
  arith,
  edges-append s.indication_in_ch (e ∷ []),
  append_assoc (edges (taken s)) (edges s.indication_in_ch) (edges (e ∷ [])),
  append-nil (edges s.indication_in_ch),
  append-nil (edges s.indication_in_ch ++ edges (e ∷ [])),
  append-nil (edges (taken s) ++ edges s.indication_in_ch),
)

pub length-drop_waiting :
    (s : IndicationState)
    → length (edge_line (drop_waiting s)) + (drop_waiting s).dropped_edge_indications
      ≡ length (edge_line s) + s.dropped_edge_indications
unfolding drop_waiting edge_line waiting_list
length-drop_waiting s = ground (
  arith,
  length-append (edges (taken s)) (edges s.indication_in_ch ++ waiting_list s.waiting),
  length-append (edges s.indication_in_ch) (waiting_list s.waiting),
  length-append (edges (taken s)) (edges s.indication_in_ch ++ []),
  length-append (edges s.indication_in_ch) [],
)

pub drop_waiting-kept :
    (s : IndicationState)
    → (drop_waiting s).dropped_edge_indications ≡ 0
    → (drop_waiting s ≡ s) × (s.dropped_edge_indications ≡ 0)
unfolding drop_waiting
drop_waiting-kept s h = ground arith

pub admit-edge_line :
    (capacity : ℕ) (s : IndicationState)
    → ((e : Event) → s.waiting ≡ some e → is_edge e ≡ true)
    → edge_line (admit_waiting capacity s) ≡ edge_line s
unfolding admit_waiting edge_line waiting_list edges
admit-edge_line capacity s h = elim (Option-cases s.waiting) [
  | inl idle ↦ ground arith
  | inr (e, w) ↦ ground (
    arith,
    h e w,
    edges-append s.indication_in_ch (e ∷ []),
    append-nil (edges s.indication_in_ch ++ (e ∷ [])),
  )
]

take_queued-edge_line :
    (s : IndicationState) → s.in_flight ≡ none → edge_line (take_queued s) ≡ edge_line s
unfolding take_queued edge_line waiting_list
take_queued-edge_line s h = go s.indication_in_ch refl
  where
    go : (q : List Event) → s.indication_in_ch ≡ q → edge_line (take_queued s) ≡ edge_line s
    go [] e = ground arith
    go (x ∷ rest) e = ground (
      arith,
      h,
      append-nil s.delivered,
      edges-append s.delivered (x ∷ []),
      append_assoc (edges s.delivered) (edges (x ∷ [])) (edges rest ++ waiting_list s.waiting),
      append_assoc (edges (x ∷ [])) (edges rest) (waiting_list s.waiting),
      edges-append (x ∷ []) rest,
    )

-- A pass of the indication loop moves indications along and changes nothing in the line.
pub pass-edge_line :
    (s : IndicationState)
    → AllKeyed s.coalesced.events
    → edge_line (indication_pass s) ≡ edge_line s
unfolding indication_pass pop_coalesced_event
pass-edge_line s h = elim (Option-cases s.in_flight) [
  | inr (x, busy) ↦ ground (arith, busy)
  | inl free ↦ elim (Option-cases (pop_loop s.coalesced.events s.coalesced.order).0) [
    | inl idle ↦ ground (
      arith,
      free,
      take_queued-edge_line
          (record s { coalesced = (pop_loop s.coalesced.events s.coalesced.order).1 }) free,
      kept,
    )
    | inr (e, popped) ↦
        unfold edge_line edges waiting_list in
        ground (
          arith,
          free,
          pop_loop-keyed s.coalesced.events s.coalesced.order e h popped,
          edges-append s.delivered (e ∷ []),
          append-nil s.delivered,
          append-nil (edges s.delivered),
        )
  ]
]
  where
    kept :
        edge_line (record s { coalesced = (pop_loop s.coalesced.events s.coalesced.order).1 })
        ≡ edge_line s
    kept = unfold edge_line in refl

-- So does a delivery.
pub deliver_event-edge_line : (s : IndicationState) → edge_line (deliver_event s) ≡ edge_line s
unfolding deliver_event edge_line waiting_list
deliver_event-edge_line s =
    ground
      (arith, append-nil s.delivered, append-nil (taken (deliver_event s)), append-nil (taken s))
