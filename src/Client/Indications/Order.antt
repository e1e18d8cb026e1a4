-- ===== src/Client/Indications/Order.antt =====
-- What no interleaving of the read loop and the indication loop of pkg/qmi/client.go can lose or
-- reorder.
use quectel_qmi_go.Common.{
  ℕ, ◌+◌, ◌≡◌, refl, sym, ap, ◌∙◌, List, [], ◌∷◌, ◌++◌, true, false, inl, inr, none, some, insert,
  Option-cases, arith, length, length-append,
}
use quectel_qmi_go.Client.Event.{Event, coalescing_key}
use quectel_qmi_go.Client.Coalesced.{store_coalesced_event, pop_coalesced_event}
use quectel_qmi_go.Client.Indications.{
  IndicationState, initial, enqueue_indication, drop_waiting, admit_waiting, take_queued,
  indication_pass, Run, start, offer, time_out, admit, pass, deliver, unsignal, deliver_event,
}
use quectel_qmi_go.Client.Indications.Edges.{
  is_edge, edges, waiting_list, edge_line, AllKeyed, AllKeyed-delete, pop_loop-AllKeyed,
  enqueue-edge_line, length-drop_waiting, drop_waiting-kept, admit-edge_line, pass-edge_line,
  deliver_event-edge_line,
}

-- The edge indications offered, oldest first.
unfoldable pub edges_offered : List Event → List Event
edges_offered [] = []
edges_offered (e ∷ os) = edges_offered os ++ edges (e ∷ [])

record Inv (os : List Event) (s : IndicationState) : Type 0 where
  pub keyed : AllKeyed s.coalesced.events
  pub waits_edge : (e : Event) → s.waiting ≡ some e → is_edge e ≡ true
  pub counted : length (edges_offered os) ≡ length (edge_line s) + s.dropped_edge_indications
  pub in_order : s.dropped_edge_indications ≡ 0 → edges_offered os ≡ edge_line s

store-AllKeyed :
    (capacity : ℕ) (s : IndicationState) (e : Event)
    → AllKeyed s.coalesced.events
    → AllKeyed (enqueue_indication capacity s e).coalesced.events
unfolding enqueue_indication is_edge store_coalesced_event insert
store-AllKeyed capacity s e h = elim (Option-cases (coalescing_key e)) [
  | inl edge ↦ ground (arith)
  | inr (k, keyed) ↦ ground (arith, AllKeyed-delete s.coalesced.events k h)
]

enqueue-waits_edge :
    (capacity : ℕ) (s : IndicationState) (e w : Event)
    → s.waiting ≡ none
    → (enqueue_indication capacity s e).waiting ≡ some w
    → is_edge w ≡ true
unfolding enqueue_indication is_edge
enqueue-waits_edge capacity s e w h q = ground arith

enqueue-dropped :
    (capacity : ℕ) (s : IndicationState) (e : Event)
    → (enqueue_indication capacity s e).dropped_edge_indications ≡ s.dropped_edge_indications
unfolding enqueue_indication
enqueue-dropped capacity s e = ground arith

enqueue-Inv :
    (capacity : ℕ) (os : List Event) (s : IndicationState) (e : Event)
    → s.waiting ≡ none
    → Inv os s
    → Inv (e ∷ os) (enqueue_indication capacity s e)
unfolding edges_offered
enqueue-Inv capacity os s e h v =
    let line = enqueue-edge_line capacity s e h in
    let same = enqueue-dropped capacity s e in
    record {
      keyed = store-AllKeyed capacity s e v.keyed;
      waits_edge = λ w q. enqueue-waits_edge capacity s e w h q;
      counted = omega (
        arith,
        v.counted,
        same,
        ap length line,
        length-append (edges_offered os) (edges (e ∷ [])),
        length-append (edge_line s) (edges (e ∷ [])),
      );
      in_order = λ z. ap (λ l. l ++ edges (e ∷ [])) (v.in_order (omega (arith, same))) ∙ sym line;
    }

drop-Inv : (os : List Event) (s : IndicationState) → Inv os s → Inv os (drop_waiting s)
drop-Inv os s v = record {
  keyed = unfold drop_waiting in ground (arith, v.keyed);
  waits_edge = λ w q. unfold drop_waiting in ground (arith, v.waits_edge w);
  counted = omega (arith, v.counted, length-drop_waiting s);
  in_order = λ z. ground (arith, drop_waiting-kept s z, v.in_order);
}

admit-Inv :
    (capacity : ℕ) (os : List Event) (s : IndicationState)
    → Inv os s
    → Inv os (admit_waiting capacity s)
admit-Inv capacity os s v =
    let line = admit-edge_line capacity s v.waits_edge in
    let same : (admit_waiting capacity s).dropped_edge_indications ≡ s.dropped_edge_indications =
      unfold admit_waiting in ground arith in
    record {
      keyed = unfold admit_waiting in ground (arith, v.keyed);
      waits_edge = λ w q. unfold admit_waiting in ground (arith, v.waits_edge w);
      counted = ground (arith, v.counted, line, same);
      in_order = λ z. ground (arith, v.in_order, line, same);
    }

pass-keyed :
    (s : IndicationState)
    → AllKeyed s.coalesced.events
    → AllKeyed (indication_pass s).coalesced.events
unfolding indication_pass take_queued pop_coalesced_event
pass-keyed s h = ground (arith, pop_loop-AllKeyed s.coalesced.events s.coalesced.order h)

pass-kept :
    (s : IndicationState)
    → ((indication_pass s).waiting ≡ s.waiting)
      × ((indication_pass s).dropped_edge_indications ≡ s.dropped_edge_indications)
unfolding indication_pass take_queued
pass-kept s = ground arith

pass-Inv : (os : List Event) (s : IndicationState) → Inv os s → Inv os (indication_pass s)
pass-Inv os s v =
    let line = pass-edge_line s v.keyed in
    let kept = pass-kept s in
    record {
      keyed = pass-keyed s v.keyed;
      waits_edge = λ w q. v.waits_edge w (sym kept.0 ∙ q);
      counted = ground (arith, v.counted, line, kept);
      in_order = λ z. ground (arith, v.in_order, line, kept);
    }

deliver-Inv : (os : List Event) (s : IndicationState) → Inv os s → Inv os (deliver_event s)
deliver-Inv os s v =
    let line = deliver_event-edge_line s in
    let same : (deliver_event s).dropped_edge_indications ≡ s.dropped_edge_indications =
      unfold deliver_event in ground arith in
    record {
      keyed = unfold deliver_event in ground (arith, v.keyed);
      waits_edge = λ w q. unfold deliver_event in ground (arith, v.waits_edge w);
      counted = ground (arith, v.counted, line, same);
      in_order = λ z. ground (arith, v.in_order, line, same);
    }

start-Inv : Inv [] initial
unfolding edges_offered edge_line edges waiting_list
start-Inv = record {
  keyed = tt;
  waits_edge = λ e q. absurd (ground arith);
  counted = refl;
  in_order = λ z. refl;
}

unsignal-Inv :
    (os : List Event) (s : IndicationState) → Inv os s → Inv os (record s { signalled = false })
unfolding edge_line
unsignal-Inv os s v = record {
  keyed = v.keyed;
  waits_edge = v.waits_edge;
  counted = v.counted;
  in_order = v.in_order;
}

Run-Inv : {capacity : ℕ} {os : List Event} {s : IndicationState} → Run capacity os s → Inv os s
Run-Inv start = start-Inv
Run-Inv {capacity = n} (offer {os = os} {s = s} r h e) = enqueue-Inv n os s e h (Run-Inv r)
Run-Inv (time_out {os = os} {s = s} r) = drop-Inv os s (Run-Inv r)
Run-Inv {capacity = n} (admit {os = os} {s = s} r) = admit-Inv n os s (Run-Inv r)
Run-Inv (pass {os = os} {s = s} r) = pass-Inv os s (Run-Inv r)
Run-Inv (deliver {os = os} {s = s} r) = deliver-Inv os s (Run-Inv r)
Run-Inv (unsignal {os = os} {s = s} r) = unsignal-Inv os s (Run-Inv r)

-- In every interleaving, each edge indication offered (one with no coalescing key) has been delivered,
-- waits in the indication loop for room, stands in the queue, is waited with, or is counted as dropped.
pub edge_indications_counted :
    (capacity : ℕ) (os : List Event) (s : IndicationState)
    → Run capacity os s
    → length (edges_offered os) ≡ length (edge_line s) + s.dropped_edge_indications
edge_indications_counted capacity os s r = (Run-Inv r).counted

-- In every interleaving that has dropped none, the edge indications delivered, then the one that waits
-- in the indication loop for room, then those in the queue, then the one waited with, are those offered, in the order of the offers.
pub edge_indications_in_order :
    (capacity : ℕ) (os : List Event) (s : IndicationState)
    → Run capacity os s
    → s.dropped_edge_indications ≡ 0
    → edges_offered os ≡ edge_line s
edge_indications_in_order capacity os s r = (Run-Inv r).in_order
