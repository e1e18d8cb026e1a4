-- ===== src/Qrtr/Transport/Services.antt =====
-- pkg/qmi/qrtr_transport_linux.go: the table of services, and the wait for an announcement.
use quectel_qmi_go.Common.{
  ℕ, ◌%◌, ◌+◌, ◌≤◌, ◌≡◌, refl, ◌∙◌, List, [], ◌∷◌, ◌++◌, append-nil, Bool, true, false, not, ◌==◌,
  All, none, some, lookup, ℕ_discrete, lookup-insert, lookup-delete, arith,
}
use quectel_qmi_go.Qrtr.Wire.{
  QrtrCtrlPkt, WireResult, ok, err, marshal_qrtr_ctrl_pkt, unmarshal_qrtr_ctrl_pkt, is_zero_server,
  new_lookup_request, qrtr_type_new_server,
}
use quectel_qmi_go.Qrtr.Wire.RoundTrip.{IsCtrlPkt, unmarshal-marshal_qrtr_ctrl_pkt}
use quectel_qmi_go.Qrtr.Transport.{
  QrtrService, QrtrTransport, ctrl_packet, ctrl_received, broadcast_locked, Wake, ctrl_arrives,
  close_runs, apply_wake, apply_wakes, Round, resolve_loop, resolve_service, send_ctrl,
}

-- A packet about another service, or one that cannot be read; no Close.
abbrev pub spares : ℕ → Wake → Bool
spares s (ctrl_arrives bs) = elim (unmarshal_qrtr_ctrl_pkt bs) [
  | ok pkt ↦ not (pkt.service % 65536 == s)
  | err e ↦ true
]
spares s close_runs = false

abbrev pub Spare : ℕ → List Wake → Type 0
Spare s ws = All (λ w. spares s w ≡ true) ws

-- What such packets keep; the notify channel is not opened again.
abbrev Kept : ℕ → QrtrTransport → QrtrTransport → Type 0
Kept s t t' =
    (t.notified ≤ t'.notified)
    × ((lookup ℕ_discrete t'.services s ≡ lookup ℕ_discrete t.services s) × (t'.closed ≡ t.closed))

ctrl_packet-Kept :
    (s : ℕ) (pkt : QrtrCtrlPkt) (t : QrtrTransport)
    → not (pkt.service % 65536 == s) ≡ true
    → Kept s t (ctrl_packet pkt t)
unfolding ctrl_packet broadcast_locked
ctrl_packet-Kept s pkt t h = ground (
  arith,
  h,
  lookup-insert ℕ_discrete t.services (pkt.service % 65536) s
      (record { node = pkt.node; port = pkt.port; version_major = pkt.instance_id % 256 }),
  lookup-delete ℕ_discrete t.services (pkt.service % 65536) s,
)

apply_wake-Kept :
    (s : ℕ) (w : Wake) (t : QrtrTransport) → spares s w ≡ true → Kept s t (apply_wake w t)
unfolding apply_wake ctrl_received
apply_wake-Kept s (ctrl_arrives bs) t h = received (unmarshal_qrtr_ctrl_pkt bs) h
  where
    received :
        (r : WireResult QrtrCtrlPkt)
        → elim r [ ok pkt ↦ not (pkt.service % 65536 == s) | err e ↦ true ] ≡ true
        → Kept s t (elim r [ ok pkt ↦ ctrl_packet pkt t | err e ↦ t ])
    received (ok pkt) e = ctrl_packet-Kept s pkt t e
    received (err x) e = (omega arith, (refl, refl))
apply_wake-Kept s close_runs t h = absurd (ground (arith, h))

apply_wakes-Kept :
    (s : ℕ) (ws : List Wake) (t : QrtrTransport) → Spare s ws → Kept s t (apply_wakes ws t)
unfolding apply_wakes
apply_wakes-Kept s [] t h = (omega arith, (refl, refl))
apply_wakes-Kept s (w ∷ ws) t (h, hs) =
    let (n, (l, c)) = apply_wake-Kept s w t h in
    let (n', (l', c')) = apply_wakes-Kept s ws (apply_wake w t) hs in
    (omega (arith, n, n'), (l' ∙ l, c' ∙ c))

apply_wakes-append :
    (ws ws' : List Wake) (t : QrtrTransport)
    → apply_wakes (ws ++ ws') t ≡ apply_wakes ws' (apply_wakes ws t)
unfolding apply_wakes
apply_wakes-append [] ws' t = refl
apply_wakes-append (w ∷ ws) ws' t = apply_wakes-append ws ws' (apply_wake w t)

-- The service of an announcement.
abbrev pub service_of : QrtrCtrlPkt → QrtrService
service_of pkt = record { node = pkt.node; port = pkt.port; version_major = pkt.instance_id % 256 }

-- An announcement of a service that is not all zero.
pub record IsAnnouncement (pkt : QrtrCtrlPkt) : Type 0 where
  pub fields : IsCtrlPkt pkt
  pub command : pkt.cmd ≡ qrtr_type_new_server
  pub nonzero : is_zero_server pkt ≡ false

module _ (pkt : QrtrCtrlPkt) (v : IsAnnouncement pkt) where
  abbrev announcement : Wake
  announcement = ctrl_arrives (marshal_qrtr_ctrl_pkt pkt)

  abbrev number : ℕ
  number = pkt.service % 65536

  -- A table that has the announced service, behind a notification.
  abbrev Announced : QrtrTransport → QrtrTransport → Type 0
  Announced t t' =
      (t.notified + 1 ≤ t'.notified)
      × (lookup ℕ_discrete t'.services number ≡ some (service_of pkt))

  ctrl_packet-Announced : (t : QrtrTransport) → Announced t (ctrl_packet pkt t)
  unfolding ctrl_packet broadcast_locked
  ctrl_packet-Announced t = ground (
    arith,
    v.command,
    v.nonzero,
    lookup-insert ℕ_discrete t.services number number (service_of pkt),
  )

  announcement-Announced : (t : QrtrTransport) → Announced t (apply_wake announcement t)
  unfolding apply_wake ctrl_received
  announcement-Announced t =
      let back : unmarshal_qrtr_ctrl_pkt (marshal_qrtr_ctrl_pkt pkt) ≡ ok pkt =
        rw append-nil at (unmarshal-marshal_qrtr_ctrl_pkt pkt [] v.fields) in
      rw (ctrl_received, back) (ctrl_packet-Announced t)

  -- A wait in which the announcement arrives.
  wait-Announced :
      (pre post : List Wake) (t : QrtrTransport)
      → Spare number pre
      → Spare number post
      → Announced t (apply_wakes (pre ++ (announcement ∷ post)) t)
  unfolding apply_wakes
  wait-Announced pre post t hpre hpost =
      let t1 = apply_wakes pre t in
      let t2 = apply_wake announcement t1 in
      let (n, (l, c)) = apply_wakes-Kept number pre t hpre in
      let (n', l') = announcement-Announced t1 in
      let (n'', (l'', c'')) = apply_wakes-Kept number post t2 hpost in
      rw (apply_wakes-append pre (announcement ∷ post) t) (omega (arith, n, n', n''), l'' ∙ l')

  -- A wait in which it does not, and which does not end.
  abbrev pub IsQuiet : Round → Type 0
  IsQuiet r = (r.ends ≡ false) × Spare (pkt.service % 65536) r.arrivals

  abbrev pub arriving : List Wake → List Wake → Round
  arriving pre post = record {
    arrivals = pre ++ (ctrl_arrives (marshal_qrtr_ctrl_pkt pkt) ∷ post);
    ends = false;
  }

  module _ (pre post : List Wake) (after : List Round) (hpre : Spare number pre)
      (hpost : Spare number post) where
    resolve_loop-found :
        (before : List Round) (channel : ℕ) (t : QrtrTransport)
        → All IsQuiet before
        → channel ≤ t.notified
        → lookup ℕ_discrete t.services number ≡ none
        → t.closed ≡ false
        → (resolve_loop (before ++ (arriving pre post ∷ after)) number channel t).0
          ≡ some (service_of pkt)
    unfolding resolve_loop
    resolve_loop-found [] channel t hb hn hl hc =
        ground (arith, wait-Announced pre post t hpre hpost, hn)
    resolve_loop-found (r ∷ before) channel t ((he, hr), hb) hn hl hc =
        let t' = apply_wakes r.arrivals t in
        let (n, (l, c)) = apply_wakes-Kept number r.arrivals t hr in
        let hn' : channel ≤ t'.notified = omega (arith, n, hn) in
        let waiting = resolve_loop-found before channel t' hb hn' (l ∙ hl) (c ∙ hc) in
        let again = resolve_loop-found before t'.notified t' hb (omega arith) (l ∙ hl) (c ∙ hc) in
        ground (arith, he, waiting, again, l, hl, c, hc)

  -- The service is not known, the transport is open and the lookup is sent. Packets about other
  -- services arrive, during the sending and in the waits, and then, before the deadline, the name
  -- server's announcement of the service, in the same wait with others about other services before
  -- and behind it, which may all be handled before the waiter has the lock again. No Close runs up to
  -- then, and the wake-up is taken. Then resolveService finds the service, with the node, the port and
  -- the version of the announcement.
  pub service_resolved :
      (meanwhile pre post : List Wake) (before after : List Round) (t : QrtrTransport)
      → Spare (pkt.service % 65536) meanwhile
      → All IsQuiet before
      → Spare (pkt.service % 65536) pre
      → Spare (pkt.service % 65536) post
      → lookup ℕ_discrete t.services (pkt.service % 65536) ≡ none
      → t.closed ≡ false
      → (resolve_service
          (record {
            request_sent = true;
            meanwhile = meanwhile;
            rounds = before ++ (arriving pre post ∷ after);
          })
          (pkt.service % 65536)
          t).0
        ≡ some (record { node = pkt.node; port = pkt.port; version_major = pkt.instance_id % 256 })
  unfolding resolve_service send_ctrl
  service_resolved meanwhile pre post before after t hm hb hpre hpost hl hc =
      let sent = send_ctrl (new_lookup_request number) t in
      let t' = apply_wakes meanwhile sent in
      let (n, (l, c)) = apply_wakes-Kept number meanwhile sent hm in
      let found =
        resolve_loop-found pre post after hpre hpost before t'.notified t' hb (omega arith) (l ∙ hl)
          (c ∙ hc) in
      ground (arith, hl, hc, l, c, found)
