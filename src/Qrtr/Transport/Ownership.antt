-- ===== src/Qrtr/Transport/Ownership.antt =====
-- pkg/qmi/qrtr_transport_linux.go: ownership of the data sockets through every run of the transport.
pub mod Runs
pub mod Steps
use mathlib.Core.Path.{subst}
use quectel_qmi_go.Common.{
  if_either, elim_either, ℕ, ◌+◌, ◌%◌, ◌≤◌, ◌<◌, ◌≡◌, refl, sym, ◌⊎◌, inl, inr, List, [], ◌∷◌, Bool,
  true, false, not, ◌&&◌, ◌||◌, if◌then◌else◌, ltb, ◌==◌, Option, none, some, Option-cases,
  Bool-cases, Bytes, lookup, delete, insert, ℕ_discrete, length, lookup-delete, lookup-insert,
  arith,
}
use quectel_qmi_go.Wire.Header.{CtlHeader}
use quectel_qmi_go.Wire.Tlv.{Tlv}
use quectel_qmi_go.Qrtr.Wire.{new_lookup_request}
use quectel_qmi_go.Qrtr.Transport.{
  QrtrService, QrtrClient, QrtrTransport, new_qrtr_transport, close_socket, close_sockets, close,
  ctrl_packet, ctrl_received, broadcast_locked, Wake, Round, ctrl_arrives, close_runs, apply_wake,
  apply_wakes, Lookup, resolve_loop, resolve_service, enumerate_loop, enumerate_services, send_ctrl,
}
use quectel_qmi_go.Qrtr.Transport.Sockets.{
  is_open, IsOwned, IsOwned-close, IsOwned-replace, IsOwned-drop, IsOwned-add,
  is_open-close_sockets,
}

-- What ownership is about.
pub record Holding : Type 0 where
  pub clients : List (ℕ × QrtrClient)
  pub sockets : List ℕ
  pub closed : Bool

abbrev pub holding : QrtrTransport → Holding
holding t = record { clients = t.clients; sockets = t.open_sockets; closed = t.closed }

-- `fresh` is a handle that the kernel may hand out next: it is not open. After Close nothing is.
pub record IsSafe (fresh : Option ℕ) (h : Holding) : Type 0 where
  pub owned : IsOwned h.clients h.sockets
  pub unused : (k : ℕ) → fresh ≡ some k → is_open k h.sockets ≡ false
  pub emptied : h.closed ≡ true → (s : ℕ) → lookup ℕ_discrete h.clients s ≡ none

pub holding-ctrl_received :
    (bs : Bytes) (t : QrtrTransport) → holding (ctrl_received bs t) ≡ holding t
unfolding ctrl_received ctrl_packet broadcast_locked
holding-ctrl_received bs t = ground arith

close_again : (t : QrtrTransport) → t.closed ≡ true → close t ≡ t
unfolding close
close_again t e = ground (arith, e)

pub holding-close :
    (t : QrtrTransport)
    → t.closed ≡ false
    → holding (close t)
      ≡ record { clients = []; sockets = close_sockets t.clients t.open_sockets; closed = true }
unfolding close broadcast_locked
holding-close t e = ground (arith, e)

module _ (fresh : Option ℕ) where
  pub IsSafe-close :
      (t : QrtrTransport) → IsSafe fresh (holding t) → IsSafe fresh (holding (close t))
  unfolding lookup
  IsSafe-close t v = elim (Bool-cases t.closed) [
    | inl e ↦ subst (λ u. IsSafe fresh (holding u)) (sym (close_again t e)) v
    | inr e ↦ subst (IsSafe fresh) (sym (holding-close t e)) (record {
      owned = IsOwned-close t.clients t.open_sockets v.owned;
      unused = λ k ek. ground (arith, v.unused k, is_open-close_sockets t.clients k t.open_sockets);
      emptied = λ h s. refl;
    })
  ]

  pub IsSafe-apply_wake :
      (w : Wake) (t : QrtrTransport)
      → IsSafe fresh (holding t)
      → IsSafe fresh (holding (apply_wake w t))
  unfolding apply_wake
  IsSafe-apply_wake (ctrl_arrives bs) t v = rw (holding-ctrl_received bs t) v
  IsSafe-apply_wake close_runs t v = IsSafe-close t v

  pub IsSafe-apply_wakes :
      (ws : List Wake) (t : QrtrTransport)
      → IsSafe fresh (holding t)
      → IsSafe fresh (holding (apply_wakes ws t))
  unfolding apply_wakes
  IsSafe-apply_wakes [] t v = v
  IsSafe-apply_wakes (w ∷ ws) t v = IsSafe-apply_wakes ws (apply_wake w t) (IsSafe-apply_wake w t v)

  abbrev pub After : {A : Type 0} → A × QrtrTransport → Type 0
  After r = IsSafe fresh (holding r.1)

  pub IsSafe-resolve_loop :
      (rs : List Round) (s n : ℕ) (t : QrtrTransport)
      → IsSafe fresh (holding t)
      → After (resolve_loop rs s n t)
  unfolding resolve_loop
  IsSafe-resolve_loop [] s n t v = v
  IsSafe-resolve_loop (r ∷ rs) s n t v =
      let t' = apply_wakes r.arrivals t in
      let v' = IsSafe-apply_wakes r.arrivals t v in
      if_either After r.ends (λ e. v')
        (λ e.
          if_either After (t'.notified == n) (λ en. IsSafe-resolve_loop rs s n t' v')
            (λ en.
              elim_either After (lookup ℕ_discrete t'.services s)
                (if_either After t'.closed (λ ec. v')
                  (λ ec. IsSafe-resolve_loop rs s t'.notified t' v'))
                (λ srv ec. v')))

  pub IsSafe-resolve_service :
      (l : Lookup) (s : ℕ) (t : QrtrTransport)
      → IsSafe fresh (holding t)
      → After (resolve_service l s t)
  unfolding resolve_service send_ctrl
  IsSafe-resolve_service l s t v =
      let sent = send_ctrl (new_lookup_request s) t in
      let t' = apply_wakes l.meanwhile sent in
      let v' = IsSafe-apply_wakes l.meanwhile sent v in
      elim_either After (lookup ℕ_discrete t.services s)
        (if_either After t.closed (λ e. v)
          (λ e.
            if_either After (not l.request_sent) (λ er. v)
              (λ er.
                elim_either After (lookup ℕ_discrete t'.services s)
                  (if_either After t'.closed (λ ec. v')
                    (λ ec. IsSafe-resolve_loop l.rounds s t'.notified t' v'))
                  (λ srv ec. v'))))
        (λ srv e. v)

  abbrev Safe : QrtrTransport → Type 0
  Safe t = IsSafe fresh (holding t)

  pub IsSafe-enumerate_loop :
      (rs : List Round) (g n : ℕ) (t : QrtrTransport) → Safe t → Safe (enumerate_loop rs g n t)
  unfolding enumerate_loop
  IsSafe-enumerate_loop [] g n t v = v
  IsSafe-enumerate_loop (r ∷ rs) g n t v =
      let t' = apply_wakes r.arrivals t in
      let v' = IsSafe-apply_wakes r.arrivals t v in
      if_either Safe r.ends (λ e. v')
        (λ e.
          if_either Safe (t'.notified == n) (λ en. IsSafe-enumerate_loop rs g n t' v')
            (λ en.
              if_either Safe (t'.enum_gen == g && not t'.closed)
                (λ eg. IsSafe-enumerate_loop rs g t'.notified t' v') (λ eg. v')))

  pub IsSafe-enumerate_services :
      (l : Lookup) (t : QrtrTransport)
      → IsSafe fresh (holding t)
      → IsSafe fresh (holding (enumerate_services l t))
  unfolding enumerate_services send_ctrl
  IsSafe-enumerate_services l t v =
      let sent = send_ctrl (new_lookup_request 0) t in
      let t' = apply_wakes l.meanwhile sent in
      let v' = IsSafe-apply_wakes l.meanwhile sent v in
      if_either Safe (t.closed || not l.request_sent) (λ e. v)
        (λ e.
          if_either Safe (t'.enum_gen == t.enum_gen && not t'.closed)
            (λ eg. IsSafe-enumerate_loop l.rounds t.enum_gen t'.notified t' v') (λ eg. v'))
