-- ===== src/Qrtr/Transport/Ownership/Runs.antt =====
-- pkg/qmi/qrtr_transport_linux.go: ownership through the handlers of the control service.
use mathlib.Core.Path.{subst}
use quectel_qmi_go.Common.{
  if_either, elim_either, inl, inr, ℕ, ◌≤◌, ◌<◌, ◌≡◌, refl, sym, List, ◌∷◌, Bool, false, not,
  Option, none, some, Option-cases, Bytes, lookup, ℕ_discrete, lookup-delete, arith,
}
use quectel_qmi_go.Wire.Tlv.{Tlv, find_tlv}
use quectel_qmi_go.Wire.Ctl.{decode_ctl_service_only, decode_ctl_service_client_id}
use quectel_qmi_go.Qrtr.Transport.{QrtrService, QrtrClient, QrtrTransport, resolve_service}
use quectel_qmi_go.Qrtr.Transport.Replies.{push_rx, reply_ctl, reply_ctl_error}
use quectel_qmi_go.Qrtr.Transport.Control.{
  Kernel, Written, allocate_cid, enter_client, replace_client, drop_client, open_client,
  allocate_for, handle_get_version_info, handle_allocate_client_id, handle_release_client_id,
}
use quectel_qmi_go.Qrtr.Transport.Sockets.{IsOwned-replace, IsOwned-drop, IsOwned-add}
use quectel_qmi_go.Qrtr.Transport.Ownership.{
  Holding, holding, IsSafe, IsSafe-apply_wakes, After, IsSafe-resolve_service,
  IsSafe-enumerate_services,
}

pub holding-push_rx :
    (d : Bool) (frame : Bytes) (t : QrtrTransport) → holding (push_rx d frame t) ≡ holding t
unfolding push_rx
holding-push_rx d frame t = ground arith

module _ (d : Bool) (tx_id msg_id : ℕ) (t : QrtrTransport) where
  pub IsSafe-reply_ctl :
      (fresh : Option ℕ) (tlvs : List Tlv)
      → IsSafe fresh (holding t)
      → IsSafe fresh (holding (reply_ctl d tx_id msg_id tlvs t))
  unfolding reply_ctl
  IsSafe-reply_ctl fresh tlvs v = subst (IsSafe fresh) (sym (holding-push_rx d _ t)) v

  pub IsSafe-reply_ctl_error :
      (fresh : Option ℕ) (code : ℕ)
      → IsSafe fresh (holding t)
      → IsSafe fresh (holding (reply_ctl_error d tx_id msg_id code t))
  unfolding reply_ctl_error
  IsSafe-reply_ctl_error fresh code v = IsSafe-reply_ctl fresh _ v

pub used_up : (fresh : Option ℕ) (h : Holding) → IsSafe fresh h → IsSafe none h
used_up fresh h v = record { owned = v.owned; unused = λ k e. ground arith; emptied = v.emptied }

allocate_cid-in_range : (t : QrtrTransport) → (1 ≤ (allocate_cid t).0) × ((allocate_cid t).0 < 256)
unfolding allocate_cid
allocate_cid-in_range t = ground arith

module _ (t : QrtrTransport) where
  -- The new client's socket joins the open ones, and the socket of the client before it leaves.
  pub IsSafe-replace_client :
      (s : ℕ) (cl : QrtrClient)
      → t.closed ≡ false
      → IsSafe (some cl.sock) (holding t)
      → cl.service ≡ s
      → 1 ≤ cl.client_id
      → cl.client_id < 256
      → IsSafe none
          (holding (replace_client s cl (record t { open_sockets = cl.sock ∷ t.open_sockets })))
  unfolding replace_client
  IsSafe-replace_client s cl ec v es e1 e2 = elim (Option-cases (lookup ℕ_discrete t.clients s)) [
    | inl e ↦
        rw (replace_client, e)
          (record {
            owned =
                IsOwned-add t.clients t.open_sockets v.owned s cl e (v.unused cl.sock refl) es e1
                  e2;
            unused = λ k ek. ground arith;
            emptied = λ h. absurd (ground (arith, ec, h));
          })
    | inr (old, e) ↦
        rw (replace_client, e)
          (record {
            owned =
                IsOwned-replace t.clients t.open_sockets v.owned s old cl e (v.unused cl.sock refl)
                  es e1 e2;
            unused = λ k ek. ground arith;
            emptied = λ h. absurd (ground (arith, ec, h));
          })
  ]

  pub IsSafe-drop_client :
      (s : ℕ) → IsSafe none (holding t) → IsSafe none (holding (drop_client s t))
  unfolding drop_client
  IsSafe-drop_client s v = elim (Option-cases (lookup ℕ_discrete t.clients s)) [
    | inl e ↦ rw (drop_client, e) v
    | inr (old, e) ↦
        rw (drop_client, e)
          (record {
            owned = IsOwned-drop t.clients t.open_sockets v.owned s old e;
            unused = λ k ek. ground arith;
            emptied = λ h j. ground (arith, v.emptied h j, lookup-delete ℕ_discrete t.clients s j);
          })
  ]

module _ (k : Kernel) (tx_id : ℕ) where
  abbrev pub Left : Written → Type 0
  Left r = After none r

  pub IsSafe-enter_client :
      (cl : QrtrClient) (t : QrtrTransport)
      → IsSafe (some cl.sock) (holding t)
      → 1 ≤ cl.client_id
      → cl.client_id < 256
      → Left (enter_client k tx_id cl t)
  unfolding enter_client
  IsSafe-enter_client cl t v e1 e2 =
      if_either Left t.closed
        (λ e. IsSafe-reply_ctl_error k.drop_if_closed tx_id _ t none _ (used_up _ _ v))
        (λ e.
          IsSafe-reply_ctl k.drop_if_closed tx_id _ _ none _
            (IsSafe-replace_client t cl.service cl e v refl e1 e2))

  pub IsSafe-open_client :
      (s : ℕ) (srv : QrtrService) (t : QrtrTransport)
      → IsSafe k.new_socket (holding t)
      → Left (open_client k tx_id s srv t)
  unfolding open_client allocate_cid
  IsSafe-open_client s srv t v = elim_either Left k.new_socket (used_up _ _ v) (λ sock e.
      if_either Left (not k.timeout_set) (λ et. used_up _ _ v)
        (λ et.
          IsSafe-enter_client _ _
            (IsSafe-apply_wakes (some sock) k.meanwhile (allocate_cid t).1
              (subst (λ f. IsSafe f (holding t)) e v))
            (allocate_cid-in_range t).0 (allocate_cid-in_range t).1))

  pub IsSafe-allocate_for :
      (s : ℕ) (t : QrtrTransport)
      → IsSafe k.new_socket (holding t)
      → Left (allocate_for k tx_id s t)
  unfolding allocate_for
  IsSafe-allocate_for s t v =
      let t' = (resolve_service k.lookup_answer s t).1 in
      let w = IsSafe-resolve_service k.new_socket k.lookup_answer s t v in
      elim_either Left (resolve_service k.lookup_answer s t).0
        (IsSafe-reply_ctl_error k.drop_if_closed tx_id _ t' none _ (used_up _ _ w))
        (λ srv e. IsSafe-open_client s srv t' w)

  module _ (tlvs : List Tlv) (t : QrtrTransport) where
    pub IsSafe-handle_allocate_client_id :
        IsSafe k.new_socket (holding t) → Left (handle_allocate_client_id k tx_id tlvs t)
    unfolding handle_allocate_client_id
    IsSafe-handle_allocate_client_id v =
        let refused = IsSafe-reply_ctl_error k.drop_if_closed tx_id _ t none _ (used_up _ _ v) in
        elim_either Left (find_tlv tlvs 0x01) refused (λ tlv e.
          elim_either Left (decode_ctl_service_only tlv.value) refused
            (λ s es. IsSafe-allocate_for s t v))

    pub IsSafe-handle_release_client_id :
        IsSafe none (holding t) → Left (handle_release_client_id k tx_id tlvs t)
    unfolding handle_release_client_id
    IsSafe-handle_release_client_id v =
        let refused = IsSafe-reply_ctl_error k.drop_if_closed tx_id _ t none _ v in
        elim_either Left (find_tlv tlvs 0x01) refused (λ tlv e.
          elim_either Left (decode_ctl_service_client_id tlv.value) refused (λ s es.
            IsSafe-reply_ctl k.drop_if_closed tx_id _ _ none _ (IsSafe-drop_client t s.0 v)))

    pub IsSafe-handle_get_version_info :
        IsSafe none (holding t) → Left (handle_get_version_info k tx_id t)
    unfolding handle_get_version_info
    IsSafe-handle_get_version_info v =
        IsSafe-reply_ctl k.drop_if_closed tx_id _ _ none _
          (IsSafe-enumerate_services none k.lookup_answer t v)
