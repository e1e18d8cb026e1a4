-- ===== src/Qrtr/Transport/Ownership/Steps.antt =====
-- pkg/qmi/qrtr_transport_linux.go: the transport as its users and its goroutines drive it.
use mathlib.Core.Path.{subst}
use quectel_qmi_go.Common.{
  if_either, elim_either, ℕ, ◌≡◌, refl, sym, List, [], ◌∷◌, Bool, true, false, ltb, ◌==◌, none,
  some, Bytes, lookup, ℕ_discrete, length, arith, take, drop,
}
use quectel_qmi_go.Wire.Header.{
  Result, ok, err, FrameError, CtlHeader, unmarshal_ctl, unmarshal_frame_header, ctl_header_size,
}
use quectel_qmi_go.Wire.Tlv.{Tlv, Parse, parsed, failed, stuck, parse_tlvs}
use quectel_qmi_go.Wire.Packet.{service_control}
use quectel_qmi_go.Qrtr.Transport.{
  QrtrClient, QrtrTransport, new_qrtr_transport, close, ctrl_received,
}
use quectel_qmi_go.Qrtr.Transport.Control.{
  Kernel, Written, ctl_sync, ctl_get_version_info, ctl_get_client_id, ctl_release_client_id,
  dispatch_ctl, handle_ctl_write, handle_data_write, write, client_received, read,
}
use quectel_qmi_go.Qrtr.Transport.Sockets.{is_open}
use quectel_qmi_go.Qrtr.Transport.Ownership.{holding, IsSafe, holding-ctrl_received, IsSafe-close}
use quectel_qmi_go.Qrtr.Transport.Ownership.Runs.{
  IsSafe-reply_ctl, used_up, holding-push_rx, IsSafe-handle_allocate_client_id,
  IsSafe-handle_release_client_id, IsSafe-handle_get_version_info,
}

-- One Write with the kernel's answers, where a socket that the kernel hands out was not open; one
-- Read; Close; a packet at the control socket; data at the socket of a client, entered or left.
pub data Step : QrtrTransport → QrtrTransport → Type 0 where
  writes :
      (t : QrtrTransport) (k : Kernel) (frame : Bytes)
      → ((sock : ℕ) → k.new_socket ≡ some sock → is_open sock t.open_sockets ≡ false)
      → Step t (write k frame t).1
  reads :
      (t : QrtrTransport) (expired prefer_frame : Bool) (size : ℕ)
      → Step t (read expired prefer_frame size t).1
  closes : (t : QrtrTransport) → Step t (close t)
  hears : (t : QrtrTransport) (bs : Bytes) → Step t (ctrl_received bs t)
  receives :
      (t : QrtrTransport) (drop_if_closed : Bool) (service : ℕ) (cl : QrtrClient) (bs : Bytes)
      → Step t (client_received drop_if_closed service cl bs t)

pub data Reach : QrtrTransport → Type 0 where
  here : Reach new_qrtr_transport
  next : {s t : QrtrTransport} → Reach s → Step s t → Reach t

-- What holds in every case of a result, and of the outcome of a parse.
result_either {ℓ κ ι} :
    {A : Type ℓ} {B : Type κ} (P : B → Type ι) (r : Result A) {f : A → B} {g : FrameError → B}
    → ((a : A) → P (f a))
    → ((e : FrameError) → P (g e))
    → P (elim r [ ok a ↦ f a | err e ↦ g e ])
result_either P (ok a) hf hg = hf a
result_either P (err e) hf hg = hg e

parse_either {κ ι} :
    {B : Type κ} (P : B → Type ι) (r : Parse) {f : List Tlv → B} {g : List Tlv → FrameError → B}
    {b : B}
    → ((ts : List Tlv) → P (f ts))
    → ((ts : List Tlv) (e : FrameError) → P (g ts e))
    → P b
    → P (elim r [ parsed ts ↦ f ts | failed ts e ↦ g ts e | stuck ↦ b ])
parse_either P (parsed ts) hf hg hb = hf ts
parse_either P (failed ts e) hf hg hb = hg ts e
parse_either P stuck hf hg hb = hb

module _ (k : Kernel) where
  abbrev Kept : Written → Type 0
  Kept r = IsSafe none (holding r.1)

  IsSafe-dispatch_ctl :
      (h : CtlHeader) (tlvs : List Tlv) (t : QrtrTransport)
      → IsSafe k.new_socket (holding t)
      → Kept (dispatch_ctl k h tlvs t)
  unfolding dispatch_ctl
  IsSafe-dispatch_ctl h tlvs t v =
      let v' = used_up k.new_socket (holding t) v in
      if_either Kept (h.message_id == ctl_sync)
        (λ e. IsSafe-reply_ctl k.drop_if_closed h.transaction_id _ t none _ v')
        (λ e1.
          if_either Kept (h.message_id == ctl_get_version_info)
            (λ e. IsSafe-handle_get_version_info k h.transaction_id tlvs t v')
            (λ e2.
              if_either Kept (h.message_id == ctl_get_client_id)
                (λ e. IsSafe-handle_allocate_client_id k h.transaction_id tlvs t v)
                (λ e3.
                  if_either Kept (h.message_id == ctl_release_client_id)
                    (λ e. IsSafe-handle_release_client_id k h.transaction_id tlvs t v')
                    (λ e4. v'))))

  IsSafe-handle_ctl_write :
      (body : Bytes) (t : QrtrTransport)
      → IsSafe k.new_socket (holding t)
      → Kept (handle_ctl_write k body t)
  unfolding handle_ctl_write
  IsSafe-handle_ctl_write body t v =
      let v' = used_up k.new_socket (holding t) v in
      result_either Kept (unmarshal_ctl body)
        (λ h.
          if_either Kept (ltb (length (drop ctl_header_size body)) h.length) (λ e. v')
            (λ e.
              parse_either Kept (parse_tlvs (take h.length (drop ctl_header_size body)))
                (λ ts. IsSafe-dispatch_ctl h ts t v) (λ ts e'. v') v'))
        (λ e. v')

  IsSafe-handle_data_write :
      (service client_id : ℕ) (body : Bytes) (t : QrtrTransport)
      → IsSafe none (holding t)
      → Kept (handle_data_write k service client_id body t)
  unfolding handle_data_write
  IsSafe-handle_data_write service client_id body t v =
      elim_either Kept (lookup ℕ_discrete t.clients service) v
        (λ cl e. if_either Kept k.data_sent_ok (λ e'. v) (λ e'. v))

  IsSafe-write :
      (frame : Bytes) (t : QrtrTransport) → IsSafe k.new_socket (holding t) → Kept (write k frame t)
  unfolding write
  IsSafe-write frame t v =
      let v' = used_up k.new_socket (holding t) v in
      result_either Kept (unmarshal_frame_header frame)
        (λ fh.
          if_either Kept (ltb (length frame) fh.header_size) (λ e. v')
            (λ e.
              if_either Kept (fh.service_type == service_control)
                (λ es. IsSafe-handle_ctl_write (drop fh.header_size frame) t v)
                (λ es.
                  IsSafe-handle_data_write fh.service_type fh.client_id (drop fh.header_size frame)
                    t v')))
        (λ e. v')

module _ (t : QrtrTransport) where
  holding-read :
      (expired prefer_frame : Bool) (size : ℕ)
      → holding (read expired prefer_frame size t).1 ≡ holding t
  unfolding read
  holding-read true prefer_frame size = refl
  holding-read false prefer_frame size = ground arith

  holding-client_received :
      (d : Bool) (service : ℕ) (cl : QrtrClient) (bs : Bytes)
      → holding (client_received d service cl bs t) ≡ holding t
  unfolding client_received
  holding-client_received d service cl [] = refl
  holding-client_received d service cl (b ∷ bs) = holding-push_rx d _ t

Step-IsSafe : (s t : QrtrTransport) → Step s t → IsSafe none (holding s) → IsSafe none (holding t)
Step-IsSafe s _ (writes _ k frame fresh) v =
    IsSafe-write k frame s (record { owned = v.owned; unused = fresh; emptied = v.emptied })
Step-IsSafe s _ (reads _ expired prefer_frame size) v =
    subst (IsSafe none) (sym (holding-read s expired prefer_frame size)) v
Step-IsSafe s _ (closes _) v = IsSafe-close none s v
Step-IsSafe s _ (hears _ bs) v = subst (IsSafe none) (sym (holding-ctrl_received bs s)) v
Step-IsSafe s _ (receives _ d service cl bs) v =
    subst (IsSafe none) (sym (holding-client_received s d service cl bs)) v

IsSafe-new : IsSafe none (holding new_qrtr_transport)
unfolding lookup is_open
IsSafe-new = record {
  owned = record {
    entries = λ s cl e. ground arith;
    holder = λ k e. ground arith;
    single = λ s s' cl cl' e. ground arith;
  };
  unused = λ k e. refl;
  emptied = λ e s. refl;
}

-- In every run of the transport each entry of its client table is filed under its service, holds an
-- open socket of its own and an identifier from 1 to 255, and each open socket is held by an entry;
-- once the transport is closed, no entry is left.
pub sockets-IsSafe : (t : QrtrTransport) → Reach t → IsSafe none (holding t)
sockets-IsSafe _ here = IsSafe-new
sockets-IsSafe t (next {s = s} r step) = Step-IsSafe s t step (sockets-IsSafe s r)
