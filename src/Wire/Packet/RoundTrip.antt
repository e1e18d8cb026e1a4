-- ===== src/Wire/Packet/RoundTrip.antt =====
-- Packets of pkg/qmi/frame.go written and read back.
use quectel_qmi_go.Common.{
  ℕ, ◌+◌, ◌-◌, ◌%◌, ◌≤◌, ◌<◌, ◌≡◌, refl, sym, ◌∙◌, List, [], ◌∷◌, ◌++◌, append-nil, append_assoc,
  false, not, bit_and, ltb, ltb-false, ◌==◌, length, take, drop, if◌then◌else◌, All, Bytes, IsU16,
  take-length_append, drop-length_append, length-append, arith,
}
use quectel_qmi_go.Wire.Header.{
  ok, marshal_frame_header, DecodedFrameHeader, CtlHeader, ctl_header_size, marshal_ctl,
  ServiceHeader, service_header_size, marshal_service,
}
use quectel_qmi_go.Wire.Header.Laws.{
  unmarshal_ctl-marshal_ctl, unmarshal_service-marshal_service, frame_header_size,
  unmarshal_frame_header-marshal_frame_header, length-marshal_frame_header,
}
use quectel_qmi_go.Wire.Tlv.{Tlv, parsed, parse_tlvs, marshal_tlvs}
use quectel_qmi_go.Wire.Tlv.RoundTrip.{Fits, parse_tlvs-marshal_tlvs, length-marshal_tlv_append}
use quectel_qmi_go.Wire.Packet.{
  Packet, service_control, marshal_body, marshal, read_tlvs, unmarshal_ctl_body,
  unmarshal_service_body, unmarshal_body, unmarshal_frame, unmarshal,
}

-- Each value fits if the run does.
pub run-Fits : (ts : List Tlv) → length (marshal_tlvs ts) < 65536 → All Fits ts
unfolding marshal_tlvs
run-Fits [] h = tt
run-Fits (t ∷ ts) h =
    let n = length-marshal_tlv_append t (marshal_tlvs ts) in
    (omega (arith, n), run-Fits ts (omega (arith, n)))

pub read_tlvs-marshal_tlvs :
    (ts : List Tlv) (n : ℕ)
    → length (marshal_tlvs ts) < 65536
    → n ≡ length (marshal_tlvs ts)
    → read_tlvs n (marshal_tlvs ts) ≡ ok ts
unfolding read_tlvs
read_tlvs-marshal_tlvs ts n h e =
    let back : parse_tlvs (marshal_tlvs ts) ≡ parsed ts =
      rw append-nil at (parse_tlvs-marshal_tlvs ts 0 (run-Fits ts h) (omega arith)) in
    let whole : take (length (marshal_tlvs ts)) (marshal_tlvs ts) ≡ marshal_tlvs ts =
      rw append-nil at (take-length_append (marshal_tlvs ts) []) in
    rw (
      e,
      ltb-false (length (marshal_tlvs ts)) (length (marshal_tlvs ts)) (omega arith),
      whole,
      back,
    )

-- What a receiver makes of a packet that was sent: the transaction as far as the header has room
-- for it, and never an indication.
abbrev pub received : Packet → Packet
received p = record p {
  transaction_id =
      if p.service_type == service_control then p.transaction_id % 256 else p.transaction_id;
  is_indication = false;
}

-- The frame as the two fields of the wire see it.
abbrev pub frame_of : Packet → Bytes → DecodedFrameHeader
frame_of p body = record {
  header_size = frame_header_size p.service_type;
  length = frame_header_size p.service_type + length body - 1;
  control_flags = 0;
  service_type = p.service_type;
  client_id = p.client_id;
}

-- The fields are in the range of their Go types, and the run of TLVs leaves room for both headers.
pub record IsSendable (p : Packet) : Type 0 where
  pub service : p.service_type < 256
  pub transaction : IsU16 p.transaction_id
  pub message : IsU16 p.message_id
  pub room : length (marshal_tlvs p.tlvs) + 13 ≤ 65536

pub length-marshal_body :
    (p : Packet)
    → length (marshal_body p)
      ≡ (if p.service_type == service_control then ctl_header_size else service_header_size)
        + length (marshal_tlvs p.tlvs)
unfolding marshal_body marshal_ctl marshal_service
length-marshal_body p = ground arith

abbrev pub ctl_header_of : Packet → CtlHeader
ctl_header_of p = record {
  control_flags = 0x00;
  transaction_id = p.transaction_id % 256;
  message_id = p.message_id;
  length = length (marshal_tlvs p.tlvs) % 65536;
}

-- With any control flags, as the modem sends them.
abbrev pub flagged_header : ℕ → Packet → ServiceHeader
flagged_header flags p = record {
  control_flags = flags;
  transaction_id = p.transaction_id;
  message_id = p.message_id;
  length = length (marshal_tlvs p.tlvs) % 65536;
}

module _ (h : CtlHeader) (run : Bytes) where
  pub drop-marshal_ctl : drop ctl_header_size (marshal_ctl h ++ run) ≡ run
  unfolding marshal_ctl
  drop-marshal_ctl = refl

  pub ctl_long_enough : ltb (length (marshal_ctl h ++ run)) ctl_header_size ≡ false
  unfolding marshal_ctl
  ctl_long_enough = ground arith

module _ (h : ServiceHeader) (run : Bytes) where
  drop-marshal_service : drop service_header_size (marshal_service h ++ run) ≡ run
  unfolding marshal_service
  drop-marshal_service = refl

  service_long_enough : ltb (length (marshal_service h ++ run)) service_header_size ≡ false
  unfolding marshal_service
  service_long_enough = ground arith

module _ (p : Packet) (v : IsSendable p) (fh : DecodedFrameHeader) where
  read_back : read_tlvs (length (marshal_tlvs p.tlvs) % 65536) (marshal_tlvs p.tlvs) ≡ ok p.tlvs
  read_back = read_tlvs-marshal_tlvs p.tlvs _ (omega (arith, v.room)) (omega (arith, v.room))

  unmarshal_ctl_body-marshal_ctl :
      unmarshal_ctl_body fh (marshal_ctl (ctl_header_of p) ++ marshal_tlvs p.tlvs)
      ≡ ok (record {
        service_type = fh.service_type % 256;
        client_id = fh.client_id;
        transaction_id = p.transaction_id % 256;
        message_id = p.message_id;
        is_indication = false;
        tlvs = p.tlvs;
      })
  unfolding unmarshal_ctl_body
  unmarshal_ctl_body-marshal_ctl = rw (
    ctl_long_enough (ctl_header_of p) (marshal_tlvs p.tlvs),
    unmarshal_ctl-marshal_ctl (ctl_header_of p) (marshal_tlvs p.tlvs) v.message (omega arith),
    drop-marshal_ctl (ctl_header_of p) (marshal_tlvs p.tlvs),
    read_back,
  )

  pub unmarshal_service_body-marshal_service :
      (flags : ℕ)
      → unmarshal_service_body fh (marshal_service (flagged_header flags p) ++ marshal_tlvs p.tlvs)
        ≡ ok (record {
          service_type = fh.service_type % 256;
          client_id = fh.client_id;
          transaction_id = p.transaction_id;
          message_id = p.message_id;
          is_indication = not (bit_and flags 0x04 == 0);
          tlvs = p.tlvs;
        })
  unfolding unmarshal_service_body
  unmarshal_service_body-marshal_service flags = rw (
    service_long_enough (flagged_header flags p) (marshal_tlvs p.tlvs),
    unmarshal_service-marshal_service (flagged_header flags p) (marshal_tlvs p.tlvs) v.transaction
        v.message (omega arith),
    drop-marshal_service (flagged_header flags p) (marshal_tlvs p.tlvs),
    read_back,
  )

  unmarshal_body-marshal_body :
      fh.service_type ≡ p.service_type
      → fh.client_id ≡ p.client_id
      → unmarshal_body fh (marshal_body p) ≡ ok (received p)
  unfolding unmarshal_body marshal_body
  unmarshal_body-marshal_body es ec =
      ground
        (arith, unmarshal_ctl_body-marshal_ctl, unmarshal_service_body-marshal_service 0, v.service)

-- The body, cut out of a buffer that goes on.
cut_body :
    (header body rest : Bytes)
    → drop (length header) (take (length header + length body) (header ++ (body ++ rest))) ≡ body
cut_body header body rest =
    let e : take (length (header ++ body)) ((header ++ body) ++ rest) ≡ header ++ body =
      take-length_append (header ++ body) rest in
    let e' : take (length header + length body) (header ++ (body ++ rest)) ≡ header ++ body =
      rw (length-append header body, append_assoc header body rest) at e in
    rw e' (drop-length_append header body)

pub unmarshal_frame-whole :
    (fh : DecodedFrameHeader) (header body rest : Bytes)
    → fh.header_size ≡ length header
    → fh.length + 1 ≡ length header + length body
    → unmarshal_frame fh (header ++ (body ++ rest)) ≡ unmarshal_body fh body
unfolding unmarshal_frame
unmarshal_frame-whole fh header body rest eh el =
    let long : length header + length body ≤ length (header ++ (body ++ rest)) =
      omega (arith, length-append header (body ++ rest), length-append body rest) in
    rw (
      el,
      eh,
      ltb-false (length header + length body) (length header) (omega arith),
      ltb-false (length (header ++ (body ++ rest))) (length header + length body) long,
      cut_body header body rest,
    )

-- A body behind its frame header, whatever follows in the buffer.
pub unmarshal-framed :
    (p : Packet) (body rest : Bytes)
    → p.service_type < 256
    → frame_header_size p.service_type + length body ≤ 65536
    → unmarshal (marshal_frame_header p.service_type p.client_id (length body) ++ (body ++ rest))
      ≡ unmarshal_body (frame_of p body) body
unfolding unmarshal
unmarshal-framed p body rest hs hl =
    let n = length body in
    let header = marshal_frame_header p.service_type p.client_id n in
    let size = length-marshal_frame_header p.service_type p.client_id n in
    rw
      (unmarshal_frame_header-marshal_frame_header p.service_type p.client_id n (body ++ rest)
        (omega (arith, hs)) hl)
      (unmarshal_frame-whole (frame_of p body) header body rest (sym size) (ground (arith, size)))

-- A packet in range is read back from its bytes, whatever follows them in the buffer: the same
-- service, client, message and TLVs, the transaction as far as the header has room for it, and no
-- indication.
pub unmarshal-marshal :
    (p : Packet) (rest : Bytes) → IsSendable p → unmarshal (marshal p ++ rest) ≡ ok (received p)
unfolding marshal
unmarshal-marshal p rest v =
    let body = marshal_body p in
    let header = marshal_frame_header p.service_type p.client_id (length body) in
    rw (append_assoc header body rest) (
      unmarshal-framed p body rest v.service
        (ground (arith, length-marshal_body p, v.room, v.service))
      ∙ unmarshal_body-marshal_body p v (frame_of p body) refl refl)
