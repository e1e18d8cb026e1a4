-- ===== src/Qrtr/Wire.antt =====
-- pkg/qmi/qrtr_wire.go: the socket address and the control packet of QRTR.
pub mod RoundTrip
use quectel_qmi_go.Common.{
  ℕ, List, [], ◌∷◌, Bool, not, ◌&&◌, if◌then◌else◌, ltb, ◌==◌, length, Bytes, put_u16, put_u32,
  u16_at, u32_at,
}

pub data WireError : Type 0 where
  sockaddr_too_short : ℕ → WireError
  unexpected_family : ℕ → WireError
  ctrl_packet_too_short : ℕ → WireError

pub data WireResult {ℓ} (A : Type ℓ) : Type ℓ where
  ok : A → WireResult A
  err : WireError → WireResult A

abbrev pub qrtr_address_family : ℕ
qrtr_address_family = 0x2a

abbrev pub qrtr_type_new_server : ℕ
qrtr_type_new_server = 4

abbrev pub qrtr_type_del_server : ℕ
qrtr_type_del_server = 5

abbrev pub qrtr_type_new_lookup : ℕ
qrtr_type_new_lookup = 10

abbrev pub sockaddr_qrtr_size : ℕ
sockaddr_qrtr_size = 12

pub record SockaddrQrtr : Type 0 where
  pub node : ℕ
  pub port : ℕ

-- Two bytes of padding stay zero.
unfoldable pub marshal_sockaddr_qrtr : SockaddrQrtr → Bytes
marshal_sockaddr_qrtr a = put_u16 qrtr_address_family (0 ∷ 0 ∷ put_u32 a.node (put_u32 a.port []))

unfoldable pub unmarshal_sockaddr_qrtr : Bytes → WireResult SockaddrQrtr
unmarshal_sockaddr_qrtr bs =
    if ltb (length bs) sockaddr_qrtr_size
    then err (sockaddr_too_short (length bs))
    else if not (u16_at bs 0 == qrtr_address_family)
    then err (unexpected_family (u16_at bs 0))
    else ok (record { node = u32_at bs 4; port = u32_at bs 8 })

abbrev pub qrtr_ctrl_pkt_size : ℕ
qrtr_ctrl_pkt_size = 20

pub record QrtrCtrlPkt : Type 0 where
  pub cmd : ℕ
  pub service : ℕ
  pub instance_id : ℕ
  pub node : ℕ
  pub port : ℕ

unfoldable pub marshal_qrtr_ctrl_pkt : QrtrCtrlPkt → Bytes
marshal_qrtr_ctrl_pkt p =
    put_u32 p.cmd (put_u32 p.service (put_u32 p.instance_id (put_u32 p.node (put_u32 p.port []))))

unfoldable pub unmarshal_qrtr_ctrl_pkt : Bytes → WireResult QrtrCtrlPkt
unmarshal_qrtr_ctrl_pkt bs =
    if ltb (length bs) qrtr_ctrl_pkt_size
    then err (ctrl_packet_too_short (length bs))
    else ok (record {
      cmd = u32_at bs 0;
      service = u32_at bs 4;
      instance_id = u32_at bs 8;
      node = u32_at bs 12;
      port = u32_at bs 16;
    })

-- The all-zero NEW_SERVER that ends an enumeration.
unfoldable pub is_zero_server : QrtrCtrlPkt → Bool
is_zero_server p = p.service == 0 && p.instance_id == 0 && p.node == 0 && p.port == 0

unfoldable pub new_lookup_request : ℕ → QrtrCtrlPkt
new_lookup_request service = record {
  cmd = qrtr_type_new_lookup;
  service = service;
  instance_id = 0;
  node = 0;
  port = 0;
}
