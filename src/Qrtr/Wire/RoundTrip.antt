-- ===== src/Qrtr/Wire/RoundTrip.antt =====
-- Addresses and control packets of pkg/qmi/qrtr_wire.go written and read back.
use quectel_qmi_go.Common.{◌≡◌, ◌++◌, Bytes, IsU32, u32_bytes, arith}
use quectel_qmi_go.Qrtr.Wire.{
  ok, SockaddrQrtr, marshal_sockaddr_qrtr, unmarshal_sockaddr_qrtr, QrtrCtrlPkt,
  marshal_qrtr_ctrl_pkt, unmarshal_qrtr_ctrl_pkt,
}

-- A socket address of 32-bit fields is read back, whatever follows.
pub unmarshal-marshal_sockaddr_qrtr :
    (a : SockaddrQrtr) (rest : Bytes)
    → IsU32 a.node
    → IsU32 a.port
    → unmarshal_sockaddr_qrtr (marshal_sockaddr_qrtr a ++ rest) ≡ ok a
unfolding unmarshal_sockaddr_qrtr marshal_sockaddr_qrtr
unmarshal-marshal_sockaddr_qrtr a rest hn hp =
    ground (arith, u32_bytes a.node hn, u32_bytes a.port hp)

-- The fields of a control packet have 32 bits.
pub record IsCtrlPkt (p : QrtrCtrlPkt) : Type 0 where
  pub cmd : IsU32 p.cmd
  pub service : IsU32 p.service
  pub instance_id : IsU32 p.instance_id
  pub node : IsU32 p.node
  pub port : IsU32 p.port

-- A control packet of 32-bit fields is read back, whatever follows.
pub unmarshal-marshal_qrtr_ctrl_pkt :
    (p : QrtrCtrlPkt) (rest : Bytes)
    → IsCtrlPkt p
    → unmarshal_qrtr_ctrl_pkt (marshal_qrtr_ctrl_pkt p ++ rest) ≡ ok p
unfolding unmarshal_qrtr_ctrl_pkt marshal_qrtr_ctrl_pkt
unmarshal-marshal_qrtr_ctrl_pkt p rest v = ground (
  arith,
  u32_bytes p.cmd v.cmd,
  u32_bytes p.service v.service,
  u32_bytes p.instance_id v.instance_id,
  u32_bytes p.node v.node,
  u32_bytes p.port v.port,
)
