-- ===== src/Wire/Packet/Success.antt =====
-- The result code of a response in pkg/qmi/frame.go: when it counts as a success.
use quectel_qmi_go.Common.{◌≡◌, ◌↔◌, true, arith}
use quectel_qmi_go.Wire.Packet.{Packet, is_success, check_result, passed}

-- IsSuccess answers true for exactly the responses that CheckResult passes.
pub is_success_iff : (p : Packet) → (is_success p ≡ true) ↔ (check_result p ≡ passed)
unfolding is_success check_result
is_success_iff p = ground arith
