-- ===== src/Wire.antt =====
-- The wire format of pkg/qmi/frame.go: frame headers, message headers, TLVs, whole packets and the
-- service-identifier TLV of the control service.
pub mod Header
pub mod Tlv
pub mod Packet
pub mod Ctl
