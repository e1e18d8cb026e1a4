-- ===== src/Qrtr.antt =====
-- The QRTR side of pkg/qmi: the socket and control formats of qrtr_wire.go, and the transport of
-- qrtr_transport_linux.go that plays the control service.
pub mod Wire
pub mod Transport
