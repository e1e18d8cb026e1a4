-- ===== src/Client.antt =====
-- The QMI client of pkg/qmi/client.go: the search for frames in the stream, transactions, and the
-- queue of indications.
pub mod Stream
pub mod Ids
pub mod Recent
pub mod Event
pub mod Coalesced
pub mod Indications
pub mod Read
pub mod Allocation
