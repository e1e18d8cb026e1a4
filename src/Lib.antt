-- ===== src/Lib.antt =====
-- A verification library for quectel-qmi-go, a QMI protocol library and connection manager in Go.
--
-- The program talks QMI to a modem. pkg/qmi holds the wire format (frame.go), the client that owns
-- the byte stream, matches responses to requests and queues indications (client.go), a transport over
-- QRTR sockets (qrtr_wire.go, qrtr_transport_linux.go), and a wrapper for each service. pkg/manager
-- builds connection management on it; one of its parts, the card access gate, keeps card operations
-- out of the way of a data connection that comes up.
--
-- The parts and their files, with the Go names in lower case and underscores:
--
--   Common      lists and maps over native numbers, little-endian bytes, Boolean tests
--   Wire        pkg/qmi/frame.go: Header (frame and message headers), Tlv (TLV, ParseTLVs, FindTLV),
--               Packet (Packet.Marshal, UnmarshalPacket, the result code), Ctl (the service
--               identifier in TLV 0x01 of the control service)
--   Client      pkg/qmi/client.go: Stream (the search for frames in readLoop), Ids (transaction
--               identifiers), Recent (requests that ended by their context), Event (the kinds of
--               indications and their coalescing keys), Coalesced (storeCoalescedEvent,
--               popCoalescedEvent), Indications (enqueueIndication, indicationLoop), Read (what
--               readLoop does with a frame, begin and end of SendRequest), Allocation
--               (AllocateClientIDWithContext, ReleaseClientIDWithContext)
--   Gate        pkg/manager/card_access_gate.go: each critical section, and in System its users as
--               a step relation; of the notify channel the number of its closings is kept
--   Qrtr        pkg/qmi/qrtr_wire.go in Wire, pkg/qmi/qrtr_transport_linux.go in Transport: the state,
--               the control reader and the lookups; Transport/Replies (the frames made up for the
--               reader) and Transport/Control (Read, Write, the control service, the data path)
--   Recovery    pkg/manager/service_recovery.go, uim_recovery.go, service_recovery_storm.go: Errors
--               (shouldRecoverServiceError), Timeouts (recordServiceTimeoutFailure), Storm
--               (detectTimeoutStorm), Services (ensure…Service, rebind…Service), Retry
--               (with…RecoveryValue, triggerCoreRecoveryFromService), whose resets go to Connection;
--               Retry/Instances names the functions of each service
--   Pool        pkg/manager/pool.go: the pool and its scan; Selectors
--   Uim         pkg/qmi/uim_slot_diff.go: SlotDiff; pkg/manager/uim_readiness.go: Readiness
--   Connection  pkg/manager/manager.go: the state of the connection manager, its queue and timers; Resets
--               (enqueueModemResetEvent), Dial (doConnect, handleDialFailure, doDisconnect), Status
--               (doStatusCheck), Recover (cleanup, doRecoverFromModemReset, its backoff), Control (Start,
--               Stop, Connect, Disconnect, ResetExistingDataConnection, eventLoop, handleEvent),
--               Reconfigure (pkg/manager/data_config.go)
--   DataPlane   pkg/manager/data_plane.go: ConvergeDataPlane
--   Examples    runs at concrete inputs
--
-- State is passed explicitly: a record for the state, a function for each operation or critical
-- section. Goroutines are interleavings of those sections: an inductive relation for the gate and for
-- the queue of indications. A byte slice is a list of numbers; a statement says where it needs them
-- below 256. Fixed-width arithmetic is written with its modulus. A Go map is an association list with
-- one entry for each key; its iteration order is that of the list, but in
-- Get of the pool, where the orders are arguments. Errors are values of a data type
-- with the numbers of the Go messages.
--
-- Fuel: ParseTLVs gets as many rounds as bytes, since each takes three bytes at least; the search for
-- frames gets one more round than bytes, since each round that goes on takes one; skipCanceledLocked
-- gets one more round than canceled tickets, since each takes one out. That this is enough is proved
-- for each. The allocation of a client identifier has the three tries of the code.
--
-- What the modem and the host answer to a handler of the manager is an argument, a record with a field
-- for each answer (DialWorld, StatusWorld, RecoverWorld, OpenWorld, ReconfigureWorld, PlaneWorld,
-- AllocWorld). A call of a user, a round of the event loop and the function of a timer are each one
-- step; what two of them do at the same time inside each other is not modelled, but for the services,
-- where what goes on between two critical sections is a function of the fields that they share.
-- doConnect's queries of the signal and the registration may rebind a service and report a modem reset:
-- that is a step of its own, and no part of a dial. A wait for an announcement over QRTR sees all that
-- was handled until it has the lock again. Durations and times are nanoseconds of one clock.
--
-- The parts meet in a few places: a service that keeps failing and a storm of timeouts queue a modem
-- reset in Connection, a convergence of the data plane and a new data configuration disconnect and dial
-- there, and the pool asks for the state of a connection.
--
-- Not modelled: system calls, logging, timers as such (their outcomes are arguments or steps), the
-- texts of errors, the registry of service handlers that dispatchIndication also calls, the wrappers of
-- the services, RotateIP, SMS, the snapshot and the device queries of the manager, its further
-- connections, the configuration of the host's network and the command line tools. They are calls of the
-- kernel or of the modem around little logic, or parts that are still to come.
pub mod Common
pub mod Wire
pub mod Client
pub mod Gate
pub mod Connection
pub mod DataPlane
pub mod Pool
pub mod Qrtr
pub mod Recovery
pub mod Uim
mod Examples
