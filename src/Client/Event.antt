-- ===== src/Client/Event.antt =====
-- pkg/qmi/client.go: the kind of an indication, and the key under which indications of one kind
-- replace one another. The message identifiers are those of frame.go, nas.go, imsa.go, ims.go,
-- voice.go and uim.go.
use quectel_qmi_go.Common.{ℕ, ◌&&◌, ◌||◌, if◌then◌else◌, ◌==◌, Option, none, some, ℕ_discrete}
use quectel_qmi_go.Wire.Packet.{Packet, service_control}

pub data EventType : Type 0 where
  unknown packet_service_status_changed serving_system_changed : EventType
  nas_operator_name_changed nas_network_time_changed nas_signal_info_changed : EventType
  nas_network_reject nas_incremental_network_scan nas_cell_location_info_changed : EventType
  modem_reset new_message wms_smsc_address : EventType
  wms_transport_network_registration_status ims_registration_status ims_services_status : EventType
  ims_settings_changed voice_call_status voice_supplementary_service ussd : EventType
  voice_ussd_released voice_ussd_no_wait_result sim_status_changed uim_session_closed : EventType
  uim_refresh uim_slot_status nas_event_report voice_supplementary_service_request : EventType

pub record Event : Type 0 where
  pub type : EventType
  pub service_id : ℕ
  pub message_id : ℕ
  pub packet : Packet

abbrev pub ctl_revoke_client_id_ind : ℕ
ctl_revoke_client_id_ind = 0x0024

-- The cases of ServiceNAS.
unfoldable nas_event : ℕ → EventType
nas_event message =
    if message == 0x0024 || message == 0x004e
    then EventType.serving_system_changed
    else if message == 0x0002
    then EventType.nas_event_report
    else if message == 0x003a
    then EventType.nas_operator_name_changed
    else if message == 0x004c
    then EventType.nas_network_time_changed
    else if message == 0x0051
    then EventType.nas_signal_info_changed
    else if message == 0x0068
    then EventType.nas_network_reject
    else if message == 0x0085
    then EventType.nas_incremental_network_scan
    else if message == 0x0043
    then EventType.nas_cell_location_info_changed
    else EventType.unknown

-- The cases of ServiceWMS.
unfoldable wms_event : ℕ → EventType
wms_event message =
    if message == 0x0001
    then EventType.new_message
    else if message == 0x0046
    then EventType.wms_smsc_address
    else if message == 0x004b
    then EventType.wms_transport_network_registration_status
    else EventType.unknown

-- The cases of ServiceIMSA.
unfoldable imsa_event : ℕ → EventType
imsa_event message =
    if message == 0x0023
    then EventType.ims_registration_status
    else if message == 0x0024
    then EventType.ims_services_status
    else EventType.unknown

-- The cases of ServiceVOICE.
unfoldable voice_event : ℕ → EventType
voice_event message =
    if message == 0x002e
    then EventType.voice_call_status
    else if message == 0x0032
    then EventType.voice_supplementary_service
    else if message == 0x0042
    then EventType.voice_supplementary_service_request
    else if message == 0x003e
    then EventType.ussd
    else if message == 0x003d
    then EventType.voice_ussd_released
    else if message == 0x0043
    then EventType.voice_ussd_no_wait_result
    else EventType.unknown

-- The cases of ServiceUIM.
unfoldable uim_event : ℕ → EventType
uim_event message =
    if message == 0x0032
    then EventType.sim_status_changed
    else if message == 0x0043
    then EventType.uim_session_closed
    else if message == 0x0033
    then EventType.uim_refresh
    else if message == 0x0048
    then EventType.uim_slot_status
    else EventType.unknown

-- The switch of dispatchIndication, service by service and in its order.
unfoldable pub event_type : ℕ → ℕ → EventType
unfolding nas_event wms_event imsa_event voice_event uim_event
event_type service message =
    if service == service_control && message == ctl_revoke_client_id_ind
    then EventType.modem_reset
    else if (service == 0x01 || service == 0x1b) && message == 0x0022
    then EventType.packet_service_status_changed
    else if service == 0x03
    then nas_event message
    else if service == 0x05
    then wms_event message
    else if service == 0x21
    then imsa_event message
    else if service == 0x12 && message == 0x0091
    then EventType.ims_settings_changed
    else if service == 0x09
    then voice_event message
    else if service == 0x0b
    then uim_event message
    else EventType.unknown

unfoldable pub event_of : Packet → Event
event_of p = record {
  type = event_type p.service_type p.message_id;
  service_id = p.service_type;
  message_id = p.message_id;
  packet = p;
}

-- The prefix of the key that coalescingKey prints: one for each kind that is coalesced.
pub data KeyPrefix : Type 0 where
  packet_status serving_system nas_operator_name nas_network_time nas_signal_info : KeyPrefix
  nas_network_reject nas_incremental_scan nas_event_report wms_transport : KeyPrefix
  critical_modem_reset critical_uim_session_closed : KeyPrefix

-- The printed key "prefix:service:message" as its three parts, which it determines.
pub record CoalescingKey : Type 0 where
  pub prefix : KeyPrefix
  pub service_id : ℕ
  pub message_id : ℕ

unfoldable pub key_prefix : EventType → Option KeyPrefix
key_prefix EventType.packet_service_status_changed = some KeyPrefix.packet_status
key_prefix EventType.serving_system_changed = some KeyPrefix.serving_system
key_prefix EventType.nas_operator_name_changed = some KeyPrefix.nas_operator_name
key_prefix EventType.nas_network_time_changed = some KeyPrefix.nas_network_time
key_prefix EventType.nas_signal_info_changed = some KeyPrefix.nas_signal_info
key_prefix EventType.nas_network_reject = some KeyPrefix.nas_network_reject
key_prefix EventType.nas_incremental_network_scan = some KeyPrefix.nas_incremental_scan
key_prefix EventType.nas_event_report = some KeyPrefix.nas_event_report
key_prefix EventType.wms_transport_network_registration_status = some KeyPrefix.wms_transport
key_prefix EventType.modem_reset = some KeyPrefix.critical_modem_reset
key_prefix EventType.uim_session_closed = some KeyPrefix.critical_uim_session_closed
key_prefix _ = none

-- `none` where coalescingKey answers ok = false.
unfoldable pub coalescing_key : Event → Option CoalescingKey
unfolding key_prefix
coalescing_key e = elim (key_prefix e.type) [
  | none ↦ none
  | some p ↦ some (record { prefix = p; service_id = e.service_id; message_id = e.message_id })
]

KeyPrefix-discrete : Discrete KeyPrefix
KeyPrefix-discrete = hlevel

unfoldable pub CoalescingKey-discrete : Discrete CoalescingKey
unfolding KeyPrefix-discrete
CoalescingKey-discrete = hlevel ℕ_discrete
