-- ===== src/Uim/Readiness.antt =====
-- pkg/manager/uim_readiness.go: the readiness of the SIM card, from what the modem reports of it. An
-- error shows as whether isUIMReadinessTransportFatal, which searches its text, holds of it.
use quectel_qmi_go.Common.{
  ℕ, suc, ◌+◌, ◌%◌, ◌≡◌, [], ◌∷◌, Bool, true, false, not, ◌&&◌, ◌||◌, if◌then◌else◌, ◌==◌, Option,
  none, some, Bytes, arith,
}
use quectel_qmi_go.Uim.SlotDiff.{
  UimSlotStatusSlot, uim_slot_state_active, uim_physical_card_state_present, Report,
}

pub data UimReadinessReason : Type 0 where
  ready transport_fatal control_unavailable card_absent : UimReadinessReason
  card_resetting sim_blocked identity_empty needs_provisioning : UimReadinessReason

-- The part of CardStatusDetails that is read.
pub record CardStatusDetails : Type 0 where
  pub card_state : ℕ
  pub app_state : ℕ

-- Trimmed.
pub record DeviceIdentities : Type 0 where
  pub iccid : Bytes
  pub imsi : Bytes

pub record UimReadiness : Type 0 where
  pub transport_ready : Bool
  pub control_ready : Bool
  pub uim_ready : Bool
  pub card_present : Bool
  pub sim_status : ℕ
  pub active_slot : ℕ
  pub slot_known : Bool
  pub active_physical_slot : ℕ
  pub physical_slot_known : Bool
  pub app_state : ℕ
  pub provisioning_active : Bool
  pub provisioning_needed : Bool
  pub reason : UimReadinessReason
  pub active_slot_is_euicc : Bool

-- A card is there, and the slot is active.
abbrev pub is_used : UimSlotStatusSlot → Bool
is_used s =
    s.physical_card_status == uim_physical_card_state_present
    && s.physical_slot_status == uim_slot_state_active

-- Its position and the first such slot.
unfoldable pub used_slot : ℕ → Report → Option (ℕ × UimSlotStatusSlot)
used_slot idx [] = none
used_slot idx (s ∷ ss) =
    let rest = used_slot (suc idx) ss in if is_used s then some (idx, s) else rest

-- The three functions with the same loop; a nil report is an empty one.
unfoldable pub resolve_active_uim_slot : Report → ℕ × Bool
resolve_active_uim_slot r = elim (used_slot 0 r) [
  | none ↦ (0, false)
  | some found ↦
      if not (found.1.logical_slot == 0)
      then (found.1.logical_slot, true)
      else ((found.0 + 1) % 256, true)
]

unfoldable pub resolve_active_uim_physical_slot : Report → ℕ × Bool
resolve_active_uim_physical_slot r = elim (used_slot 0 r) [
  | none ↦ (0, false)
  | some found ↦ ((found.0 + 1) % 256, true)
]

unfoldable pub resolve_active_uim_slot_euicc : Report → Bool
resolve_active_uim_slot_euicc r = elim (used_slot 0 r) [
  | none ↦ false
  | some found ↦ found.1.is_euicc
]

abbrev pub is_fatal : Option Bool → Bool
is_fatal none = false
is_fatal (some fatal) = fatal

-- Blocked, or a PIN, a PUK or an unlock is wanted.
abbrev pub is_locked : ℕ → Bool
is_locked status = (status == 5 || status == 3) || (status == 4 || status == 6)

-- The presence by the status, corrected by the card state.
abbrev pub is_present : ℕ → Option CardStatusDetails → Bool
is_present status none = not (status == 0)
is_present status (some d) =
    if d.card_state == 0
    then false
    else if d.card_state == 1 || d.card_state == 2
    then true
    else not (status == 0)

abbrev pub app_state_of : Option CardStatusDetails → ℕ
app_state_of none = 0
app_state_of (some d) = d.app_state

abbrev pub is_empty : Bytes → Bool
is_empty [] = true
is_empty (b ∷ bs) = false

-- Behind the errors.
unfoldable pub judge_card :
    ℕ → Option CardStatusDetails → DeviceIdentities → UimReadiness → UimReadiness
judge_card status details ids out =
    if not out.card_present
    then record out { reason = card_absent }
    else if is_locked status
    then record out { reason = sim_blocked }
    else if app_state_of details == 1
    then record out { provisioning_needed = true; reason = needs_provisioning }
    else if not (status == 2)
    then record out { reason = card_resetting }
    else if is_empty ids.iccid && is_empty ids.imsi
    then record out { uim_ready = true; reason = identity_empty }
    else record out { uim_ready = true; reason = ready }

abbrev pub fatal : UimReadiness → UimReadiness
fatal out = record out { transport_ready = false; control_ready = false; reason = transport_fatal }

unfoldable pub build_uim_readiness_with_slot_error :
    ℕ
    → Option CardStatusDetails
    → Report
    → DeviceIdentities
    → Option Bool
    → Option Bool
    → UimReadiness
unfolding judge_card
build_uim_readiness_with_slot_error status details report ids card_err slot_err =
    let slot = resolve_active_uim_slot report in
    let physical = resolve_active_uim_physical_slot report in
    let out : UimReadiness = record {
      transport_ready = true;
      control_ready = true;
      uim_ready = false;
      card_present = false;
      sim_status = status;
      active_slot = slot.0;
      slot_known = slot.1;
      active_physical_slot = physical.0;
      physical_slot_known = physical.1;
      app_state = 0;
      provisioning_active = false;
      provisioning_needed = false;
      reason = ready;
      active_slot_is_euicc = resolve_active_uim_slot_euicc report;
    } in
    elim card_err [
      | some f ↦
          if f
          then fatal out
          else record out { control_ready = false; reason = control_unavailable }
      | none ↦
          if is_fatal slot_err
          then fatal out
          else judge_card status details ids (record out {
            card_present = is_present status details;
            app_state = app_state_of details;
            provisioning_active = app_state_of details == 7;
          })
    ]

abbrev pub reason_number : UimReadinessReason → ℕ
reason_number ready = 0
reason_number transport_fatal = 1
reason_number control_unavailable = 2
reason_number card_absent = 3
reason_number card_resetting = 4
reason_number sim_blocked = 5
reason_number identity_empty = 6
reason_number needs_provisioning = 7

abbrev pub is_some_error : Option Bool → Bool
is_some_error none = false
is_some_error (some f) = true

-- The card is ready exactly if neither read of the card failed, nor that of the slots fatally, a card
-- is there that is neither locked nor waits for provisioning, and its status says so. Each flag then
-- agrees with the reason that is given.
pub readiness_explained :
    (status : ℕ) (details : Option CardStatusDetails) (report : Report) (ids : DeviceIdentities)
    (card_err slot_err : Option Bool)
    → let r = build_uim_readiness_with_slot_error status details report ids card_err slot_err in
      let n = reason_number r.reason in
      (r.uim_ready ≡ (
        (not (is_some_error card_err) && not (is_fatal slot_err))
        && (is_present status details && (not (app_state_of details == 1) && status == 2))))
      × ((r.uim_ready ≡ (n == 0 || n == 6))
          × ((r.provisioning_needed ≡ (n == 7))
              × ((r.transport_ready ≡ not (n == 1)) × (r.control_ready ≡ not (n == 1 || n == 2)))))
unfolding build_uim_readiness_with_slot_error judge_card
readiness_explained status details report ids (some true) slot_err = ground arith
readiness_explained status details report ids (some false) slot_err = ground arith
readiness_explained status details report ids none slot_err = ground arith
