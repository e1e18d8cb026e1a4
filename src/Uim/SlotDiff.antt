-- ===== src/Uim/SlotDiff.antt =====
-- pkg/qmi/uim_slot_diff.go: the comparison of two reports. Of a slot only the fields that this
-- library reads are kept. A string is the list of its bytes.
use quectel_qmi_go.Common.{
  ℕ, zero, suc, ◌+◌, ◌≤◌, ◌≡◌, ◌⊎◌, List, [], ◌∷◌, Bool, true, false, not, ◌&&◌, ◌||◌,
  if◌then◌else◌, ltb, ◌==◌, length, get_or, Option, none, some, Bytes, inl, inr, arith, ℕ_discrete,
}

pub record UimSlotStatusSlot : Type 0 where
  pub physical_card_status : ℕ
  pub physical_slot_status : ℕ
  pub logical_slot : ℕ
  pub iccid : Bytes
  pub is_euicc : Bool
  pub eid : Bytes

-- The zero value, which stands for a slot that a report does not have.
abbrev pub zero_slot : UimSlotStatusSlot
zero_slot = record {
  physical_card_status = 0;
  physical_slot_status = 0;
  logical_slot = 0;
  iccid = [];
  is_euicc = false;
  eid = [];
}

abbrev pub uim_slot_state_active : ℕ
uim_slot_state_active = 1

abbrev pub uim_physical_card_state_present : ℕ
uim_physical_card_state_present = 2

abbrev pub Report : Type 0
Report = List UimSlotStatusSlot

unfoldable pub same_bytes : Bytes → Bytes → Bool
same_bytes [] [] = true
same_bytes [] (y ∷ ys) = false
same_bytes (x ∷ xs) [] = false
same_bytes (x ∷ xs) (y ∷ ys) = x == y && same_bytes xs ys

unfoldable pub slot_status_equal : UimSlotStatusSlot → UimSlotStatusSlot → Bool
slot_status_equal a b =
    a.physical_card_status == b.physical_card_status
    && a.physical_slot_status == b.physical_slot_status
    && a.logical_slot == b.logical_slot
    && same_bytes a.iccid b.iccid

pub record SlotStatusDiff : Type 0 where
  pub active_slot_changed : Bool
  pub changed_slots : List ℕ

abbrev pub is_active : UimSlotStatusSlot → Bool
is_active s = s.physical_slot_status == uim_slot_state_active

abbrev pub max_len : Report → Report → ℕ
max_len old new = if ltb (length old) (length new) then length new else length old

-- The rounds from index i on, n of them.
unfoldable pub diff_loop : ℕ → ℕ → Report → Report → Bool → SlotStatusDiff
diff_loop zero i old new active_slot_only = record {
  active_slot_changed = false;
  changed_slots = [];
}
diff_loop (suc n) i old new active_slot_only =
    let rest = diff_loop n (suc i) old new active_slot_only in
    let was_active = is_active (get_or old i zero_slot) in
    let now_active = is_active (get_or new i zero_slot) in
    if not (slot_status_equal (get_or old i zero_slot) (get_or new i zero_slot))
    then record {
      active_slot_changed = (was_active || now_active) || rest.active_slot_changed;
      changed_slots =
          if not active_slot_only || (was_active || now_active)
          then i ∷ rest.changed_slots
          else rest.changed_slots;
    }
    else rest

unfoldable pub diff_slot_status : Report → Report → Bool → SlotStatusDiff
diff_slot_status old new active_slot_only = diff_loop (max_len old new) 0 old new active_slot_only

unfoldable pub find_active_slot : Report → Option UimSlotStatusSlot
find_active_slot [] = none
find_active_slot (s ∷ slots) = if is_active s then some s else find_active_slot slots

unfoldable pub active_slot_index_changed : Report → Report → Bool
active_slot_index_changed old new = elim (find_active_slot old) [
  | none ↦ elim (find_active_slot new) [ none ↦ false | some b ↦ true ]
  | some a ↦ elim (find_active_slot new) [
    | none ↦ true
    | some b ↦ not (a.logical_slot == b.logical_slot)
  ]
]

-- The loop that ICCIDChanged, CardPresenceChanged and EIDChanged share, over the field compared.
unfoldable pub any_differs :
    (UimSlotStatusSlot → UimSlotStatusSlot → Bool) → ℕ → ℕ → Report → Report → Bool
any_differs same zero i old new = false
any_differs same (suc n) i old new =
    let rest = any_differs same n (suc i) old new in
    if not (same (get_or old i zero_slot) (get_or new i zero_slot)) then true else rest

unfoldable pub iccid_changed : Report → Report → Bool
iccid_changed old new = any_differs (λ a b. same_bytes a.iccid b.iccid) (max_len old new) 0 old new

abbrev pub is_present : UimSlotStatusSlot → Bool
is_present s = s.physical_card_status == uim_physical_card_state_present

abbrev same_bool : Bool → Bool → Bool
same_bool true b = b
same_bool false b = not b

unfoldable pub card_presence_changed : Report → Report → Bool
card_presence_changed old new =
    any_differs (λ a b. same_bool (is_present a) (is_present b)) (max_len old new) 0 old new

unfoldable pub eid_changed : Report → Report → Bool
eid_changed old new = any_differs (λ a b. same_bytes a.eid b.eid) (max_len old new) 0 old new

abbrev pub listed : ℕ → List ℕ → Bool
listed k [] = false
listed k (x ∷ xs) = if x == k then true else listed k xs

module _ (old new : Report) where
  abbrev pub is_changed : Bool → ℕ → Bool
  is_changed active_slot_only k =
      not (slot_status_equal (get_or old k zero_slot) (get_or new k zero_slot))
      && (not active_slot_only
          || (is_active (get_or old k zero_slot) || is_active (get_or new k zero_slot)))

  loop_listed :
      (n i : ℕ) (only : Bool) (k : ℕ)
      → listed k (diff_loop n i old new only).changed_slots
        ≡ (not (ltb k i) && ltb k (i + n)) && is_changed only k
  unfolding diff_loop
  loop_listed zero i only k = ground arith
  loop_listed (suc n) i only k = elim (ℕ_discrete i k) [
    | yes e ↦ rw e (ground (arith, loop_listed n (suc k) only k))
    | no ne ↦ ground (arith, loop_listed n (suc i) only k)
  ]

  -- A slot is listed exactly if one of the reports has it, its status differs between them, and, where
  -- only active slots count, it is active in one of them.
  pub listed-diff_slot_status :
      (only : Bool) (k : ℕ)
      → listed k (diff_slot_status old new only).changed_slots
        ≡ ltb k (max_len old new) && is_changed only k
  unfolding diff_slot_status
  listed-diff_slot_status only k = ground (arith, loop_listed (max_len old new) 0 only k)

  loop_active :
      (n i : ℕ) (only : Bool)
      → (diff_loop n i old new only).active_slot_changed
        ≡ ltb 0 (length (diff_loop n i old new true).changed_slots)
  unfolding diff_loop
  loop_active zero i only = ground arith
  loop_active (suc n) i only = ground (arith, loop_active n (suc i) only)

  -- An active slot counts as changed exactly if the comparison of active slots alone lists a slot.
  pub active_slot_changed_iff :
      (only : Bool)
      → (diff_slot_status old new only).active_slot_changed
        ≡ ltb 0 (length (diff_slot_status old new true).changed_slots)
  unfolding diff_slot_status
  active_slot_changed_iff only = loop_active (max_len old new) 0 only

  differing_listed :
      (same : UimSlotStatusSlot → UimSlotStatusSlot → Bool)
      → ((a b : UimSlotStatusSlot) → slot_status_equal a b ≡ true → same a b ≡ true)
      → (n i : ℕ) → any_differs same n i old new ≡ true
      → 1 ≤ length (diff_loop n i old new false).changed_slots
  unfolding diff_loop any_differs
  differing_listed same h zero i e = absurd (ground arith)
  differing_listed same h (suc n) i e = ground (
    arith,
    e,
    h (get_or old i zero_slot) (get_or new i zero_slot),
    differing_listed same h n (suc i),
  )

  -- A change of an ICCID or of the presence of a card shows in the full list of changed slots.
  pub changes_listed :
      (iccid_changed old new ≡ true) ⊎ (card_presence_changed old new ≡ true)
      → 1 ≤ length (diff_slot_status old new false).changed_slots
  unfolding diff_slot_status iccid_changed card_presence_changed slot_status_equal
  changes_listed (inl e) =
      differing_listed (λ a b. same_bytes a.iccid b.iccid) (λ a b h. ground (arith, h))
        (max_len old new) 0 e
  changes_listed (inr e) =
      differing_listed (λ a b. same_bool (is_present a) (is_present b)) (λ a b h. ground (arith, h))
        (max_len old new) 0 e
