-- ===== src/Wire/Tlv.antt =====
-- pkg/qmi/frame.go: one TLV, the walk over a run of TLVs, and the search for a type.
pub mod RoundTrip
pub mod Reading
use quectel_qmi_go.Common.{
  ℕ, zero, suc, ◌+◌, ◌-◌, ◌%◌, List, [], ◌∷◌, ◌++◌, Bool, true, false, ◌&&◌, if◌then◌else◌, ltb,
  ◌==◌, length, get_or, take, drop, all, Option, none, some, Bytes, put_u16, put_u32, u16_at,
}
use quectel_qmi_go.Wire.Header.{FrameError, tlv_header_too_short, tlv_truncated, Result, ok, err}

pub record Tlv : Type 0 where
  pub type : ℕ
  pub value : Bytes

abbrev pub tlv_header_size : ℕ
tlv_header_size = 3

-- uint16(len(t.Value)) wraps; copy writes the whole value all the same.
unfoldable pub marshal_tlv : Tlv → Bytes
marshal_tlv t = t.type ∷ put_u16 (length t.value % 65536) t.value

-- The TLV at the front of the slice, and the number of bytes that it takes.
unfoldable pub unmarshal_tlv : Bytes → Result (Tlv × ℕ)
unmarshal_tlv bs =
    if ltb (length bs) tlv_header_size
    then err tlv_header_too_short
    else if ltb (length bs) (tlv_header_size + u16_at bs 1)
    then err (tlv_truncated (u16_at bs 1) (length bs - tlv_header_size))
    else ok (
      record { type = get_or bs 0 0; value = take (u16_at bs 1) (drop 3 bs) },
      tlv_header_size + u16_at bs 1,
    )

-- Go's ([]TLV, error): the error comes with the TLVs read so far. `stuck` is no Go value: the fuel
-- of the loop ran out.
pub data Parse : Type 0 where
  parsed : List Tlv → Parse
  failed : List Tlv → FrameError → Parse
  stuck : Parse

-- One to two zero bytes at the end are padding.
abbrev pub is_padding : Bytes → Bool
is_padding bs = ltb (length bs) tlv_header_size && all (λ b. b == 0x00) bs

-- The list is data[offset:], and `tlvs` what has been appended.
unfoldable pub parse_tlvs_loop : ℕ → Bytes → List Tlv → Parse
parse_tlvs_loop fuel [] tlvs = parsed tlvs
parse_tlvs_loop zero (b ∷ bs) tlvs = stuck
parse_tlvs_loop (suc fuel) (b ∷ bs) tlvs = elim (is_padding (b ∷ bs)) [
  | true ↦ parsed tlvs
  | false ↦ elim (unmarshal_tlv (b ∷ bs)) [
    | ok (tlv, consumed) ↦ parse_tlvs_loop fuel (drop consumed (b ∷ bs)) (tlvs ++ (tlv ∷ []))
    | err e ↦ failed tlvs e
  ]
]

-- Each round takes three bytes at least, so as many rounds as bytes are enough.
unfoldable pub parse_tlvs : Bytes → Parse
parse_tlvs bs = parse_tlvs_loop (length bs) bs []

unfoldable pub find_tlv : List Tlv → ℕ → Option Tlv
find_tlv [] tlv_type = none
find_tlv (t ∷ ts) tlv_type = if t.type == tlv_type then some t else find_tlv ts tlv_type

unfoldable pub marshal_tlvs : List Tlv → Bytes
marshal_tlvs [] = []
marshal_tlvs (t ∷ ts) = marshal_tlv t ++ marshal_tlvs ts

unfoldable pub new_tlv_uint8 : ℕ → ℕ → Tlv
new_tlv_uint8 t v = record { type = t; value = v ∷ [] }

unfoldable pub new_tlv_uint16 : ℕ → ℕ → Tlv
new_tlv_uint16 t v = record { type = t; value = put_u16 v [] }

unfoldable pub new_tlv_uint32 : ℕ → ℕ → Tlv
new_tlv_uint32 t v = record { type = t; value = put_u32 v [] }
