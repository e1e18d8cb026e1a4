-- ===== src/Wire/Tlv/RoundTrip.antt =====
-- TLVs of pkg/qmi/frame.go written and read back.
use quectel_qmi_go.Common.{
  ℕ, zero, suc, ◌+◌, ◌≤◌, ◌<◌, ◌≡◌, refl, ap, ◌∙◌, List, [], ◌∷◌, ◌++◌, append-nil, append_assoc,
  length, drop, replicate, All, Bytes, take-length_append, drop-length_append, length-append,
  length-replicate, u16_bytes, arith,
}
use quectel_qmi_go.Wire.Header.{ok}
use quectel_qmi_go.Wire.Tlv.{
  Tlv, marshal_tlv, unmarshal_tlv, parsed, parse_tlvs_loop, parse_tlvs, marshal_tlvs,
}

-- A value that the 16-bit length can count.
abbrev pub Fits : Tlv → Type 0
Fits t = length t.value < 65536

pub length-marshal_tlv : (t : Tlv) → length (marshal_tlv t) ≡ 3 + length t.value
unfolding marshal_tlv
length-marshal_tlv t = omega arith

-- A TLV whose value fits is read back, with its size, whatever follows.
pub unmarshal_tlv-marshal_tlv :
    (t : Tlv) (rest : Bytes)
    → Fits t
    → unmarshal_tlv (marshal_tlv t ++ rest) ≡ ok (t, 3 + length t.value)
unfolding unmarshal_tlv marshal_tlv
unmarshal_tlv-marshal_tlv t rest h = ground (
  arith,
  length-append t.value rest,
  take-length_append t.value rest,
  u16_bytes (length t.value) h,
)

drop-marshal_tlv :
    (t : Tlv) (rest : Bytes) → drop (3 + length t.value) (marshal_tlv t ++ rest) ≡ rest
unfolding marshal_tlv
drop-marshal_tlv t rest =
    let e : 3 + length t.value ≡ suc (suc (suc (length t.value))) = omega arith in
    rw e (drop-length_append t.value rest)

parse_step :
    (fuel : ℕ) (t : Tlv) (rest : Bytes) (acc : List Tlv)
    → Fits t
    → parse_tlvs_loop (suc fuel) (marshal_tlv t ++ rest) acc
      ≡ parse_tlvs_loop fuel rest (acc ++ (t ∷ []))
unfolding parse_tlvs_loop marshal_tlv
parse_step fuel t rest acc h =
    ground (
      arith,
      unmarshal_tlv-marshal_tlv t rest h,
      drop-marshal_tlv t rest,
      length-append t.value rest,
    )

-- At most two zero bytes.
pub parse_padding :
    (k fuel : ℕ) (acc : List Tlv)
    → k < 3
    → k ≤ fuel
    → parse_tlvs_loop fuel (replicate k 0) acc ≡ parsed acc
unfolding parse_tlvs_loop
parse_padding zero fuel acc h hf = refl
parse_padding (suc zero) zero acc h hf = absurd (omega arith)
parse_padding (suc zero) (suc fuel) acc h hf = refl
parse_padding (suc (suc zero)) zero acc h hf = absurd (omega arith)
parse_padding (suc (suc zero)) (suc fuel) acc h hf = refl
parse_padding (suc (suc (suc k))) fuel acc h hf = absurd (omega arith)

marshal_tlvs-cons :
    (t : Tlv) (ts : List Tlv) (rest : Bytes)
    → marshal_tlvs (t ∷ ts) ++ rest ≡ marshal_tlv t ++ (marshal_tlvs ts ++ rest)
unfolding marshal_tlvs
marshal_tlvs-cons t ts rest = append_assoc (marshal_tlv t) (marshal_tlvs ts) rest

pub length-marshal_tlv_append :
    (t : Tlv) (rest : Bytes) → length (marshal_tlv t ++ rest) ≡ 3 + length t.value + length rest
length-marshal_tlv_append t rest =
    omega (arith, length-append (marshal_tlv t) rest, length-marshal_tlv t)

-- The whole run fits into the fuel; padding of one or two zero bytes ends it.
parse_tlvs_loop-marshal_tlvs :
    (ts : List Tlv) (k fuel : ℕ) (acc : List Tlv)
    → All Fits ts
    → k < 3
    → length (marshal_tlvs ts ++ replicate k 0) ≤ fuel
    → parse_tlvs_loop fuel (marshal_tlvs ts ++ replicate k 0) acc ≡ parsed (acc ++ ts)
parse_tlvs_loop-marshal_tlvs [] k fuel acc h hk hf = rw append-nil (
    unfold marshal_tlvs in
    parse_padding k fuel acc hk (omega (arith, length-replicate {A = ℕ} k 0)))
parse_tlvs_loop-marshal_tlvs (t ∷ ts) k zero acc h hk hf = absurd (
    omega (
      arith,
      ap length (marshal_tlvs-cons t ts (replicate k 0)),
      length-marshal_tlv_append t (marshal_tlvs ts ++ replicate k 0),
    ))
parse_tlvs_loop-marshal_tlvs (t ∷ ts) k (suc fuel) acc h hk hf =
    rw (marshal_tlvs-cons t ts (replicate k 0)) (
      parse_step fuel t (marshal_tlvs ts ++ replicate k 0) acc h.0
      ∙ parse_tlvs_loop-marshal_tlvs ts k fuel (acc ++ (t ∷ [])) h.1 hk (
          omega (
            arith,
            ap length (marshal_tlvs-cons t ts (replicate k 0)),
            length-marshal_tlv_append t (marshal_tlvs ts ++ replicate k 0),
          ))
      ∙ ap parsed (append_assoc acc (t ∷ []) ts))

-- A run of TLVs whose values fit is read back in order, also with one or two zero bytes behind it.
pub parse_tlvs-marshal_tlvs :
    (ts : List Tlv) (k : ℕ)
    → All Fits ts
    → k < 3
    → parse_tlvs (marshal_tlvs ts ++ replicate k 0) ≡ parsed ts
unfolding parse_tlvs
parse_tlvs-marshal_tlvs ts k h hk = parse_tlvs_loop-marshal_tlvs ts k _ [] h hk (omega arith)
