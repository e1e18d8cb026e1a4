-- ===== src/Wire/Tlv/Reading.antt =====
-- What the TLV reader of pkg/qmi/frame.go makes of any run of bytes, well formed or not.
use quectel_qmi_go.Common.{
  ℕ, zero, suc, ◌+◌, ◌*◌, ◌≤◌, ◌<◌, ◌≡◌, refl, sym, ap, ◌∙◌, List, [], ◌∷◌, ◌++◌, append-nil,
  append_assoc, true, false, inl, inr, length, take, drop, replicate, All-drop, Bytes, AllBytes,
  IsByte, take-append-drop, length-drop, length-take, u16_split, Bool-cases, arith,
}
use quectel_qmi_go.Wire.Header.{FrameError, ok, err, Result-cases}
use quectel_qmi_go.Wire.Tlv.{
  Tlv, marshal_tlv, unmarshal_tlv, Parse, parsed, failed, stuck, is_padding, parse_tlvs_loop,
  parse_tlvs, marshal_tlvs,
}

-- What a successful read of one TLV took from the slice.
record Taken (bs : Bytes) (t : Tlv) (n : ℕ) : Type 0 where
  pub size : n ≡ 3 + length t.value
  pub bound : n ≤ length bs
  pub split : bs ≡ marshal_tlv t ++ drop n bs

-- A successful read has its header and as many bytes as the header says.
unmarshal_tlv-ok :
    (a b c : ℕ) (bs : Bytes) (t : Tlv) (n : ℕ)
    → unmarshal_tlv (a ∷ b ∷ c ∷ bs) ≡ ok (t, n)
    → (b + c * 256 ≤ length bs)
      × (t ≡ record { type = a; value = take (b + c * 256) bs })
      × (n ≡ 3 + (b + c * 256))
unfolding unmarshal_tlv
unmarshal_tlv-ok a b c bs t n e = ground arith

Taken-header :
    (a b c : ℕ) (bs : Bytes)
    → IsByte b
    → IsByte c
    → b + c * 256 ≤ length bs
    → Taken
        (a ∷ b ∷ c ∷ bs)
        (record { type = a; value = take (b + c * 256) bs })
        (3 + (b + c * 256))
unfolding marshal_tlv
Taken-header a b c bs hb hc h =
    let n : ℕ = b + c * 256 in
    let size : length (take n bs) ≡ n = length-take n bs h in
    let e : 3 + n ≡ suc (suc (suc n)) = omega arith in
    record {
      size = omega (arith, size);
      bound = omega arith;
      split = rw (e, size) (ground (arith, take-append-drop (b + c * 256) bs, u16_split b c));
    }

unmarshal_tlv-Taken :
    (bs : Bytes) (t : Tlv) (n : ℕ) → AllBytes bs → unmarshal_tlv bs ≡ ok (t, n) → Taken bs t n
unmarshal_tlv-Taken [] t n h e = unfold unmarshal_tlv in cc
unmarshal_tlv-Taken (a ∷ []) t n h e = unfold unmarshal_tlv in cc
unmarshal_tlv-Taken (a ∷ b ∷ []) t n h e = unfold unmarshal_tlv in cc
unmarshal_tlv-Taken (a ∷ b ∷ c ∷ bs) t n h e =
    let (fits, et, en) = unmarshal_tlv-ok a b c bs t n e in
    rw (et, en) (Taken-header a b c bs h.1.0 h.1.1.0 fits)

-- The reader's outcome against the bytes: everything read stands at the front of them, as it would
-- be written.
abbrev pub Explains : Bytes → Parse → Type 0
Explains bs (parsed ts) = (k : ℕ) × (k < 3) × (bs ≡ marshal_tlvs ts ++ replicate k 0)
Explains bs (failed ts e) =
    (rest : Bytes) × (bs ≡ marshal_tlvs ts ++ rest)
    × (is_padding rest ≡ false)
    × (unmarshal_tlv rest ≡ err e)
Explains bs stuck = ⊥

-- The same for the loop, which has already read `done`.
abbrev LoopExplains : List Tlv → Bytes → Parse → Type 0
LoopExplains acc bs (parsed out) = (ts : List Tlv) × (out ≡ acc ++ ts) × Explains bs (parsed ts)
LoopExplains acc bs (failed out e) = (ts : List Tlv) × (out ≡ acc ++ ts) × Explains bs (failed ts e)
LoopExplains acc bs stuck = ⊥

is_padding-zeros : (bs : Bytes) → is_padding bs ≡ true → (k : ℕ) × (k < 3) × (bs ≡ replicate k 0)
is_padding-zeros [] e = (0, omega arith, refl)
is_padding-zeros (a ∷ []) e = (1, omega arith, ground arith)
is_padding-zeros (a ∷ b ∷ []) e = (2, omega arith, ground arith)
is_padding-zeros (a ∷ b ∷ c ∷ bs) e = absurd (ground arith)

-- One more TLV in front of an explained rest.
LoopExplains-cons :
    (acc : List Tlv) (bs : Bytes) (t : Tlv) (n : ℕ) (r : Parse)
    → Taken bs t n
    → LoopExplains (acc ++ (t ∷ [])) (drop n bs) r
    → LoopExplains acc bs r
unfolding marshal_tlvs
LoopExplains-cons acc bs t n (parsed out) k (ts, eo, (pad, hpad, e)) = (
  t ∷ ts,
  eo ∙ append_assoc acc (t ∷ []) ts,
  (
    pad,
    hpad,
    k.split
        ∙ ap (◌++◌ (marshal_tlv t)) e
        ∙ sym (append_assoc (marshal_tlv t) (marshal_tlvs ts) (replicate pad 0)),
  ),
)
LoopExplains-cons acc bs t n (failed out x) k (ts, eo, (rest, e, more, refused)) = (
  t ∷ ts,
  eo ∙ append_assoc acc (t ∷ []) ts,
  (
    rest,
    k.split
        ∙ ap (◌++◌ (marshal_tlv t)) e
        ∙ sym (append_assoc (marshal_tlv t) (marshal_tlvs ts) rest),
    more,
    refused,
  ),
)
LoopExplains-cons acc bs t n stuck k h = h

module _ (fuel b : ℕ) (bs : Bytes) (acc : List Tlv) where
  loop_pads : is_padding (b ∷ bs) ≡ true → parse_tlvs_loop (suc fuel) (b ∷ bs) acc ≡ parsed acc
  unfolding parse_tlvs_loop
  loop_pads e = ground arith

  loop_fails :
      (x : FrameError)
      → is_padding (b ∷ bs) ≡ false
      → unmarshal_tlv (b ∷ bs) ≡ err x
      → parse_tlvs_loop (suc fuel) (b ∷ bs) acc ≡ failed acc x
  unfolding parse_tlvs_loop
  loop_fails x e u = ground arith

  loop_takes :
      (t : Tlv) (n : ℕ)
      → is_padding (b ∷ bs) ≡ false
      → unmarshal_tlv (b ∷ bs) ≡ ok (t, n)
      → parse_tlvs_loop (suc fuel) (b ∷ bs) acc
        ≡ parse_tlvs_loop fuel (drop n (b ∷ bs)) (acc ++ (t ∷ []))
  unfolding parse_tlvs_loop
  loop_takes t n e u = ground arith

parse_tlvs_loop-LoopExplains :
    (fuel : ℕ) (bs : Bytes) (acc : List Tlv)
    → AllBytes bs
    → length bs ≤ fuel
    → LoopExplains acc bs (parse_tlvs_loop fuel bs acc)
parse_tlvs_loop-LoopExplains fuel [] acc h hf =
    unfold parse_tlvs_loop marshal_tlvs in ([], sym (append-nil acc), (0, omega arith, refl))
parse_tlvs_loop-LoopExplains zero (b ∷ bs) acc h hf = absurd (omega arith)
parse_tlvs_loop-LoopExplains (suc fuel) (b ∷ bs) acc h hf =
    elim (Bool-cases (is_padding (b ∷ bs))) [
      | inl zeros ↦
          rw (loop_pads fuel b bs acc zeros)
            ([], sym (append-nil acc), unfold marshal_tlvs in is_padding-zeros (b ∷ bs) zeros)
      | inr more ↦ elim (Result-cases (unmarshal_tlv (b ∷ bs))) [
        | inl ((t, n), e) ↦
            let taken = unmarshal_tlv-Taken (b ∷ bs) t n h e in
            rw (loop_takes fuel b bs acc t n more e) (
              LoopExplains-cons acc (b ∷ bs) t n _ taken (
                parse_tlvs_loop-LoopExplains fuel (drop n (b ∷ bs)) (acc ++ (t ∷ []))
                  (All-drop IsByte n (b ∷ bs) h)
                  (omega (arith, length-drop n (b ∷ bs), taken.size))))
        | inr (x, e) ↦
            rw (loop_fails fuel b bs acc x more e)
              ([], sym (append-nil acc), (b ∷ bs, unfold marshal_tlvs in refl, more, e))
      ]
    ]

loop-Explains : (bs : Bytes) (r : Parse) → LoopExplains [] bs r → Explains bs r
loop-Explains bs (parsed out) (ts, e, h) = rw e h
loop-Explains bs (failed out x) (ts, e, h) = rw e h
loop-Explains bs stuck h = h

-- The reader ends on any bytes. If it succeeds, the bytes are the TLVs as they are written, in order,
-- with at most two zero bytes behind them. If it fails, they are the TLVs read so far as written,
-- and then a rest that is no padding and whose first TLV is refused with the reported error.
pub parse_tlvs-Explains : (bs : Bytes) → AllBytes bs → Explains bs (parse_tlvs bs)
unfolding parse_tlvs
parse_tlvs-Explains bs h =
    loop-Explains bs _ (parse_tlvs_loop-LoopExplains (length bs) bs [] h (omega arith))
