-- ===== src/Client/Stream/Splits.antt =====
-- The frames in a run of bytes as a relation, and the loop of readLoop as its decision.
use quectel_qmi_go.Common.{
  ℕ, zero, suc, ◌≤◌, ◌<◌, ◌≡◌, refl, ◌∙◌, List, [], ◌∷◌, ◌⊎◌, inl, inr, length, Bytes, some,
  length-drop, arith,
}
use quectel_qmi_go.Client.Stream.{
  skip_to_marker, Scan, break, continue, frame, frame_len, scan, split_loop, split,
}

pub data Splits : Bytes → List Bytes → Bytes → Type 0 where
  stops : {p r : Bytes} → scan p ≡ break r → Splits p [] r
  skips : {p q r : Bytes} {fs : List Bytes} → scan p ≡ continue q → Splits q fs r → Splits p fs r
  takes :
      {p q r : Bytes} {f : Bytes} {fs : List Bytes}
      → scan p ≡ frame f q
      → Splits q fs r
      → Splits p (f ∷ fs) r

pub length-skip_to_marker : (bs : Bytes) → length (skip_to_marker bs) ≤ length bs
unfolding skip_to_marker
length-skip_to_marker [] = omega arith
length-skip_to_marker (b ∷ bs) = ground (arith, length-skip_to_marker bs)

-- A pass that goes on leaves fewer bytes.
abbrev Shrinks : Bytes → Scan → Type 0
Shrinks p (break r) = Unit {0}
Shrinks p (continue q) = length q < length p
Shrinks p (frame f q) = length q < length p

scan-Shrinks : (p : Bytes) → Shrinks p (scan p)
unfolding scan skip_to_marker
scan-Shrinks [] = tt
scan-Shrinks (a ∷ []) = tt
scan-Shrinks (a ∷ b ∷ []) = tt
scan-Shrinks (a ∷ b ∷ c ∷ bs) = ground (
  arith,
  length-drop (frame_len (a ∷ b ∷ c ∷ bs)) (a ∷ b ∷ c ∷ bs),
  length-skip_to_marker (b ∷ c ∷ bs),
)

Scan-cases :
    (s : Scan)
    → ((r : Bytes) × (s ≡ break r))
      ⊎ ((q : Bytes) × (s ≡ continue q))
      ⊎ ((f : Bytes) × (q : Bytes) × (s ≡ frame f q))
Scan-cases (break r) = inl (r, refl)
Scan-cases (continue q) = inr (inl (q, refl))
Scan-cases (frame f q) = inr (inr (f, q, refl))

continue-shorter : (p q : Bytes) → scan p ≡ continue q → length q < length p
continue-shorter p q e = rw e at (scan-Shrinks p)

frame-shorter : (p f q : Bytes) → scan p ≡ frame f q → length q < length p
frame-shorter p f q e = rw e at (scan-Shrinks p)

module _ (fuel : ℕ) (p : Bytes) where
  loop_stops : (r : Bytes) → scan p ≡ break r → split_loop (suc fuel) p ≡ some ([], r)
  unfolding split_loop
  loop_stops r e = ground arith

  loop_skips : (q : Bytes) → scan p ≡ continue q → split_loop (suc fuel) p ≡ split_loop fuel q
  unfolding split_loop
  loop_skips q e = ground arith

  loop_takes :
      (f q r : Bytes) (fs : List Bytes)
      → scan p ≡ frame f q
      → split_loop fuel q ≡ some (fs, r)
      → split_loop (suc fuel) p ≡ some (f ∷ fs, r)
  unfolding split_loop
  loop_takes f q r fs e eq = ground arith

-- With more fuel than bytes the loop ends, at frames that the relation has.
split_loop-Splits :
    (fuel : ℕ) (p : Bytes)
    → length p < fuel
    → (fs : List Bytes) × (r : Bytes) × (split_loop fuel p ≡ some (fs, r)) × Splits p fs r
split_loop-Splits zero p h = absurd (omega arith)
split_loop-Splits (suc fuel) p h = elim (Scan-cases (scan p)) [
  | inl (r, e) ↦ ([], r, loop_stops fuel p r e, stops e)
  | inr (inl (q, e)) ↦
      let (fs, r, eq, s) = split_loop-Splits fuel q (omega (arith, continue-shorter p q e)) in
      (fs, r, loop_skips fuel p q e ∙ eq, skips e s)
  | inr (inr (f, q, e)) ↦
      let (fs, r, eq, s) = split_loop-Splits fuel q (omega (arith, frame-shorter p f q e)) in
      (f ∷ fs, r, loop_takes fuel p f q r fs e eq, takes e s)
]

pub split-Splits :
    (p : Bytes) → (fs : List Bytes) × (r : Bytes) × (split p ≡ some (fs, r)) × Splits p fs r
unfolding split
split-Splits p = split_loop-Splits (suc (length p)) p (omega arith)

-- The relation has one outcome for each run of bytes.
pub Splits-unique :
    {p r s : Bytes} {fs gs : List Bytes} → Splits p fs r → Splits p gs s → (fs ≡ gs) × (r ≡ s)
Splits-unique (stops e) (stops d) = ground arith
Splits-unique (stops e) (skips d t) = absurd (ground arith)
Splits-unique (stops e) (takes d t) = absurd (ground arith)
Splits-unique (skips e s) (stops d) = absurd (ground arith)
Splits-unique {r = r} {s = r'} {fs = fs} {gs = gs} (skips {q = q} e s) (skips {q = q'} d t) =
    let same : q' ≡ q = ground arith in Splits-unique s (rw same at t)
Splits-unique (skips e s) (takes d t) = absurd (ground arith)
Splits-unique (takes e s) (stops d) = absurd (ground arith)
Splits-unique (takes e s) (skips d t) = absurd (ground arith)
Splits-unique (takes {q = q} {f = f} e s) (takes {q = q'} {f = f'} d t) =
    let same : (q' ≡ q) × (f ≡ f') = ground arith in
    let ih = Splits-unique s (rw (same.0) at t) in (ground (arith, same, ih), ih.1)
