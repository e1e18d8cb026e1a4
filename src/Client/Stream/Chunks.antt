-- ===== src/Client/Stream/Chunks.antt =====
-- How the transport cuts the stream does not matter: the frames of readLoop in pkg/qmi/client.go are
-- those of all bytes together.
use quectel_qmi_go.Common.{
  ℕ, ◌≤◌, ◌<◌, ◌≡◌, refl, sym, ap, ◌∙◌, List, [], ◌∷◌, ◌++◌, append-nil, append_assoc, true, false,
  ◌⊎◌, inl, inr, length, get_or, Bytes, some, take-append_le, drop-append_le, length-append,
  Bool-cases, arith,
}
use quectel_qmi_go.Client.Stream.{
  is_marker, skip_to_marker, break, continue, frame, frame_len, scan, split, read_chunks,
}
use quectel_qmi_go.Client.Stream.Splits.{
  Splits, stops, skips, takes, Splits-unique, split-Splits, length-skip_to_marker,
}
use native.Mathlib.Decide.{dec_lt}

skip_to_marker-append :
    (xs ys : Bytes) (b : ℕ) (r : Bytes)
    → skip_to_marker xs ≡ b ∷ r
    → skip_to_marker (xs ++ ys) ≡ b ∷ (r ++ ys)
unfolding skip_to_marker
skip_to_marker-append [] ys b r e = cc
skip_to_marker-append (x ∷ xs) ys b r e = ground (arith, skip_to_marker-append xs ys b r)

skip_to_marker-append_none :
    (xs ys : Bytes) → skip_to_marker xs ≡ [] → skip_to_marker (xs ++ ys) ≡ skip_to_marker ys
unfolding skip_to_marker
skip_to_marker-append_none [] ys e = refl
skip_to_marker-append_none (x ∷ xs) ys e = ground (arith, skip_to_marker-append_none xs ys)

List-cases {ℓ} : {A : Type ℓ} (xs : List A) → (xs ≡ []) ⊎ ((x : A) × (r : List A) × (xs ≡ x ∷ r))
List-cases [] = inl refl
List-cases (x ∷ r) = inr (x, r, refl)

-- A pass that goes on is not changed by bytes that come later.
scan-append_continue :
    (p q more : Bytes) → scan p ≡ continue q → scan (p ++ more) ≡ continue (q ++ more)
unfolding scan
scan-append_continue [] q more e = cc
scan-append_continue (a ∷ []) q more e = cc
scan-append_continue (a ∷ b ∷ []) q more e = cc
scan-append_continue (a ∷ b ∷ c ∷ bs) q more e =
    elim (List-cases (skip_to_marker (a ∷ b ∷ c ∷ bs))) [
      | inl none_left ↦ ground (arith, length-append bs more)
      | inr (x, r, found) ↦
          ground
            (arith, length-append bs more, skip_to_marker-append (a ∷ b ∷ c ∷ bs) more x r found)
    ]

scan-append_frame :
    (p f q more : Bytes) → scan p ≡ frame f q → scan (p ++ more) ≡ frame f (q ++ more)
unfolding scan
scan-append_frame [] f q more e = cc
scan-append_frame (a ∷ []) f q more e = cc
scan-append_frame (a ∷ b ∷ []) f q more e = cc
scan-append_frame (a ∷ b ∷ c ∷ bs) f q more e = ground (
  arith,
  length-append bs more,
  take-append_le (frame_len (a ∷ b ∷ c ∷ bs)) (a ∷ b ∷ c ∷ bs) more,
  drop-append_le (frame_len (a ∷ b ∷ c ∷ bs)) (a ∷ b ∷ c ∷ bs) more,
)

-- A pass that stops keeps the bytes, or has thrown away a run with no marker.
scan-break :
    (p r : Bytes)
    → scan p ≡ break r
    → (r ≡ p)
      ⊎ ((r ≡ []) × (skip_to_marker p ≡ []) × (is_marker (get_or p 0 0) ≡ false) × (3 ≤ length p))
unfolding scan
scan-break [] r e = inl (ground arith)
scan-break (a ∷ []) r e = inl (ground arith)
scan-break (a ∷ b ∷ []) r e = inl (ground arith)
scan-break (a ∷ b ∷ c ∷ bs) r e = elim (List-cases (skip_to_marker (a ∷ b ∷ c ∷ bs))) [
  | inl none_left ↦ ground (arith)
  | inr (x, y, found) ↦ inl (ground (arith))
]

short-break : (p : Bytes) → length p < 3 → scan p ≡ break p
unfolding scan
short-break p h = ground arith

short-Splits : (p r : Bytes) (fs : List Bytes) → length p < 3 → Splits p fs r → fs ≡ []
short-Splits p r fs h s = (Splits-unique s (stops (short-break p h))).0

marker_kept : (p : Bytes) → is_marker (get_or p 0 0) ≡ true → skip_to_marker p ≡ p
unfolding skip_to_marker
marker_kept [] h = refl
marker_kept (a ∷ bs) h = ground arith

module _ (p : Bytes) (long : 3 ≤ length p) (garbage : is_marker (get_or p 0 0) ≡ false) where
  garbage-break : skip_to_marker p ≡ [] → scan p ≡ break []
  unfolding scan
  garbage-break e = ground arith

  garbage-continue : (x : ℕ) (r : Bytes) → skip_to_marker p ≡ x ∷ r → scan p ≡ continue (x ∷ r)
  unfolding scan
  garbage-continue x r e = ground arith

-- A run of bytes without those before its first marker.
data Skipped (p : Bytes) : Type 0 where
  whole : skip_to_marker p ≡ p → Skipped p
  short : length p < 3 → length (skip_to_marker p) < 3 → Skipped p
  dropped : scan p ≡ break [] → skip_to_marker p ≡ [] → Skipped p
  found : scan p ≡ continue (skip_to_marker p) → Skipped p

Skipped-all : (p : Bytes) → Skipped p
Skipped-all p = elim (Bool-cases (is_marker (get_or p 0 0))) [
  | inl marker ↦ whole (marker_kept p marker)
  | inr garbage ↦ elim (dec_lt (length p) 3) [
    | yes h ↦ short h (omega (arith, length-skip_to_marker p))
    | no h ↦
        let long : 3 ≤ length p = omega arith in
        elim (List-cases (skip_to_marker p)) [
          | inl nothing ↦ dropped (garbage-break p long garbage nothing) nothing
          | inr (x, r, e) ↦ found (garbage-continue p long garbage x r e ∙ ap continue (sym e))
        ]
  ]
]

Splits-continue :
    {p q r : Bytes} {fs : List Bytes} → scan p ≡ continue q → Splits p fs r → Splits q fs r
Splits-continue e (stops d) = absurd (ground arith)
Splits-continue {q = q} e (skips {q = q'} d t) = let same : q' ≡ q = ground arith in rw same at t
Splits-continue e (takes d t) = absurd (ground arith)

-- Bytes before the first marker find no frame and hide none.
Splits-skip :
    (p r : Bytes) (fs : List Bytes) → Splits p fs r → (s : Bytes) × Splits (skip_to_marker p) fs s
Splits-skip p r fs h = elim (Skipped-all p) [
  | whole e ↦ (r, rw e h)
  | short a b ↦ (skip_to_marker p, rw (short-Splits p r fs a h) (stops (short-break _ b)))
  | dropped e n ↦ ([], rw ((Splits-unique h (stops e)).0, n) (stops (short-break [] (omega arith))))
  | found e ↦ (r, Splits-continue e h)
]

Splits-unskip :
    (p r : Bytes) (fs : List Bytes) → Splits (skip_to_marker p) fs r → (s : Bytes) × Splits p fs s
Splits-unskip p r fs h = elim (Skipped-all p) [
  | whole e ↦ (r, rw e at h)
  | short a b ↦ (p, rw (short-Splits _ r fs b h) (stops (short-break p a)))
  | dropped e n ↦ ([], rw (short-Splits [] r fs (omega arith) (rw n at h)) (stops e))
  | found e ↦ (r, skips e h)
]

-- Bytes with no marker in front of a stream change none of its frames.
pub Splits-garbage :
    (garbage p r : Bytes) (fs : List Bytes)
    → skip_to_marker garbage ≡ []
    → Splits p fs r
    → (s : Bytes) × Splits (garbage ++ p) fs s
Splits-garbage garbage p r fs nothing h =
    let (t, w) = Splits-skip p r fs h in
    Splits-unskip (garbage ++ p) t fs (rw (skip_to_marker-append_none garbage p nothing) w)

-- Splitting goes on where it stopped: the frames of `p ++ more` are those of `p`, and then those of
-- what `p` left with `more` behind it.
Splits-append :
    {p r : Bytes} {fs : List Bytes} (more : Bytes) (gs : List Bytes) (s : Bytes)
    → Splits p fs r
    → Splits (r ++ more) gs s
    → (t : Bytes) × Splits (p ++ more) (fs ++ gs) t
Splits-append {p = p} {r = r} more gs s (stops e) h = elim (scan-break p r e) [
  | inl same ↦ (s, rw same at h)
  | inr (empty, nothing, _, _) ↦ Splits-garbage p more s gs nothing (rw empty at h)
]
Splits-append {p = p} more gs s (skips {q = q} e h) k =
    let (t, w) = Splits-append more gs s h k in (t, skips (scan-append_continue p q more e) w)
Splits-append {p = p} more gs s (takes {q = q} {f = f} e h) k =
    let (t, w) = Splits-append more gs s h k in (t, takes (scan-append_frame p f q more e) w)

read_step :
    (pending chunk : Bytes) (chunks fs gs : List Bytes) (rest left : Bytes)
    → split (pending ++ chunk) ≡ some (fs, rest)
    → read_chunks rest chunks ≡ some (gs, left)
    → read_chunks pending (chunk ∷ chunks) ≡ some (fs ++ gs, left)
unfolding read_chunks
read_step pending chunk chunks fs gs rest left e d = ground arith

-- What is left over holds no frame.
left-break : {p r : Bytes} {fs : List Bytes} → Splits p fs r → scan r ≡ break r
left-break {p = p} {r = r} (stops e) = elim (scan-break p r e) [
  | inl same ↦ rw same (rw same at e)
  | inr (empty, _, _, _) ↦ rw empty (short-break [] (omega arith))
]
left-break (skips e h) = left-break h
left-break (takes e h) = left-break h

-- The bytes of all chunks.
abbrev pub joined : List Bytes → Bytes
joined [] = []
joined (chunk ∷ chunks) = chunk ++ joined chunks

read_chunks-Splits :
    (pending : Bytes) (chunks : List Bytes)
    → scan pending ≡ break pending
    → (fs : List Bytes) × (r : Bytes) × (s : Bytes) × (read_chunks pending chunks ≡ some (fs, r))
      × Splits (pending ++ joined chunks) fs s
read_chunks-Splits pending [] idle =
    ([], pending, pending, unfold read_chunks in refl, rw append-nil (stops idle))
read_chunks-Splits pending (chunk ∷ chunks) idle =
    let (fs, rest, e, w) = split-Splits (pending ++ chunk) in
    let (gs, left, s, d, v) = read_chunks-Splits rest chunks (left-break w) in
    let (t, u) = Splits-append (joined chunks) gs s w v in
    (
      fs ++ gs,
      left,
      t,
      read_step pending chunk chunks fs gs rest left e d,
      rw (append_assoc pending chunk (joined chunks)) at u,
    )

-- However the reads cut the stream, the loop ends after each of them, and finds in order the frames
-- that one read of all the bytes finds.
pub read_chunks-joined :
    (chunks : List Bytes)
    → (fs : List Bytes) × (r : Bytes) × (s : Bytes) × (read_chunks [] chunks ≡ some (fs, r))
      × (split (joined chunks) ≡ some (fs, s))
read_chunks-joined chunks =
    let (fs, r, s, e, w) = read_chunks-Splits [] chunks (short-break [] (omega arith)) in
    let (gs, t, d, v) = split-Splits (joined chunks) in
    let same = Splits-unique v w in (fs, r, t, e, ground (arith, d, same))
