-- ===== src/Client/Stream.antt =====
-- pkg/qmi/client.go, readLoop: the search for frames in the bytes that the transport delivers. What
-- the loop does with each frame is in Client/Read.
pub mod Splits
pub mod Chunks
pub mod Delivery
use quectel_qmi_go.Common.{
  ℕ, zero, suc, ◌+◌, List, [], ◌∷◌, ◌++◌, Bool, true, false, not, ◌||◌, if◌then◌else◌, ltb, ◌==◌,
  length, take, drop, get_or, Option, none, some, Bytes, u16_at,
}
use quectel_qmi_go.Wire.Header.{qmux_header_size}

abbrev pub is_marker : ℕ → Bool
is_marker b = b == 0x01 || b == 0x02

-- pending[i:] for the first i with a marker byte.
unfoldable pub skip_to_marker : Bytes → Bytes
skip_to_marker [] = []
skip_to_marker (b ∷ bs) = if is_marker b then b ∷ bs else skip_to_marker bs

-- One pass of the inner loop: `break` and `continue` with what `pending` then is, or a frame.
pub data Scan : Type 0 where
  break : Bytes → Scan
  continue : Bytes → Scan
  frame : Bytes → Bytes → Scan

abbrev after_skip : Bytes → Scan
after_skip [] = break []
after_skip (b ∷ bs) = continue (b ∷ bs)

abbrev pub frame_len : Bytes → ℕ
frame_len pending = suc (u16_at pending 1)

unfoldable pub scan : Bytes → Scan
scan pending =
    if ltb (length pending) 3
    then break pending
    else if not (is_marker (get_or pending 0 0))
    then after_skip (skip_to_marker pending)
    else if ltb (length pending) qmux_header_size
    then break pending
    else if ltb (frame_len pending) qmux_header_size
    then continue (drop 1 pending)
    else if ltb (length pending) (frame_len pending)
    then break pending
    else frame (take (frame_len pending) pending) (drop (frame_len pending) pending)

-- The inner loop: the frames found, in order, and what stays pending. `none`: the fuel ran out.
unfoldable pub split_loop : ℕ → Bytes → Option (List Bytes × Bytes)
split_loop zero pending = none
split_loop (suc fuel) pending = elim (scan pending) [
  | break rest ↦ some ([], rest)
  | continue rest ↦ split_loop fuel rest
  | frame f rest ↦ elim (split_loop fuel rest) [
    | none ↦ none
    | some (fs, left) ↦ some (f ∷ fs, left)
  ]
]

-- Each pass that goes on takes a byte at least.
unfoldable pub split : Bytes → Option (List Bytes × Bytes)
split pending = split_loop (suc (length pending)) pending

-- The outer loop over what the reads deliver: pending = append(pending, buf[:n]...).
unfoldable pub read_chunks : Bytes → List Bytes → Option (List Bytes × Bytes)
read_chunks pending [] = some ([], pending)
read_chunks pending (chunk ∷ chunks) = elim (split (pending ++ chunk)) [
  | none ↦ none
  | some (fs, rest) ↦ elim (read_chunks rest chunks) [
    | none ↦ none
    | some (gs, left) ↦ some (fs ++ gs, left)
  ]
]
