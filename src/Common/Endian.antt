-- ===== src/Common/Endian.antt =====
-- Bytes and the little-endian integers of encoding/binary.
use Prim.Native.Nat.{ℕ, suc, ◌+◌, ◌*◌, ◌/◌, ◌%◌, ◌<◌}
use mathlib.Core.Path.{◌≡◌}
use mathlib.Core.List.{List, ◌∷◌}
use native.Mathlib.Omega.{arith}
use quectel_qmi_go.Common.Lists.{All, get_or}

abbrev pub IsByte : ℕ → Type 0
IsByte b = b < 256

abbrev pub IsU16 : ℕ → Type 0
IsU16 v = v < 65536

abbrev pub IsU32 : ℕ → Type 0
IsU32 v = v < 4294967296

-- A Go []byte, its elements below 256 where a statement says so.
abbrev pub Bytes : Type 0
Bytes = List ℕ

abbrev pub AllBytes : Bytes → Type 0
AllBytes bs = All IsByte bs

-- binary.LittleEndian.PutUint16 and PutUint32.
abbrev pub put_u16 : ℕ → Bytes → Bytes
put_u16 v rest = (v % 256) ∷ (v / 256 % 256) ∷ rest

abbrev pub put_u32 : ℕ → Bytes → Bytes
put_u32 v rest = (v % 256) ∷ (v / 256 % 256) ∷ (v / 65536 % 256) ∷ (v / 16777216 % 256) ∷ rest

-- binary.LittleEndian.Uint16 and Uint32 at an offset of a slice that is long enough.
abbrev pub u16_at : Bytes → ℕ → ℕ
u16_at bs i = get_or bs i 0 + get_or bs (suc i) 0 * 256

abbrev pub u32_at : Bytes → ℕ → ℕ
u32_at bs i =
    get_or bs i 0
    + get_or bs (suc i) 0 * 256
    + get_or bs (suc (suc i)) 0 * 65536
    + get_or bs (suc (suc (suc i))) 0 * 16777216

pub u16_bytes : (v : ℕ) → IsU16 v → v % 256 + v / 256 % 256 * 256 ≡ v
u16_bytes v h = omega arith

pub u32_bytes :
    (v : ℕ)
    → IsU32 v
    → v % 256 + v / 256 % 256 * 256 + v / 65536 % 256 * 65536 + v / 16777216 % 256 * 16777216 ≡ v
u32_bytes v h = omega arith

pub byte_wraps : (v : ℕ) → v % 256 < 256
byte_wraps v = omega arith

pub u16_wraps : (v : ℕ) → IsU16 v → v % 65536 ≡ v
u16_wraps v h = omega arith

pub IsU16-pair : (a b : ℕ) → IsByte a → IsByte b → IsU16 (a + b * 256)
IsU16-pair a b ha hb = omega arith

-- The bytes of a decoded integer are those it was decoded from.
pub u16_split :
    (a b : ℕ) → IsByte a → IsByte b → ((a + b * 256) % 256 ≡ a) × ((a + b * 256) / 256 % 256 ≡ b)
u16_split a b ha hb = omega arith
