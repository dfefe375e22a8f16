-- ===== src/Bytes.antt =====
-- Bytes as numbers below 256, and the little-endian forms of `to_le_bytes` and `from_le_bytes`.
use barrique.Base.{
  ℕ, zero, suc, ◌+◌, ◌*◌, ◌/◌, ◌%◌, ◌^◌, ◌<◌, ◌≡◌, refl, ap, List, [], ◌∷◌, length, All, arith,
}
use native.Mathlib.Nat.{pow-suc}

abbrev pub IsByte : ℕ → Type 0
IsByte b = b < 256

-- `v.to_le_bytes()` of an unsigned integer of `w` bytes.
abbrev pub to_le_bytes : ℕ → ℕ → List ℕ
to_le_bytes zero v = []
to_le_bytes (suc w) v = (v % 256) ∷ to_le_bytes w (v / 256)

abbrev pub from_le_bytes : List ℕ → ℕ
from_le_bytes [] = 0
from_le_bytes (b ∷ bs) = b + 256 * from_le_bytes bs

pub length-to_le_bytes : (w v : ℕ) → length (to_le_bytes w v) ≡ w
length-to_le_bytes zero v = refl
length-to_le_bytes (suc w) v = ap suc (length-to_le_bytes w (v / 256))

pub to_le_bytes-IsByte : (w v : ℕ) → All IsByte (to_le_bytes w v)
to_le_bytes-IsByte zero v = tt
to_le_bytes-IsByte (suc w) v = (omega arith, to_le_bytes-IsByte w (v / 256))

div-lt_pow : (w v : ℕ) → v < 256 ^ suc w → v / 256 < 256 ^ w
div-lt_pow w v h = let bound : v < 256 ^ w * 256 = rw (pow-suc 256 w) at h in omega arith

pub from_le_bytes-to_le_bytes : (w v : ℕ) → v < 256 ^ w → from_le_bytes (to_le_bytes w v) ≡ v
from_le_bytes-to_le_bytes zero v h = omega arith
from_le_bytes-to_le_bytes (suc w) v h =
    let below : v / 256 < 256 ^ w = div-lt_pow w v h in
    rw (from_le_bytes-to_le_bytes w (v / 256) below) (omega arith)

-- The number of a list of bytes fits into as many bytes.
pub from_le_bytes-lt :
    (bytes : List ℕ) → All IsByte bytes → from_le_bytes bytes < 256 ^ length bytes
from_le_bytes-lt [] h = omega arith
from_le_bytes-lt (b ∷ bs) (h, hs) =
    let rest : from_le_bytes bs < 256 ^ length bs = from_le_bytes-lt bs hs in
    rw (pow-suc 256 (length bs)) (omega (arith, h, rest))
