-- ===== src/Region/Header.antt =====
-- `RegionHeader`: two lengths and a hash in twelve bytes.
use barrique.Base.{
  ℕ, ◌<◌, ◌^◌, ◌≡◌, refl, List, ◌++◌, length, take, drop, Outcome, ok, panic, ltb, if◌then◌else◌,
  arith,
}
use barrique.Bytes.{to_le_bytes, from_le_bytes, from_le_bytes-to_le_bytes}
use barrique.Region.{header_size}

pub record RegionHeader : Type 0 where
  pub compressed_size : ℕ
  pub alloc_size : ℕ
  pub hash : ℕ

-- `u16`, `u16` and `u64`
pub record IsValid (h : RegionHeader) : Type 0 where
  pub compressed_size-lt : h.compressed_size < 2 ^ 16
  pub alloc_size-lt : h.alloc_size < 2 ^ 16
  pub hash-lt : h.hash < 2 ^ 64

-- A short slice makes it panic.
unfoldable pub from_bytes : {E : Type 0} → List ℕ → Outcome E RegionHeader
from_bytes bytes =
    if ltb (length bytes) header_size
    then panic
    else ok (record {
      compressed_size = from_le_bytes (take 2 bytes);
      alloc_size = from_le_bytes (take 2 (drop 2 bytes));
      hash = from_le_bytes (take 8 (drop 4 bytes));
    })

unfoldable pub into_bytes : RegionHeader → List ℕ
into_bytes h =
    to_le_bytes 2 h.compressed_size ++ (to_le_bytes 2 h.alloc_size ++ to_le_bytes 8 h.hash)

pub length-into_bytes : (h : RegionHeader) → length (into_bytes h) ≡ header_size
unfolding into_bytes
length-into_bytes h = refl

-- A region header whose lengths fit in 16 bits and whose hash fits in 64 is read back as it was
-- written, whatever follows it.
pub from_bytes-into_bytes :
    {E : Type 0} (h : RegionHeader) (rest : List ℕ)
    → IsValid h
    → from_bytes {E = E} (into_bytes h ++ rest) ≡ ok h
unfolding from_bytes into_bytes
from_bytes-into_bytes h rest v = ground (
  arith,
  from_le_bytes-to_le_bytes 2 h.compressed_size,
  from_le_bytes-to_le_bytes 2 h.alloc_size,
  from_le_bytes-to_le_bytes 8 h.hash,
)
