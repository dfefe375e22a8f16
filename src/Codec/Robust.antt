-- ===== src/Codec/Robust.antt =====
-- Decoders on input that no encoder has written: a value that is right, or an error, and no panic.
pub mod Scalars
pub mod Containers
mod Examples
use barrique.Base.{
  ℕ, ◌≡◌, List, length, All, Ensures, Ensures-map_err, Ensures-weaken, Ensures-map_state,
}
use barrique.Bytes.{IsByte}
use barrique.Region.{RegionError}
use barrique.Stream.{DecodeBearer}
use barrique.Codec.{DecodeError, Decode, read}

-- A bearer that keeps an invariant as long as its reads succeed, and returns what was asked for.
pub record SoundBearer {B : Type 0} (b : DecodeBearer B) : Type 1 where
  pub IsSound : B → Type 0
  pub read_sound :
      (n : ℕ) (s : B)
      → IsSound s
      → Ensures (λ bytes s'. (length bytes ≡ n) × All IsByte bytes × IsSound s') (b.read n s)

-- Whatever a sound bearer delivers, `decode` does not panic, and a value that it returns is valid.
pub record Robust {T : Type 0} (d : Decode T) (IsValid : T → Type 0) : Type 1 where
  pub decoded_any :
      (B : Type 0) (b : DecodeBearer B) (sb : SoundBearer b) (s : B)
      → SoundBearer.IsSound sb s
      → Ensures (λ v s'. IsValid v × SoundBearer.IsSound sb s') (d.decode B b s)

module _ {B : Type 0} (b : DecodeBearer B) (sb : SoundBearer b) where
  open sb use {IsSound, read_sound}

  pub sound_read :
      (n : ℕ) (s : B)
      → IsSound s
      → Ensures (λ bytes s'. (length bytes ≡ n) × All IsByte bytes × IsSound s') (read b n s)
  unfolding read
  sound_read n s h = Ensures-map_err DecodeError.bearer_error (b.read n s) (read_sound n s h)
