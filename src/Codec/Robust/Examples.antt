-- ===== src/Codec/Robust/Examples.antt =====
-- The theorem on `Vec`, at bytes that no encoder has written.
use barrique.Base.{
  ℕ, ◌-◌, ◌*◌, ◌^◌, ◌≤◌, ◌<◌, ◌≡◌, ◌⊎◌, refl, List, [], ◌∷◌, length, err, panic, All, Ensures,
  arith,
}
use barrique.Bytes.{IsByte}
use barrique.Codec.{DecodeError, Decode}
use barrique.Codec.Int.{int_encode, int_decode}
use barrique.Codec.Seq.{vec_decode}
use barrique.Codec.Robust.Scalars.{int-Robust}
use barrique.Codec.Robust.Containers.{vec_decode_lem}
use barrique.Samples.{list_bearer, list_sound}

-- Three numbers of two bytes, of which the last is cut off.
abbrev rubbish : List ℕ
rubbish = 3 ∷ 0 ∷ 0 ∷ 0 ∷ 97 ∷ 0xC3 ∷ 0x28 ∷ 1 ∷ 5 ∷ []

abbrev isize_max : ℕ
isize_max = 2 ^ 63 - 1

abbrev numbers : Decode (List ℕ)
numbers = vec_decode (int_encode 2) (int_decode 2) isize_max 2

vec_decode_lem_example :
    ((isize_max < 3)
      × (Decode.decode numbers (List ℕ) list_bearer rubbish
          ≡ (err (DecodeError.other "Length exceeds isize::MAX"), 97 ∷ 0xC3 ∷ 0x28 ∷ 1 ∷ 5 ∷ [])))
    ⊎ (((3 ≤ isize_max)
          × (isize_max < 3 * 2)
          × (Decode.decode numbers (List ℕ) list_bearer rubbish
              ≡ (panic, 97 ∷ 0xC3 ∷ 0x28 ∷ 1 ∷ 5 ∷ [])))
        ⊎ ((3 ≤ isize_max)
            × (3 * 2 ≤ isize_max)
            × Ensures
                (λ vs s'. ((length vs ≡ 3) × All (λ v. v < 256 ^ 2) vs) × All IsByte s')
                (Decode.decode numbers (List ℕ) list_bearer rubbish)))
unfolding list_sound barrique.Codec.read int_decode barrique.Codec.get
vec_decode_lem_example =
    vec_decode_lem (int_encode 2) (int_decode 2) (int-Robust 2) isize_max 2 (List ℕ) list_bearer
      list_sound rubbish (97 ∷ 0xC3 ∷ 0x28 ∷ 1 ∷ 5 ∷ []) 3 (omega arith) refl
