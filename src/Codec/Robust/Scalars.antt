-- ===== src/Codec/Robust/Scalars.antt =====
-- Integers, `bool`, `char` and tuples from arbitrary bytes.
use barrique.Base.{
  ℕ, ◌/◌, ◌^◌, ◌<◌, ◌≤◌, ◌≡◌, subst, Bool, true, false, List, [], ◌∷◌, length, All, Outcome, err,
  Ensures, Ensures-ok, Ensures-err, Ensures-bind, Bool-cases, inl, inr, ◌&&◌, if◌then◌else◌,
  Ensures-if_outcome, gets, ◌>>=◌, leb, arith, map_err, ◌==◌,
}
use barrique.Bytes.{IsByte, from_le_bytes, from_le_bytes-lt}
use barrique.Stream.{DecodeBearer}
use barrique.Codec.{DecodeError, Encode, Decode, read}
use barrique.Codec.Int.{int_decode}
use barrique.Codec.Scalar.{bool_decode, unit_decode, front}
use barrique.Codec.Char.{char_decode, decode_char_from_bytes}
use barrique.Codec.Product.{pair_decode}
use barrique.Codec.Robust.{SoundBearer, Robust, sound_read}

module _ {B : Type 0} (b : DecodeBearer B) (sb : SoundBearer b) where
  open sb use {IsSound}

  int_sound :
      (w : ℕ) (s : B)
      → IsSound s
      → Ensures (λ v s'. (v < 256 ^ w) × IsSound s') (Decode.decode (int_decode w) B b s)
  unfolding int_decode
  int_sound w s h = Ensures-bind (sound_read b sb w s h) (λ bytes k.
      Ensures-ok (subst (λ n. from_le_bytes bytes < 256 ^ n) k.0 (from_le_bytes-lt bytes k.1), k.2))

  bool_sound :
      (s : B)
      → IsSound s
      → Ensures (λ v s'. Unit {0} × IsSound s') (Decode.decode bool_decode B b s)
  unfolding bool_decode
  bool_sound s h = Ensures-bind (sound_read b sb 1 s h) (λ bytes k.
      Ensures-if_outcome (front bytes == 0) (λ _. Ensures-ok (tt, k.2))
        (λ _. Ensures-if_outcome (front bytes == 1) (λ _. Ensures-ok (tt, k.2)) (λ _. Ensures-err)))

  -- `get(i)?`: an error if the byte is of another form
  guarded :
      {s : B} (m : Outcome (Unit {0}) ℕ) (b : Bool)
      → Ensures
          (λ v s'. (v < 0x200000) × IsSound s')
          (map_err (λ _. DecodeError.invalid_pattern) m, s)
      → Ensures
          (λ v s'. (v < 0x200000) × IsSound s')
          (map_err (λ _. DecodeError.invalid_pattern) (if b then m else err tt), s)
  guarded m true h = h
  guarded m false h = Ensures-err

  -- The code point of a leading byte and as many others as it asks for.
  code_point :
      (leading n : ℕ) (bytes : List ℕ) {s : B}
      → 0 < n
      → n ≤ 3
      → length bytes ≡ n
      → All IsByte bytes
      → IsSound s
      → Ensures
          (λ v s'. (v < 0x200000) × IsSound s')
          (map_err (λ _. DecodeError.invalid_pattern) (decode_char_from_bytes leading bytes), s)
  unfolding decode_char_from_bytes
  code_point leading n [] lo hi e h k = absurd (omega (arith, e))
  code_point leading n (a ∷ []) lo hi e h k = guarded _ (a / 64 == 2) (Ensures-ok (omega arith, k))
  code_point leading n (a ∷ b ∷ []) lo hi e h k =
      guarded _ (a / 64 == 2) (guarded _ (b / 64 == 2) (Ensures-ok (omega arith, k)))
  code_point leading n (a ∷ b ∷ c ∷ []) lo hi e h k =
      guarded _ (a / 64 == 2)
        (guarded _ (b / 64 == 2) (guarded _ (c / 64 == 2) (Ensures-ok (omega arith, k))))
  code_point leading n (a ∷ b ∷ c ∷ d ∷ l) lo hi e h k = absurd (omega (arith, e))

  long :
      (leading n : ℕ) (s : B)
      → 0 < n
      → n ≤ 3
      → IsSound s
      → Ensures
          (λ v s'. (v < 0x200000) × IsSound s')
          ((do
            bytes ← read b n
            gets (λ _.
                map_err (λ _. DecodeError.invalid_pattern) (decode_char_from_bytes leading bytes)))
            s)
  unfolding char_decode
  long leading n s lo hi h =
      Ensures-bind (sound_read b sb n s h) (λ bytes k. code_point leading n bytes lo hi k.0 k.1 k.2)

  char_sound :
      (s : B)
      → IsSound s
      → Ensures (λ v s'. (v < 0x200000) × IsSound s') (Decode.decode char_decode B b s)
  unfolding char_decode
  char_sound s h = Ensures-bind (sound_read b sb 1 s h) (λ bytes k.
      let leading = front bytes in
      elim (Bool-cases (leb leading 0x7F)) [
        | inl e ↦ rw e (Ensures-ok (ground (arith, e), k.2))
        | inr e ↦ elim (Bool-cases (leb 0xC0 leading && leb leading 0xDF)) [
          | inl e1 ↦ rw (e, e1) (long leading 1 _ (omega arith) (omega arith) k.2)
          | inr e1 ↦ elim (Bool-cases (leb 0xE0 leading && leb leading 0xEF)) [
            | inl e2 ↦ rw (e, e1, e2) (long leading 2 _ (omega arith) (omega arith) k.2)
            | inr e2 ↦ elim (Bool-cases (leb 0xF0 leading && leb leading 0xF7)) [
              | inl e3 ↦ rw (e, e1, e2, e3) (long leading 3 _ (omega arith) (omega arith) k.2)
              | inr e3 ↦ rw (e, e1, e2, e3) Ensures-err
            ]
          ]
        ]
      ])

pub int-Robust : (w : ℕ) → Robust (int_decode w) (λ v. v < 256 ^ w)
int-Robust w = record { decoded_any = λ B b sb s h. int_sound b sb w s h }

pub bool-Robust : Robust bool_decode (λ v. Unit {0})
bool-Robust = record { decoded_any = λ B b sb s h. bool_sound b sb s h }

pub unit-Robust : Robust unit_decode (λ v. Unit {0})
unfolding unit_decode
unit-Robust = record { decoded_any = λ B b sb s h. Ensures-ok (tt, h) }

-- A `char` from arbitrary bytes is a number of at most 21 bits, which need not be a code point.
pub char-Robust : Robust char_decode (λ v. v < 0x200000)
char-Robust = record { decoded_any = λ B b sb s h. char_sound b sb s h }

pub pair-Robust :
    {S T : Type 0} (es : Encode S) (ds : Decode S) (et : Encode T) (dt : Decode T) {P : S → Type 0}
    {Q : T → Type 0}
    → Robust ds P
    → Robust dt Q
    → Robust (pair_decode es ds et dt) (λ v. P v.0 × Q v.1)
unfolding pair_decode
pair-Robust es ds et dt p q = record {
  decoded_any = λ B b sb s h.
      Ensures-bind (p.decoded_any B b sb s h)
        (λ v k. Ensures-bind (q.decoded_any B b sb _ k.1) (λ w k'. Ensures-ok ((k.0, k'.0), k'.1)));
}
