-- ===== src/Codec/Scalar.antt =====
-- `bool`, `()` and `PhantomData`.
use barrique.Base.{
  ℕ, ◌%◌, ◌<◌, ◌≡◌, refl, sym, ap, ◌∙◌, Bool, true, false, List, [], ◌∷◌, ok, err, Outcome, pure,
  gets, ◌>>=◌, arith, ◌==◌, if◌then◌else◌,
}
use barrique.Stream.{DecodeBearer}
use barrique.Codec.{DecodeError, Encode, Decode, read}
use barrique.Codec.Int.{int_encode}
use barrique.Codec.Laws.{DecodeBearerLaws, RoundTrips, writing, writing-one, writing-nil, read_lem}

-- `*src as u8`
abbrev pub flag : Bool → ℕ
flag true = 1
flag false = 0

-- The byte of a slice of length one.
abbrev pub front : List ℕ → ℕ
front [] = 0
front (b ∷ bs) = b

unfoldable pub bool_encode : Encode Bool
unfolding int_encode
bool_encode = record {
  encode = λ B b v. Encode.encode (int_encode 1) B b (flag v);
  size_of = λ v. 1;
}

unfoldable pub bool_of : ℕ → Outcome DecodeError Bool
bool_of byte =
    if byte == 0 then ok false else if byte == 1 then ok true else err DecodeError.invalid_pattern

unfoldable pub bool_decode : Decode Bool
unfolding bool_of
bool_decode = record { decode = λ B b. (do bytes ← read b 1; gets (λ _. bool_of (front bytes))) }

bool_decoded :
    (B : Type 0) (b : DecodeBearer B) (bl : DecodeBearerLaws b) (v : Bool) (s : B)
    (cs : List (List ℕ))
    → DecodeBearerLaws.Aligned bl s ((flag v ∷ []) ∷ cs)
    → (s' : B) × (Decode.decode bool_decode B b s ≡ (ok v, s')) × DecodeBearerLaws.Aligned bl s' cs
unfolding bool_decode
bool_decoded B b bl v s cs al =
    let (s', run, al') = bl.read_chunk s (flag v ∷ []) cs al in
    (s', ground (arith, read_lem b 1 s s' (flag v ∷ []) run), al')

flag-small : (v : Bool) → flag v % 256 ≡ flag v
flag-small true = refl
flag-small false = refl

-- A `bool` is one byte, 0 or 1.
pub bool-RoundTrips : RoundTrips bool_encode bool_decode (λ v. (flag v ∷ []) ∷ []) (λ v. Unit)
unfolding bool_encode
bool-RoundTrips = record {
  chunks_small = λ v. (omega arith, tt);
  encoded = λ B b v s.
      writing-one b (flag v % 256 ∷ []) s ∙ ap (λ n. writing b ((n ∷ []) ∷ []) s) (flag-small v);
  decoded = λ B b bl v s cs valid al. bool_decoded B b bl v s cs al;
}

-- A byte above 1 is refused as a `bool`, with `InvalidPattern`.
pub bool_decode_invalid :
    (B : Type 0) (b : DecodeBearer B) (bl : DecodeBearerLaws b) (byte : ℕ) (s : B)
    (cs : List (List ℕ))
    → 1 < byte
    → DecodeBearerLaws.Aligned bl s ((byte ∷ []) ∷ cs)
    → (s' : B) × (Decode.decode bool_decode B b s ≡ (err DecodeError.invalid_pattern, s'))
unfolding bool_decode
bool_decode_invalid B b bl byte s cs h al =
    let (s', run, al') = bl.read_chunk s (byte ∷ []) cs al in
    (s', ground (arith, read_lem b 1 s s' (byte ∷ []) run))

-- `()` and `PhantomData<T>`
unfoldable pub unit_encode : Encode (Unit {0})
unit_encode = record { encode = λ B b v. pure tt; size_of = λ v. 0 }

unfoldable pub unit_decode : Decode (Unit {0})
unit_decode = record { decode = λ B b. pure tt }

pub unit-RoundTrips : RoundTrips unit_encode unit_decode (λ v. []) (λ v. Unit)
unfolding unit_encode unit_decode
unit-RoundTrips = record {
  chunks_small = λ v. tt;
  encoded = λ B b v s. sym (writing-nil b s);
  decoded = λ B b bl v s cs valid al. (s, refl, al);
}
