-- ===== src/Codec/Sum.antt =====
-- `Option` and `Result`: a byte, and then the value that is there.
use barrique.Base.{
  ℕ, ◌+◌, ◌≤◌, ◌≡◌, sym, Option, some, none, List, [], ◌∷◌, ◌++◌, length, ok, err, Call, pure, gets,
  ◌>>=◌, ◌>>◌, All, arith, ◌==◌, if◌then◌else◌, ◌⊎◌, inl, inr,
}
use barrique.Region.{region_size}
use barrique.Stream.{EncodeBearer, DecodeBearer}
use barrique.Codec.{EncodeError, DecodeError, Encode, Decode, write, read, get}
use barrique.Codec.Int.{int_encode}
use barrique.Codec.Scalar.{front}
use barrique.Codec.Laws.{
  DecodeBearerLaws, RoundTrips, writing, writing-one, writing-nil, writing_then, read_lem,
}

module _ {T : Type 0} (e : Encode T) (d : Decode T) where
  -- The value of `Some`, if there is one.
  some_encode : (B : Type 0) → EncodeBearer B → Option T → Call B EncodeError (Unit {0})
  some_encode B b none = pure tt
  some_encode B b (some v) = e.encode B b v

  abbrev is_some : Option T → ℕ
  is_some none = 0
  is_some (some v) = 1

  abbrev some_size : Option T → ℕ
  some_size none = 0
  some_size (some v) = e.size_of v

  unfoldable pub option_encode : Encode (Option T)
  unfolding some_encode int_encode
  option_encode = record {
    encode = λ B b v. Encode.encode (int_encode 1) B b (is_some v) >> some_encode B b v;
    size_of = λ v. 1 + some_size v;
  }

  option_rest : (B : Type 0) → DecodeBearer B → ℕ → Call B DecodeError (Option T)
  unfolding get
  option_rest B b byte =
      if byte == 0
      then gets (λ _. ok none)
      else if byte == 1
      then (do v ← get d b; gets (λ _. ok (some v)))
      else gets (λ _. err DecodeError.invalid_pattern)

  unfoldable pub option_decode : Decode (Option T)
  unfolding option_rest
  option_decode = record { decode = λ B b. (do bytes ← read b 1; option_rest B b (front bytes)) }

  module _ (chunks : T → List (List ℕ)) (IsValid : T → Type 0)
      (rt : RoundTrips e d chunks IsValid) where
    abbrev pub option_chunks : Option T → List (List ℕ)
    option_chunks none = (0 ∷ []) ∷ []
    option_chunks (some v) = (1 ∷ []) ∷ chunks v

    abbrev pub OptionValid : Option T → Type 0
    OptionValid none = Unit
    OptionValid (some v) = IsValid v

    option_small : (v : Option T) → All (λ c. length c ≤ region_size) (option_chunks v)
    option_small none = omega arith
    option_small (some v) = (omega arith, rt.chunks_small v)

    option_encoded :
        (B : Type 0) (b : EncodeBearer B) (v : Option T) (s : B)
        → Encode.encode option_encode B b v s ≡ writing b (option_chunks v) s
    unfolding option_encode
    option_encoded B b none s =
        writing_then b (write b (0 ∷ [])) (pure tt) ((0 ∷ []) ∷ []) [] s (writing-one b (0 ∷ []))
          (λ t. sym (writing-nil b t))
    option_encoded B b (some v) s =
        writing_then b (write b (1 ∷ [])) (e.encode B b v) ((1 ∷ []) ∷ []) (chunks v) s
          (writing-one b (1 ∷ [])) (rt.encoded B b v)

    option_run_none :
        (B : Type 0) (b : DecodeBearer B) (s s' : B)
        → b.read 1 s ≡ (ok (0 ∷ []), s')
        → Decode.decode option_decode B b s ≡ (ok none, s')
    unfolding option_decode
    option_run_none B b s s' h = ground (arith, read_lem b 1 s s' (0 ∷ []) h)

    option_run_some :
        (B : Type 0) (b : DecodeBearer B) (v : T) (s s1 s2 : B)
        → b.read 1 s ≡ (ok (1 ∷ []), s1)
        → d.decode B b s1 ≡ (ok v, s2)
        → Decode.decode option_decode B b s ≡ (ok (some v), s2)
    unfolding option_decode
    option_run_some B b v s s1 s2 h k = ground (arith, read_lem b 1 s s1 (1 ∷ []) h)

    option_decoded :
        (B : Type 0) (b : DecodeBearer B) (bl : DecodeBearerLaws b) (v : Option T) (s : B)
        (cs : List (List ℕ))
        → OptionValid v
        → DecodeBearerLaws.Aligned bl s (option_chunks v ++ cs)
        → (s' : B) × (Decode.decode option_decode B b s ≡ (ok v, s'))
          × DecodeBearerLaws.Aligned bl s' cs
    option_decoded B b bl none s cs valid al =
        let (s', run, al') = bl.read_chunk s (0 ∷ []) cs al in
        (s', option_run_none B b s s' run, al')
    option_decoded B b bl (some v) s cs valid al =
        let (s1, run, al1) = bl.read_chunk s (1 ∷ []) (chunks v ++ cs) al in
        let (s2, run2, al2) = rt.decoded B b bl v s1 cs valid al1 in
        (s2, option_run_some B b v s s1 s2 run run2, al2)

    -- An optional value is read back as it was written, if its value is.
    pub option-RoundTrips : RoundTrips option_encode option_decode option_chunks OptionValid
    option-RoundTrips = record {
      chunks_small = option_small;
      encoded = option_encoded;
      decoded = option_decoded;
    }

module _ {T E : Type 0} (et : Encode T) (dt : Decode T) (ee : Encode E) (de : Decode E) where
  -- `Result<T, E>`: `inl` is `Ok`.
  result_value : (B : Type 0) → EncodeBearer B → T ⊎ E → Call B EncodeError (Unit {0})
  result_value B b (inl v) = et.encode B b v
  result_value B b (inr v) = ee.encode B b v

  abbrev is_ok : T ⊎ E → ℕ
  is_ok (inl v) = 1
  is_ok (inr v) = 0

  abbrev value_size : T ⊎ E → ℕ
  value_size (inl v) = et.size_of v
  value_size (inr v) = ee.size_of v

  unfoldable pub result_encode : Encode (T ⊎ E)
  unfolding result_value int_encode
  result_encode = record {
    encode = λ B b v. Encode.encode (int_encode 1) B b (is_ok v) >> result_value B b v;
    size_of = value_size;
  }

  result_rest : (B : Type 0) → DecodeBearer B → ℕ → Call B DecodeError (T ⊎ E)
  unfolding get
  result_rest B b byte =
      if byte == 0
      then (do v ← get de b; gets (λ _. ok (inr v)))
      else if byte == 1
      then (do v ← get dt b; gets (λ _. ok (inl v)))
      else gets (λ _. err DecodeError.invalid_pattern)

  unfoldable pub result_decode : Decode (T ⊎ E)
  unfolding result_rest
  result_decode = record { decode = λ B b. (do bytes ← read b 1; result_rest B b (front bytes)) }

  module _ (ct : T → List (List ℕ)) (vt : T → Type 0) (rt : RoundTrips et dt ct vt)
      (ce : E → List (List ℕ)) (ve : E → Type 0) (re : RoundTrips ee de ce ve) where
    abbrev pub result_chunks : T ⊎ E → List (List ℕ)
    result_chunks (inl v) = (1 ∷ []) ∷ ct v
    result_chunks (inr v) = (0 ∷ []) ∷ ce v

    abbrev pub ResultValid : T ⊎ E → Type 0
    ResultValid (inl v) = vt v
    ResultValid (inr v) = ve v

    result_small : (v : T ⊎ E) → All (λ c. length c ≤ region_size) (result_chunks v)
    result_small (inl v) = (omega arith, rt.chunks_small v)
    result_small (inr v) = (omega arith, re.chunks_small v)

    result_encoded :
        (B : Type 0) (b : EncodeBearer B) (v : T ⊎ E) (s : B)
        → Encode.encode result_encode B b v s ≡ writing b (result_chunks v) s
    unfolding result_encode
    result_encoded B b (inl v) s =
        writing_then b (write b (1 ∷ [])) (et.encode B b v) ((1 ∷ []) ∷ []) (ct v) s
          (writing-one b (1 ∷ [])) (rt.encoded B b v)
    result_encoded B b (inr v) s =
        writing_then b (write b (0 ∷ [])) (ee.encode B b v) ((0 ∷ []) ∷ []) (ce v) s
          (writing-one b (0 ∷ [])) (re.encoded B b v)

    result_run_ok :
        (B : Type 0) (b : DecodeBearer B) (v : T) (s s1 s2 : B)
        → b.read 1 s ≡ (ok (1 ∷ []), s1)
        → dt.decode B b s1 ≡ (ok v, s2)
        → Decode.decode result_decode B b s ≡ (ok (inl v), s2)
    unfolding result_decode
    result_run_ok B b v s s1 s2 h k = ground (arith, read_lem b 1 s s1 (1 ∷ []) h)

    result_run_err :
        (B : Type 0) (b : DecodeBearer B) (v : E) (s s1 s2 : B)
        → b.read 1 s ≡ (ok (0 ∷ []), s1)
        → de.decode B b s1 ≡ (ok v, s2)
        → Decode.decode result_decode B b s ≡ (ok (inr v), s2)
    unfolding result_decode
    result_run_err B b v s s1 s2 h k = ground (arith, read_lem b 1 s s1 (0 ∷ []) h)

    result_decoded :
        (B : Type 0) (b : DecodeBearer B) (bl : DecodeBearerLaws b) (v : T ⊎ E) (s : B)
        (cs : List (List ℕ))
        → ResultValid v
        → DecodeBearerLaws.Aligned bl s (result_chunks v ++ cs)
        → (s' : B) × (Decode.decode result_decode B b s ≡ (ok v, s'))
          × DecodeBearerLaws.Aligned bl s' cs
    result_decoded B b bl (inl v) s cs valid al =
        let (s1, run, al1) = bl.read_chunk s (1 ∷ []) (ct v ++ cs) al in
        let (s2, run2, al2) = rt.decoded B b bl v s1 cs valid al1 in
        (s2, result_run_ok B b v s s1 s2 run run2, al2)
    result_decoded B b bl (inr v) s cs valid al =
        let (s1, run, al1) = bl.read_chunk s (0 ∷ []) (ce v ++ cs) al in
        let (s2, run2, al2) = re.decoded B b bl v s1 cs valid al1 in
        (s2, result_run_err B b v s s1 s2 run run2, al2)

    -- A `Result` is read back as it was written, if the values of both sides are.
    pub result-RoundTrips : RoundTrips result_encode result_decode result_chunks ResultValid
    result-RoundTrips = record {
      chunks_small = result_small;
      encoded = result_encoded;
      decoded = result_decoded;
    }
