-- ===== src/Codec/Char.antt =====
-- `char` in UTF-8. A character is its code point. On bytes, `b & 0x3F` is `b % 64`, `b & 0xC0 == 0x80`
-- is `b / 64 == 2`, and `x << 6 | y` is `x * 64 + y` for a `y` below 64.
use barrique.Base.{
  ℕ, ◌+◌, ◌*◌, ◌/◌, ◌%◌, ◌≤◌, ◌<◌, ◌≡◌, refl, ap, List, [], ◌∷◌, length, ok, err, panic, Outcome,
  Call, gets, map_err, ◌>>=◌, arith, leb, ltb, ◌==◌, ◌&&◌, if◌then◌else◌, Bool-cases, inl, inr,
  ltb→lt, ltb_false→le,
}
use barrique.Region.{region_size}
use barrique.Stream.{DecodeBearer}
use barrique.Codec.{DecodeError, Encode, Decode, write, read}
use barrique.Codec.Scalar.{front}
use barrique.Codec.Laws.{DecodeBearerLaws, RoundTrips, writing-one, read_lem}

-- `char::encode_utf8`
abbrev pub continued : ℕ → ℕ
continued n = 0x80 + n % 64

unfoldable pub encode_utf8 : ℕ → List ℕ
encode_utf8 c =
    if ltb c 0x80
    then c ∷ []
    else if ltb c 0x800
    then (0xC0 + c / 64) ∷ continued c ∷ []
    else if ltb c 0x10000
    then (0xE0 + c / 64 / 64) ∷ continued (c / 64) ∷ continued c ∷ []
    else (0xF0 + c / 64 / 64 / 64) ∷ continued (c / 64 / 64) ∷ continued (c / 64) ∷ continued c ∷ []

unfoldable pub char_encode : Encode ℕ
char_encode = record {
  encode = λ B b v. write b (encode_utf8 v);
  size_of = λ v. length (encode_utf8 v);
}

-- `get(i)?`, with the rest of the computation
continuation : ℕ → (ℕ → Outcome (Unit {0}) ℕ) → Outcome (Unit {0}) ℕ
continuation byte next = if byte / 64 == 2 then next (byte % 64) else err tt

-- `None` is `err tt`; another number of bytes is unreachable.
unfoldable pub decode_char_from_bytes : ℕ → List ℕ → Outcome (Unit {0}) ℕ
unfolding continuation
decode_char_from_bytes leading (a ∷ []) = continuation a (λ x. ok (leading % 32 * 64 + x))
decode_char_from_bytes leading (a ∷ b ∷ []) =
    continuation a (λ x. continuation b (λ y. ok ((leading % 16 * 64 + x) * 64 + y)))
decode_char_from_bytes leading (a ∷ b ∷ c ∷ []) = continuation a (λ x.
    continuation b (λ y. continuation c (λ z. ok (((leading % 8 * 64 + x) * 64 + y) * 64 + z))))
decode_char_from_bytes leading _ = panic

char_long : (B : Type 0) → DecodeBearer B → ℕ → ℕ → Call B DecodeError ℕ
unfolding decode_char_from_bytes
char_long B b leading len = do
  bytes ← read b len
  gets (λ _. map_err (λ _. DecodeError.invalid_pattern) (decode_char_from_bytes leading bytes))

char_rest : (B : Type 0) → DecodeBearer B → ℕ → Call B DecodeError ℕ
unfolding char_long
char_rest B b leading =
    if leb leading 0x7F
    then gets (λ _. ok leading)
    else if leb 0xC0 leading && leb leading 0xDF
    then char_long B b leading 1
    else if leb 0xE0 leading && leb leading 0xEF
    then char_long B b leading 2
    else if leb 0xF0 leading && leb leading 0xF7
    then char_long B b leading 3
    else gets (λ _. err DecodeError.invalid_pattern)

unfoldable pub char_decode : Decode ℕ
unfolding char_rest
char_decode = record { decode = λ B b. (do bytes ← read b 1; char_rest B b (front bytes)) }

module _ (B : Type 0) (b : DecodeBearer B) where
  char_run_long :
      (leading c : ℕ) (rest : List ℕ) (s s1 s2 : B)
      → b.read 1 s ≡ (ok (leading ∷ []), s1)
      → b.read (length rest) s1 ≡ (ok rest, s2)
      → decode_char_from_bytes leading rest ≡ ok c
      → char_rest B b leading ≡ char_long B b leading (length rest)
      → Decode.decode char_decode B b s ≡ (ok c, s2)
  unfolding char_decode
  char_run_long leading c rest s s1 s2 h k e way = ground (
    arith,
    read_lem b 1 s s1 (leading ∷ []) h,
    read_lem b (length rest) s1 s2 rest k,
    ap (λ (f : Call B DecodeError ℕ). f s1) way,
  )

  char_run_short :
      (c : ℕ) (s s1 : B)
      → c < 0x80
      → b.read 1 s ≡ (ok (c ∷ []), s1)
      → Decode.decode char_decode B b s ≡ (ok c, s1)
  unfolding char_decode
  char_run_short c s s1 small h = ground (arith, read_lem b 1 s s1 (c ∷ []) h)

continuation_lem :
    (n : ℕ) (next : ℕ → Outcome (Unit {0}) ℕ) → continuation (continued n) next ≡ next (n % 64)
unfolding continuation
continuation_lem n next =
    let two : (0x80 + n % 64) / 64 ≡ 2 = omega arith in
    let low : (0x80 + n % 64) % 64 ≡ n % 64 = omega arith in rw two (ap next low)

decode_two : (c : ℕ) → c < 0x800 → decode_char_from_bytes (0xC0 + c / 64) (continued c ∷ []) ≡ ok c
unfolding decode_char_from_bytes
decode_two c h =
    let value : (0xC0 + c / 64) % 32 * 64 + c % 64 ≡ c = omega arith in
    rw (continuation_lem c, value) refl

decode_three :
    (c : ℕ)
    → c < 0x10000
    → decode_char_from_bytes (0xE0 + c / 64 / 64) (continued (c / 64) ∷ continued c ∷ []) ≡ ok c
unfolding decode_char_from_bytes
decode_three c h =
    let value : ((0xE0 + c / 64 / 64) % 16 * 64 + c / 64 % 64) * 64 + c % 64 ≡ c = omega arith in
    rw (continuation_lem (c / 64), continuation_lem c, value) refl

decode_four :
    (c : ℕ)
    → c < 0x200000
    → decode_char_from_bytes
        (0xF0 + c / 64 / 64 / 64)
        (continued (c / 64 / 64) ∷ continued (c / 64) ∷ continued c ∷ [])
      ≡ ok c
unfolding decode_char_from_bytes
decode_four c h =
    let value : (((0xF0 + c / 64 / 64 / 64) % 8 * 64 + c / 64 / 64 % 64) * 64 + c / 64 % 64) * 64
          + c % 64
        ≡ c =
      omega arith in
    rw (continuation_lem (c / 64 / 64), continuation_lem (c / 64), continuation_lem c, value) refl

module _ (B : Type 0) (b : DecodeBearer B) (bl : DecodeBearerLaws b) where
  open bl use {Aligned}

  -- A leading byte and the bytes that it asks for.
  long_decoded :
      (leading c : ℕ) (rest : List ℕ) (s : B) (cs : List (List ℕ))
      → decode_char_from_bytes leading rest ≡ ok c
      → char_rest B b leading ≡ char_long B b leading (length rest)
      → Aligned s ((leading ∷ rest) ∷ cs)
      → (s' : B) × (Decode.decode char_decode B b s ≡ (ok c, s')) × Aligned s' cs
  long_decoded leading c rest s cs e way al =
      let (s1, run1, al1) =
        bl.read_chunk s (leading ∷ []) (rest ∷ cs)
          (bl.split_chunk s (leading ∷ []) rest cs (omega arith) al) in
      let (s2, run2, al2) = bl.read_chunk s1 rest cs al1 in
      (s2, char_run_long B b leading c rest s s1 s2 run1 run2 e way, al2)

  char_decoded :
      (c : ℕ) (s : B) (cs : List (List ℕ))
      → c < 0x110000
      → Aligned s (encode_utf8 c ∷ cs)
      → (s' : B) × (Decode.decode char_decode B b s ≡ (ok c, s')) × Aligned s' cs
  unfolding encode_utf8 char_rest
  char_decoded c s cs h al = elim (Bool-cases (ltb c 0x80)) [
    | inl t ↦
        let (s', run, al') = bl.read_chunk s (c ∷ []) cs (rw t at al) in
        (s', char_run_short B b c s s' (ltb→lt _ _ t) run, al')
    | inr t ↦ elim (Bool-cases (ltb c 0x800)) [
      | inl u ↦
          long_decoded (0xC0 + c / 64) c (continued c ∷ []) s cs (decode_two c (ltb→lt _ _ u))
            (way_two c (ltb_false→le _ _ t) (ltb→lt _ _ u)) (rw (t, u) at al)
      | inr u ↦ elim (Bool-cases (ltb c 0x10000)) [
        | inl v ↦
            long_decoded (0xE0 + c / 64 / 64) c (continued (c / 64) ∷ continued c ∷ []) s cs
              (decode_three c (ltb→lt _ _ v)) (way_three c (ltb→lt _ _ v)) (rw (t, u, v) at al)
        | inr v ↦
            long_decoded (0xF0 + c / 64 / 64 / 64) c
              (continued (c / 64 / 64) ∷ continued (c / 64) ∷ continued c ∷ []) s cs
              (decode_four c (omega arith)) (way_four c h) (rw (t, u, v) at al)
      ]
    ]
  ]
    where
      way_two :
          (k : ℕ)
          → 0x80 ≤ k
          → k < 0x800
          → char_rest B b (0xC0 + k / 64) ≡ char_long B b (0xC0 + k / 64) 1
      way_two k lo hi = ground arith

      way_three :
          (k : ℕ)
          → k < 0x10000
          → char_rest B b (0xE0 + k / 64 / 64) ≡ char_long B b (0xE0 + k / 64 / 64) 2
      way_three k hi = ground arith

      way_four :
          (k : ℕ)
          → k < 0x110000
          → char_rest B b (0xF0 + k / 64 / 64 / 64) ≡ char_long B b (0xF0 + k / 64 / 64 / 64) 3
      way_four k hi = ground arith

utf8-small : (c : ℕ) → length (encode_utf8 c) ≤ region_size
unfolding encode_utf8
utf8-small c = ground arith

-- A character is one chunk, its UTF-8 form.
pub char-RoundTrips :
    RoundTrips char_encode char_decode (λ c. encode_utf8 c ∷ []) (λ c. c < 0x110000)
unfolding char_encode
char-RoundTrips = record {
  chunks_small = λ c. (utf8-small c, tt);
  encoded = λ B b c s. writing-one b (encode_utf8 c) s;
  decoded = λ B b bl c s cs valid al. char_decoded B b bl c s cs valid al;
}
