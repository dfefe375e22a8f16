-- ===== src/Codec/Seq.antt =====
-- Slices, arrays, `Vec` and `VecDeque`.
use barrique.Base.{
  ℕ, zero, suc, ◌+◌, ◌*◌, ◌%◌, ◌^◌, ◌≤◌, ◌<◌, ◌≡◌, refl, sym, ap, ◌∙◌, List, [], ◌∷◌, ◌++◌, length,
  ok, err, panic, Call, pure, gets, when, ◌>>=◌, ◌>>◌, All, arith, ltb, append_assoc, All-append,
  subst,
}
use barrique.Bytes.{to_le_bytes}
use barrique.Region.{region_size}
use barrique.Stream.{EncodeBearer, DecodeBearer}
use barrique.Codec.{EncodeError, DecodeError, Encode, Decode, get}
use barrique.Codec.Int.{int_encode, int_decode, int-RoundTrips}
use barrique.Codec.Laws.{DecodeBearerLaws, RoundTrips, writing, writing-nil, writing_then}

module _ {T : Type 0} (e : Encode T) (d : Decode T) where
  -- `for item in src { T::encode(bearer, item)?; }`
  unfoldable pub encode_items :
      (B : Type 0) → EncodeBearer B → List T → Call B EncodeError (Unit {0})
  encode_items B b [] = pure tt
  encode_items B b (v ∷ vs) = e.encode B b v >> encode_items B b vs

  abbrev pub items_size : List T → ℕ
  items_size [] = 0
  items_size (v ∷ vs) = e.size_of v + items_size vs

  -- `for _ in 0..n { T::decode(bearer, slot)?; }`
  unfoldable pub decode_items : (B : Type 0) → DecodeBearer B → ℕ → Call B DecodeError (List T)
  decode_items B b zero = pure []
  decode_items B b (suc n) = do v ← d.decode B b; vs ← decode_items B b n; gets (λ _. ok (v ∷ vs))

  -- `[T; N]`
  unfoldable pub array_encode : Encode (List T)
  unfolding encode_items
  array_encode = record { encode = encode_items; size_of = items_size }

  unfoldable pub array_decode : ℕ → Decode (List T)
  unfolding decode_items
  array_decode n = record { decode = λ B b. decode_items B b n }

  -- `[T]`, with the length as a `u32`
  unfoldable pub slice_encode : Encode (List T)
  unfolding encode_items int_encode
  slice_encode = record {
    encode = λ B b vs. Encode.encode (int_encode 4) B b (length vs % 2 ^ 32) >> encode_items B b vs;
    size_of = λ vs. items_size vs + 4;
  }

  -- `Vec<T>`; `layout` is `size_of::<T>()`, the size in memory.
  unfoldable pub vec_encode : ℕ → Encode (List T)
  unfolding slice_encode
  vec_encode layout = record {
    encode = Encode.encode slice_encode;
    size_of = λ vs. length vs * layout;
  }

  -- `Vec::with_capacity` panics where the items would take more than `isize::MAX` bytes. `isize_max` is
  -- that of a target whose `usize` has 32 bits or more.
  unfoldable pub vec_decode : (isize_max layout : ℕ) → Decode (List T)
  unfolding decode_items get int_decode
  vec_decode isize_max layout = record {
    decode = λ B b. (do
      len ← get (int_decode 4) b
      when (ltb isize_max len) (gets (λ _. err (DecodeError.other "Length exceeds isize::MAX")))
      when (ltb isize_max (len * layout)) (gets (λ _. panic))
      decode_items B b len);
  }

  -- `VecDeque<T>` as its two slices; one made from a `Vec` is contiguous.
  unfoldable pub deque_encode : ℕ → Encode (List T × List T)
  unfolding encode_items int_encode
  deque_encode layout = record {
    encode = λ B b v.
        Encode.encode (int_encode 4) B b (length (v.0 ++ v.1) % 2 ^ 32)
        >> (encode_items B b v.0 >> encode_items B b v.1);
    size_of = λ v. length (v.0 ++ v.1) * layout;
  }

  unfoldable pub deque_decode : (isize_max layout : ℕ) → Decode (List T × List T)
  unfolding get vec_decode
  deque_decode isize_max layout = record {
    decode = λ B b. (do vs ← get (vec_decode isize_max layout) b; gets (λ _. ok (vs, [])));
  }

  deque_items :
      (B : Type 0) (b : EncodeBearer B) (xs ys : List T) (s : B)
      → (encode_items B b xs >> encode_items B b ys) s ≡ encode_items B b (xs ++ ys) s
  unfolding encode_items
  deque_items B b [] ys s = refl
  deque_items B b (x ∷ xs) ys s = ground (arith, deque_items B b xs ys (e.encode B b x s).1)

  -- A deque is written as the `Vec` of its items, front slice first, however it is laid out.
  pub deque_encode-vec_encode :
      (layout : ℕ) (B : Type 0) (b : EncodeBearer B) (front back : List T) (s : B)
      → Encode.encode (deque_encode layout) B b (front, back) s
        ≡ Encode.encode (vec_encode layout) B b (front ++ back) s
  unfolding deque_encode vec_encode slice_encode
  deque_encode-vec_encode layout B b front back s = ground (
    arith,
    deque_items B b front back
        (Encode.encode (int_encode 4) B b (length (front ++ back) % 2 ^ 32) s).1,
  )

  module _ (chunks : T → List (List ℕ)) (IsValid : T → Type 0)
      (rt : RoundTrips e d chunks IsValid) where
    abbrev pub items_chunks : List T → List (List ℕ)
    items_chunks [] = []
    items_chunks (v ∷ vs) = chunks v ++ items_chunks vs

    items_small : (vs : List T) → All (λ c. length c ≤ region_size) (items_chunks vs)
    items_small [] = tt
    items_small (v ∷ vs) =
        All-append _ (chunks v) (items_chunks vs) (rt.chunks_small v) (items_small vs)

    items_encoded :
        (B : Type 0) (b : EncodeBearer B) (vs : List T) (s : B)
        → encode_items B b vs s ≡ writing b (items_chunks vs) s
    unfolding encode_items
    items_encoded B b [] s = sym (writing-nil b s)
    items_encoded B b (v ∷ vs) s =
        writing_then b (e.encode B b v) (encode_items B b vs) (chunks v) (items_chunks vs) s
          (rt.encoded B b v) (items_encoded B b vs)

    items_decoded :
        (B : Type 0) (b : DecodeBearer B) (bl : DecodeBearerLaws b) (vs : List T) (s : B)
        (cs : List (List ℕ))
        → All IsValid vs
        → DecodeBearerLaws.Aligned bl s (items_chunks vs ++ cs)
        → (s' : B) × (decode_items B b (length vs) s ≡ (ok vs, s'))
          × DecodeBearerLaws.Aligned bl s' cs
    unfolding decode_items
    items_decoded B b bl [] s cs valid al = (s, refl, al)
    items_decoded B b bl (v ∷ vs) s cs (valid, valids) al =
        let al' =
          subst (λ l. DecodeBearerLaws.Aligned bl s l)
            (append_assoc (chunks v) (items_chunks vs) cs) al in
        let (s1, run1, al1) = rt.decoded B b bl v s (items_chunks vs ++ cs) valid al' in
        let (s2, run2, al2) = items_decoded B b bl vs s1 cs valids al1 in
        (s2, ground (arith, run1, run2), al2)

    -- An array is read back as it was written.
    pub array-RoundTrips :
        (n : ℕ)
        → RoundTrips array_encode
            (array_decode n)
            items_chunks
            (λ vs. (length vs ≡ n) × All IsValid vs)
    unfolding array_encode array_decode
    array-RoundTrips n = record {
      chunks_small = items_small;
      encoded = items_encoded;
      decoded = λ B b bl vs s cs valid al.
          subst
            (λ k.
              (s' : B) × (decode_items B b k s ≡ (ok vs, s')) × DecodeBearerLaws.Aligned bl s' cs)
            valid.0 (items_decoded B b bl vs s cs valid.1 al);
    }

    abbrev pub vec_chunks : List T → List (List ℕ)
    vec_chunks vs = to_le_bytes 4 (length vs % 2 ^ 32) ∷ items_chunks vs

    -- The length is written in 32 bits, and the items take at most `isize::MAX` bytes of memory.
    abbrev pub VecValid : (isize_max layout : ℕ) → List T → Type 0
    VecValid isize_max layout vs =
        (length vs < 2 ^ 32)
        × (length vs ≤ isize_max)
        × (length vs * layout ≤ isize_max)
        × All IsValid vs

    pub slice_encoded :
        (B : Type 0) (b : EncodeBearer B) (vs : List T) (s : B)
        → Encode.encode slice_encode B b vs s ≡ writing b (vec_chunks vs) s
    unfolding slice_encode
    slice_encoded B b vs s =
        writing_then b (Encode.encode (int_encode 4) B b (length vs % 2 ^ 32)) (encode_items B b vs)
          (to_le_bytes 4 (length vs % 2 ^ 32) ∷ []) (items_chunks vs) s
          ((int-RoundTrips 4 (omega arith)).encoded B b (length vs % 2 ^ 32)) (items_encoded B b vs)

    vec_run :
        (isize_max layout : ℕ) (B : Type 0) (b : DecodeBearer B) (n : ℕ) (vs : List T) (s s1 s2 : B)
        → n ≤ isize_max
        → n * layout ≤ isize_max
        → Decode.decode (int_decode 4) B b s ≡ (ok n, s1)
        → decode_items B b n s1 ≡ (ok vs, s2)
        → Decode.decode (vec_decode isize_max layout) B b s ≡ (ok vs, s2)
    unfolding vec_decode get
    vec_run isize_max layout B b n vs s s1 s2 h k e1 e2 = ground arith

    vec_decoded :
        (isize_max layout : ℕ) (B : Type 0) (b : DecodeBearer B) (bl : DecodeBearerLaws b)
        (vs : List T) (s : B) (cs : List (List ℕ))
        → VecValid isize_max layout vs
        → DecodeBearerLaws.Aligned bl s (vec_chunks vs ++ cs)
        → (s' : B) × (Decode.decode (vec_decode isize_max layout) B b s ≡ (ok vs, s'))
          × DecodeBearerLaws.Aligned bl s' cs
    vec_decoded isize_max layout B b bl vs s cs (short, few, fits, valid) al =
        let n : ℕ = length vs % 2 ^ 32 in
        let (s1, run1, al1) =
          (int-RoundTrips 4 (omega arith)).decoded B b bl n s (items_chunks vs ++ cs) (omega arith)
            al in
        let (s2, run2, al2) = items_decoded B b bl vs s1 cs valid al1 in
        (
          s2,
          vec_run isize_max layout B b (length vs) vs s s1 s2 few fits
              (run1 ∙ ap (λ k. (ok k, s1)) (omega arith)) run2,
          al2,
        )

    -- A `Vec` of fewer than 2 ^ 32 items is read back as it was written, and so is a slice.
    pub vec-RoundTrips :
        (isize_max layout : ℕ)
        → RoundTrips
            (vec_encode layout)
            (vec_decode isize_max layout)
            vec_chunks
            (VecValid isize_max layout)
    unfolding vec_encode
    vec-RoundTrips isize_max layout = record {
      chunks_small = λ vs. (omega arith, items_small vs);
      encoded = slice_encoded;
      decoded = vec_decoded isize_max layout;
    }
