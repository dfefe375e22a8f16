-- ===== src/Codec/Pointer.antt =====
-- Integers of the width of a pointer, references, boxes and counted pointers, and `PhantomData`.
use barrique.Base.{
  ℕ, ◌+◌, ◌-◌, ◌*◌, ◌%◌, ◌<◌, ◌^◌, ◌≡◌, ap, ◌∙◌, List, [], ◌∷◌, ok, pure, gets, ◌>>=◌, arith, ltb,
  if◌then◌else◌, ◌⊎◌, inl, inr,
}
use barrique.Bytes.{to_le_bytes, from_le_bytes, from_le_bytes-to_le_bytes}
use barrique.Stream.{EncodeBearer, DecodeBearer}
use barrique.Codec.{Encode, Decode, write, read}
use barrique.Codec.Laws.{DecodeBearerLaws, writing, writing-one, read_lem}

-- `impl_int!($type as $as)`. A value of `$type` is its bit pattern of `w` bytes; `widen` is the cast
-- to `$as`, of eight bytes, and the cast back cuts off.
unfoldable pub cast_encode : (ℕ → ℕ) → Encode ℕ
cast_encode widen = record { encode = λ B b v. write b (to_le_bytes 8 (widen v)); size_of = λ v. 8 }

unfoldable pub cast_decode : ℕ → Decode ℕ
cast_decode w = record {
  decode = λ B b. (do bytes ← read b 8; gets (λ _. ok (from_le_bytes bytes % 256 ^ w)));
}

-- `usize as u64` on a target of `w` bytes, at most eight.
abbrev pub zero_extend : ℕ → ℕ → ℕ
zero_extend w v = v

-- `isize as i64`: the upper half of the patterns is that of the negative numbers.
abbrev pub sign_extend : ℕ → ℕ → ℕ
sign_extend w v = if ltb (2 * v) (256 ^ w) then v else v + (256 ^ 8 - 256 ^ w)

-- The widths of a pointer.
abbrev pub IsWidth : ℕ → Type 0
IsWidth w = (w ≡ 2) ⊎ ((w ≡ 4) ⊎ (w ≡ 8))

widths_small : (w v : ℕ) → IsWidth w → v < 256 ^ w → v < 256 ^ 8
widths_small w v (inl e) h = let k : v < 256 ^ 2 = rw e at h in omega arith
widths_small w v (inr (inl e)) h = let k : v < 256 ^ 4 = rw e at h in omega arith
widths_small w v (inr (inr e)) h = rw e at h

sign_extend_back :
    (w v : ℕ)
    → IsWidth w
    → v < 256 ^ w
    → (sign_extend w v < 256 ^ 8) × (sign_extend w v % 256 ^ w ≡ v)
sign_extend_back w v (inl e) h = rw e (ground (arith, rw e at h))
sign_extend_back w v (inr (inl e)) h = rw e (ground (arith, rw e at h))
sign_extend_back w v (inr (inr e)) h = rw e (ground (arith, rw e at h))

module _ {C : Type 0} (c : DecodeBearer C) (cl : DecodeBearerLaws c) where
  open cl use {Aligned}

  cast_run :
      (w n : ℕ) (s s' : C)
      → c.read 8 s ≡ (ok (to_le_bytes 8 n), s')
      → n < 256 ^ 8
      → Decode.decode (cast_decode w) C c s ≡ (ok (n % 256 ^ w), s')
  unfolding cast_decode
  cast_run w n s s' e h = ground (
    arith,
    read_lem c 8 s s' (to_le_bytes 8 n) e,
    ap (λ k. k % 256 ^ w) (from_le_bytes-to_le_bytes 8 n h),
  )

  cast_through :
      {B : Type 0} (b : EncodeBearer B) (widen : ℕ → ℕ) (w v : ℕ) (s : B) (t : C)
      (cs : List (List ℕ))
      → widen v < 256 ^ 8
      → Aligned t (to_le_bytes 8 (widen v) ∷ cs)
      → (Encode.encode (cast_encode widen) B b v s ≡ writing b (to_le_bytes 8 (widen v) ∷ []) s)
        × (t' : C) × (Decode.decode (cast_decode w) C c t ≡ (ok (widen v % 256 ^ w), t'))
        × Aligned t' cs
  unfolding cast_encode
  cast_through b widen w v s t cs h al =
      let (t', run, rest) = cl.read_chunk t (to_le_bytes 8 (widen v)) cs al in
      (writing-one b (to_le_bytes 8 (widen v)) s, t', cast_run w (widen v) t t' run h, rest)

  -- A `usize` is written as eight bytes on any target, up to the first error of the bearer, and read
  -- from them on a target of `q` bytes as its lowest `q` bytes: a value that does not fit there is cut off
  -- without an error. A target has pointers of two, four or eight bytes.
  pub usize_through :
      {B : Type 0} (b : EncodeBearer B) (p q v : ℕ) (s : B) (t : C) (cs : List (List ℕ))
      → IsWidth p
      → v < 256 ^ p
      → Aligned t (to_le_bytes 8 v ∷ cs)
      → (Encode.encode (cast_encode (zero_extend p)) B b v s ≡ writing b (to_le_bytes 8 v ∷ []) s)
        × (t' : C) × (Decode.decode (cast_decode q) C c t ≡ (ok (v % 256 ^ q), t'))
        × Aligned t' cs
  usize_through b p q v s t cs le h al =
      cast_through b (zero_extend p) q v s t cs (widths_small p v le h) al

  -- An `isize` is written as the eight bytes of its sign extension, up to the first error of the bearer,
  -- and read back from them on a target of the same width. A target has pointers of two, four or eight
  -- bytes.
  pub isize_through :
      {B : Type 0} (b : EncodeBearer B) (w v : ℕ) (s : B) (t : C) (cs : List (List ℕ))
      → IsWidth w
      → v < 256 ^ w
      → Aligned t (to_le_bytes 8 (sign_extend w v) ∷ cs)
      → (Encode.encode (cast_encode (sign_extend w)) B b v s
          ≡ writing b (to_le_bytes 8 (sign_extend w v) ∷ []) s)
        × (t' : C) × (Decode.decode (cast_decode w) C c t ≡ (ok v, t'))
        × Aligned t' cs
  isize_through b w v s t cs width h al =
      let (small, back) = sign_extend_back w v width h in
      let (out, t', run, rest) = cast_through b (sign_extend w) w v s t cs small al in
      (out, t', run ∙ ap (λ n. (ok n, t')) back, rest)

module _ {T : Type 0} (e : Encode T) where
  -- `Encode` of `&T`, and of `Box<T>`, `Arc<T>` and `Rc<T>`: `T::encode(bearer, src)`. A pointer is the
  -- value that it points to.
  unfoldable pub ref_encode : Encode T
  ref_encode = record { encode = λ B b src. e.encode B b src; size_of = λ src. e.size_of src }

  unfoldable pub heap_ptr_encode : Encode T
  heap_ptr_encode = record { encode = λ B b src. e.encode B b src; size_of = λ src. e.size_of src }

-- `PhantomData<T>`
unfoldable pub phantom_encode : Encode (Unit {0})
phantom_encode = record { encode = λ B b v. pure tt; size_of = λ v. 0 }

unfoldable pub phantom_decode : Decode (Unit {0})
phantom_decode = record { decode = λ B b. pure tt }
