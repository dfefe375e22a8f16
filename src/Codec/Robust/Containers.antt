-- ===== src/Codec/Robust/Containers.antt =====
-- `Option`, `Result`, arrays, `Vec` and `String` from arbitrary bytes.
use barrique.Base.{
  ℕ, zero, suc, ◌*◌, ◌^◌, ◌≤◌, ◌<◌, ◌≡◌, refl, ok, err, panic, Ensures-at, le→ltb_false, false,
  Bool, true, Option, none, some, List, length, All, Ensures, Ensures-ok, Ensures-err, Ensures-bind,
  Ensures-weaken, arith, ◌==◌, Bool-cases, inl, inr, ltb, ◌⊎◌, ap,
}
use barrique.Stream.{DecodeBearer}
use barrique.Codec.{DecodeError, Encode, Decode, get}
use barrique.Codec.Int.{int_encode, int_decode}
use barrique.Codec.Scalar.{front}
use barrique.Codec.Sum.{option_decode, result_decode}
use barrique.Codec.Seq.{decode_items, array_decode, vec_decode}
use barrique.Codec.Text.{string_decode}
use barrique.Codec.Robust.{SoundBearer, Robust, sound_read}
use barrique.Codec.Robust.Scalars.{int-Robust}

module _ {T : Type 0} (e : Encode T) (d : Decode T) {Q : T → Type 0} (rob : Robust d Q) where
  abbrev IsNoneOr : Option T → Type 0
  IsNoneOr none = Unit {0}
  IsNoneOr (some v) = Q v

  option_sound :
      (B : Type 0) (b : DecodeBearer B) (sb : SoundBearer b) (s : B)
      → SoundBearer.IsSound sb s
      → Ensures
          (λ v s'. IsNoneOr v × SoundBearer.IsSound sb s')
          (Decode.decode (option_decode e d) B b s)
  unfolding option_decode get
  option_sound B b sb s h = Ensures-bind (sound_read b sb 1 s h) (λ bytes k.
      elim (Bool-cases (front bytes == 0)) [
        | inl e0 ↦ rw e0 (Ensures-ok (tt, k.2))
        | inr e0 ↦ elim (Bool-cases (front bytes == 1)) [
          | inl e1 ↦
              rw (e0, e1) (Ensures-bind (rob.decoded_any B b sb _ k.2) (λ v k'. Ensures-ok k'))
          | inr e1 ↦ rw (e0, e1) Ensures-err
        ]
      ])

  -- An `Option` from arbitrary bytes.
  pub option-Robust : Robust (option_decode e d) IsNoneOr
  option-Robust = record { decoded_any = option_sound }

  items_sound :
      (B : Type 0) (b : DecodeBearer B) (sb : SoundBearer b) (n : ℕ) (s : B)
      → SoundBearer.IsSound sb s
      → Ensures
          (λ vs s'. ((length vs ≡ n) × All Q vs) × SoundBearer.IsSound sb s')
          (decode_items e d B b n s)
  unfolding decode_items
  items_sound B b sb zero s h = Ensures-ok ((refl, tt), h)
  items_sound B b sb (suc n) s h = Ensures-bind (rob.decoded_any B b sb s h) (λ v k.
      Ensures-bind (items_sound B b sb n _ k.1)
        (λ vs k'. Ensures-ok ((ap suc k'.0.0, (k.0, k'.0.1)), k'.1)))

  -- `[T; N]` from arbitrary bytes has `N` items.
  pub array-Robust : (n : ℕ) → Robust (array_decode e d n) (λ vs. (length vs ≡ n) × All Q vs)
  unfolding array_decode
  array-Robust n = record { decoded_any = λ B b sb s h. items_sound B b sb n s h }

  -- The bearer once a length is read.
  counted :
      (B : Type 0) (b : DecodeBearer B) (sb : SoundBearer b) (s t : B) (len : ℕ)
      → SoundBearer.IsSound sb s
      → get (int_decode 4) b s ≡ (ok len, t)
      → SoundBearer.IsSound sb t
  unfolding get
  counted B b sb s t len h run =
      (Ensures-at {G = λ n s'. (n < 256 ^ 4) × SoundBearer.IsSound sb s'}
        (Robust.decoded_any (int-Robust 4) B b sb s h) run).1

  vec_items :
      (isize_max layout : ℕ) (B : Type 0) (b : DecodeBearer B) (s t : B) (len : ℕ)
      → get (int_decode 4) b s ≡ (ok len, t)
      → len ≤ isize_max
      → len * layout ≤ isize_max
      → Decode.decode (vec_decode e d isize_max layout) B b s ≡ decode_items e d B b len t
  unfolding vec_decode
  vec_items isize_max layout B b s t len h k l = ground (arith, h)

  -- `decode` of a `Vec` whose length was read as `len`. A length above `isize::MAX` is refused, with
  -- nothing more read. Otherwise, items of `layout` bytes that would take more than `isize::MAX` bytes
  -- are a panic, before any of them is read. Where they fit, `decode` does not panic, and a `Vec` that
  -- it returns has just `len` items, each with the property `Q`. The bearer returns bytes, as many as
  -- it is asked for, or an error, and from such a bearer the decoder of the items does not panic and
  -- returns only values with `Q`.
  pub vec_decode_lem :
      (isize_max layout : ℕ) (B : Type 0) (b : DecodeBearer B) (sb : SoundBearer b) (s t : B)
      (len : ℕ)
      → SoundBearer.IsSound sb s
      → get (int_decode 4) b s ≡ (ok len, t)
      → ((isize_max < len)
          × (Decode.decode (vec_decode e d isize_max layout) B b s
              ≡ (err (DecodeError.other "Length exceeds isize::MAX"), t)))
        ⊎ (((len ≤ isize_max)
              × (isize_max < len * layout)
              × (Decode.decode (vec_decode e d isize_max layout) B b s ≡ (panic, t)))
            ⊎ ((len ≤ isize_max)
                × (len * layout ≤ isize_max)
                × Ensures
                    (λ vs s'. ((length vs ≡ len) × All Q vs) × SoundBearer.IsSound sb s')
                    (Decode.decode (vec_decode e d isize_max layout) B b s)))
  unfolding vec_decode
  vec_decode_lem isize_max layout B b sb s t len h run = elim (Bool-cases (ltb isize_max len)) [
    | inl long ↦ inl (ground arith, ground (arith, run, long))
    | inr short ↦ elim (Bool-cases (ltb isize_max (len * layout))) [
      | inl wide ↦ inr (inl (ground arith, ground arith, ground (arith, run, short, wide)))
      | inr fits ↦ inr (
          inr (
            ground arith,
            ground arith,
            rw (vec_items isize_max layout B b s t len run (ground arith) (ground arith))
                (items_sound B b sb len t (counted B b sb s t len h run)),
          ))
    ]
  ]

  -- Where the items fit whatever length is read, the decoding of a `Vec` does not panic.
  vec_sound :
      (isize_max layout : ℕ)
      → ((n : ℕ) → n ≤ isize_max → n < 2 ^ 32 → n * layout ≤ isize_max)
      → (B : Type 0) (b : DecodeBearer B) (sb : SoundBearer b) (s : B) → SoundBearer.IsSound sb s
      → Ensures
          (λ vs s'. ((length vs < 2 ^ 32) × All Q vs) × SoundBearer.IsSound sb s')
          (Decode.decode (vec_decode e d isize_max layout) B b s)
  unfolding vec_decode get
  vec_sound isize_max layout fits B b sb s h =
      Ensures-bind (Robust.decoded_any (int-Robust 4) B b sb s h) (λ n k.
        elim (Bool-cases (ltb isize_max n)) [
          | inl long ↦ rw long Ensures-err
          | inr short ↦
              let room : ltb isize_max (n * layout) ≡ false =
                le→ltb_false isize_max (n * layout) (fits n (ground arith) (omega (arith, k.0))) in
              rw (short, room)
                (Ensures-weaken (items_sound B b sb n _ k.1)
                  (λ vs s' q. ((omega (arith, q.0.0, k.0), q.0.1), q.1)))
        ])

  pub vec-Robust :
      (isize_max layout : ℕ)
      → ((n : ℕ) → n ≤ isize_max → n < 2 ^ 32 → n * layout ≤ isize_max)
      → Robust (vec_decode e d isize_max layout) (λ vs. (length vs < 2 ^ 32) × All Q vs)
  vec-Robust isize_max layout fits = record { decoded_any = vec_sound isize_max layout fits }

module _ (from_utf8 : List ℕ → Bool) where
  -- From a bearer that delivers any bytes at all, the decoding of a `String` does not panic, and where
  -- it succeeds the text is UTF-8.
  pub string_sound :
      (isize_max : ℕ) (B : Type 0) (b : DecodeBearer B) (sb : SoundBearer b) (s : B)
      → SoundBearer.IsSound sb s
      → Ensures
          (λ text s'. (from_utf8 text ≡ true) × SoundBearer.IsSound sb s')
          (Decode.decode (string_decode from_utf8 isize_max) B b s)
  unfolding string_decode get
  string_sound isize_max B b sb s h =
      Ensures-bind
        (Robust.decoded_any
          (vec-Robust (int_encode 1) (int_decode 1) (int-Robust 1) isize_max 1
            (λ n k l. omega arith))
          B b sb s h)
        (λ text k. elim (Bool-cases (from_utf8 text)) [
          | inl e ↦ rw e (Ensures-ok (e, k.1))
          | inr e ↦ rw e Ensures-err
        ])

  pub string-Robust :
      (isize_max : ℕ) → Robust (string_decode from_utf8 isize_max) (λ text. from_utf8 text ≡ true)
  string-Robust isize_max = record { decoded_any = string_sound isize_max }

module _ {T E : Type 0} (et : Encode T) (dt : Decode T) (ee : Encode E) (de : Decode E)
    {P : T → Type 0} {Q : E → Type 0} (p : Robust dt P) (q : Robust de Q) where
  abbrev IsEither : T ⊎ E → Type 0
  IsEither (inl v) = P v
  IsEither (inr v) = Q v

  result_sound :
      (B : Type 0) (b : DecodeBearer B) (sb : SoundBearer b) (s : B)
      → SoundBearer.IsSound sb s
      → Ensures
          (λ v s'. IsEither v × SoundBearer.IsSound sb s')
          (Decode.decode (result_decode et dt ee de) B b s)
  unfolding result_decode get
  result_sound B b sb s h = Ensures-bind (sound_read b sb 1 s h) (λ bytes k.
      elim (Bool-cases (front bytes == 0)) [
        | inl e0 ↦ rw e0 (Ensures-bind (q.decoded_any B b sb _ k.2) (λ v k'. Ensures-ok k'))
        | inr e0 ↦ elim (Bool-cases (front bytes == 1)) [
          | inl e1 ↦ rw (e0, e1) (Ensures-bind (p.decoded_any B b sb _ k.2) (λ v k'. Ensures-ok k'))
          | inr e1 ↦ rw (e0, e1) Ensures-err
        ]
      ])

  -- A `Result` from arbitrary bytes.
  pub result-Robust : Robust (result_decode et dt ee de) IsEither
  result-Robust = record { decoded_any = result_sound }
