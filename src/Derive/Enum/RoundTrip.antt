-- ===== src/Derive/Enum/RoundTrip.antt =====
-- The derived `encode` of an enum against its derived `decode`.
use Prim.Native.String.{String}
use native.Mathlib.Nat.{mod-eq_of_lt}
use barrique.Base.{
  Outcome, ℕ, zero, suc, ◌^◌, ◌%◌, ◌≤◌, ◌<◌, ◌≡◌, refl, subst, ap, ◌∙◌, true, Option, some, List,
  [], ◌∷◌, ◌++◌, length, ok, err, panic, arith, append_assoc,
}
use barrique.Bytes.{to_le_bytes}
use barrique.Region.{region_size}
use barrique.Stream.{EncodeBearer, DecodeBearer}
use barrique.Codec.{get, DecodeError, Encode, Decode}
use barrique.Codec.Int.{int_encode, int_decode, int-RoundTrips}
use barrique.Codec.Laws.{DecodeBearerLaws, RoundTrips, writing, writing_then}
use barrique.Derive.{Field, run}
use barrique.Derive.Found.{Own, fields, own_chunks, all_chunks, AllIsValid, run-Finds}
use barrique.Derive.Struct.{struct_field}
use barrique.Derive.Struct.RoundTrip.{field_back}
use barrique.Derive.Enum.{
  Variant, tag_width, tag_of, variant_statements, match_arm, variant_fields, enum_encode,
  decode_fields, decode_variant, decode_arms, enum_decode,
}
use barrique.Derive.Enum.Parsed.{
  is_plain, none_with, none_with_any, none_with-cons, none_with_any-cons, own_value, own_values,
  own_arms, enum_decode-some,
}
use barrique.Derive.Enum.Patterns.{Patterned, variant_finds}

module _ {V : Type 0} where
  module _ {B : Type 0} (b : DecodeBearer B) (bl : DecodeBearerLaws b) where
    open bl use {Aligned}

    own_value-struct_field :
        (f : Field V) (s : B) → is_plain f ≡ true → own_value f B b s ≡ struct_field f B b s
    unfolding struct_field
    own_value-struct_field f s h = ground arith

    decode_fields_cons :
        (f : Field V) (fs : List (Field V)) (v : V) (vs : List V) (s s1 s2 : B)
        → own_value f B b s ≡ (ok v, s1)
        → decode_fields B b (own_values fs) s1 ≡ (ok vs, s2)
        → decode_fields B b (own_values (f ∷ fs)) s ≡ (ok (v ∷ vs), s2)
    unfolding decode_fields
    decode_fields_cons f fs v vs s s1 s2 h k = ground arith

    fields_back :
        (os : List (Own V)) (vs : List V) (s : B) (cs : List (List ℕ))
        → length vs ≡ length os
        → none_with (fields os) ≡ true
        → AllIsValid os vs
        → Aligned s (all_chunks os vs ++ cs)
        → (s' : B) × (decode_fields B b (own_values (fields os)) s ≡ (ok vs, s')) × Aligned s' cs
    unfolding decode_fields
    fields_back [] [] s cs l n h a = (s, refl, a)
    fields_back [] (v ∷ vs) s cs l n h a = absurd (omega arith)
    fields_back (o ∷ os) [] s cs l n h a = absurd (omega arith)
    fields_back (o ∷ os) (v ∷ vs) s cs l n (h, hs) a =
        let (plain, ns) = none_with-cons o.field (fields os) n in
        let (s1, run, rest) =
          field_back b bl o v s (all_chunks os vs ++ cs) h
            (subst (Aligned s) (append_assoc (own_chunks o v) (all_chunks os vs) cs) a) in
        let (s2, runs, rest') = fields_back os vs s1 cs (omega arith) ns hs rest in
        (
          s2,
          decode_fields_cons o.field (fields os) v vs s s1 s2
              (own_value-struct_field o.field s plain ∙ run) runs,
          rest',
        )

abbrev with_tag : {E V : Type 0} → ℕ → Outcome E V → Outcome E (ℕ × V)
with_tag tag (ok v) = ok (tag, v)
with_tag tag (err e) = err e
with_tag tag panic = panic

tag_of-fits :
    (repr : Option ℕ) (idx : ℕ) → idx < 2 ^ 32 → idx < 256 ^ tag_width repr → tag_of repr idx ≡ idx
tag_of-fits repr idx h k = ap (λ n. n % 256 ^ tag_width repr) (mod-eq_of_lt h) ∙ mod-eq_of_lt k

-- A variant with what is known of the codecs of its fields.
pub record OwnVariant (V : Type 0) : Type 1 where
  pub ident : String
  pub own : List (Own V)

module _ {V : Type 0} where
  abbrev pub variants_of : List (OwnVariant V) → List (Variant V)
  variants_of [] = []
  variants_of (v ∷ vs) = (record { ident = v.ident; fields = fields v.own }) ∷ variants_of vs

  abbrev pub own_at : List (OwnVariant V) → ℕ → List (Own V)
  own_at [] idx = []
  own_at (v ∷ vs) zero = v.own
  own_at (v ∷ vs) (suc idx) = own_at vs idx

  variant_fields_lem :
      (vs : List (OwnVariant V)) (idx : ℕ)
      → variant_fields (variants_of vs) idx ≡ fields (own_at vs idx)
  variant_fields_lem [] idx = refl
  variant_fields_lem (v ∷ vs) zero = refl
  variant_fields_lem (v ∷ vs) (suc idx) = variant_fields_lem vs idx

  none_with_any-at :
      (vs : List (OwnVariant V)) (idx : ℕ)
      → idx < length vs
      → none_with_any (variants_of vs) ≡ true
      → none_with (fields (own_at vs idx)) ≡ true
  none_with_any-at [] idx h e = absurd (omega arith)
  none_with_any-at (v ∷ vs) zero h e =
      (none_with_any-cons (record { ident = v.ident; fields = fields v.own }) (variants_of vs) e).0
  none_with_any-at (v ∷ vs) (suc idx) h e =
      none_with_any-at vs idx (omega arith)
        (none_with_any-cons (record { ident = v.ident; fields = fields v.own }) (variants_of vs)
          e).1

  -- The arm that a tag of a variant selects, and the last arm for another.
  decode_variant_some :
      (B : Type 0) (b : DecodeBearer B) (vs : List (OwnVariant V)) (idx : ℕ)
      → idx < length vs
      → decode_variant B b (own_arms (variants_of vs)) idx
        ≡ decode_fields B b (own_values (fields (own_at vs idx)))
  unfolding decode_variant
  decode_variant_some B b [] idx h = absurd (omega arith)
  decode_variant_some B b (v ∷ vs) zero h = refl
  decode_variant_some B b (v ∷ vs) (suc idx) h = decode_variant_some B b vs idx (omega arith)

  length-variants_of : (vs : List (OwnVariant V)) → length (variants_of vs) ≡ length vs
  length-variants_of [] = refl
  length-variants_of (v ∷ vs) = ap suc (length-variants_of vs)

  decode_variant_none :
      (B : Type 0) (b : DecodeBearer B) (vs : List (Variant V)) (tag : ℕ)
      → length vs ≤ tag
      → decode_variant B b (own_arms vs) tag ≡ (λ s. (err DecodeError.invalid_pattern, s))
  unfolding decode_variant
  decode_variant_none B b [] tag h = refl
  decode_variant_none B b (v ∷ vs) zero h = absurd (omega arith)
  decode_variant_none B b (v ∷ vs) (suc tag) h = decode_variant_none B b vs tag (omega arith)

module _ {V : Type 0} (variants : List (OwnVariant V)) (repr : Option ℕ)
    (narrow : tag_width repr ≤ region_size) where
  tag_back :
      (tag : ℕ) (B : Type 0) (b : DecodeBearer B) (bl : DecodeBearerLaws b) (s : B)
      (cs : List (List ℕ))
      → tag < 256 ^ tag_width repr
      → DecodeBearerLaws.Aligned bl s (to_le_bytes (tag_width repr) tag ∷ cs)
      → (s' : B) × (Decode.decode (int_decode (tag_width repr)) B b s ≡ (ok tag, s'))
        × DecodeBearerLaws.Aligned bl s' cs
  tag_back tag B b bl s cs h a =
      RoundTrips.decoded (int-RoundTrips (tag_width repr) narrow) B b bl tag s cs h a

  -- The rest of `decode` once the tag is read.
  decode_tagged :
      (tag : ℕ) (B : Type 0) (b : DecodeBearer B) (s s1 s2 : B) (r : Outcome DecodeError (List V))
      → Decode.decode (int_decode (tag_width repr)) B b s ≡ (ok tag, s1)
      → decode_variant B b (own_arms (variants_of variants)) tag s1 ≡ (r, s2)
      → Decode.decode (decode_arms (own_arms (variants_of variants)) repr) B b s
        ≡ (with_tag tag r, s2)
  unfolding decode_arms get
  decode_tagged tag B b s s1 s2 (ok vs) h k = ground (arith, h, k)
  decode_tagged tag B b s s1 s2 (err e) h k = ground (arith, h, k)
  decode_tagged tag B b s s1 s2 panic h k = ground (arith, h, k)

  -- A tag that is not below the number of variants is refused with `InvalidPattern`, and just the tag
  -- is consumed.
  pub enum_decode_invalid :
      (tag : ℕ) (B : Type 0) (b : DecodeBearer B) (bl : DecodeBearerLaws b) (s : B)
      (cs : List (List ℕ))
      → length variants ≤ tag
      → tag < 256 ^ tag_width repr
      → DecodeBearerLaws.Aligned bl s (to_le_bytes (tag_width repr) tag ∷ cs)
      → (s' : B) × (Decode.decode (decode_arms (own_arms (variants_of variants)) repr) B b s
          ≡ (err DecodeError.invalid_pattern, s'))
        × DecodeBearerLaws.Aligned bl s' cs
  enum_decode_invalid tag B b bl s cs past h a =
      let (s', run, rest) = tag_back tag B b bl s cs h a in
      (
        s',
        decode_tagged tag B b s s' s' (err DecodeError.invalid_pattern) run (
            ap (λ m. m s')
              (decode_variant_none B b (variants_of variants) tag
                (rw (length-variants_of variants) past))),
        rest,
      )

  -- The derived `encode` of an enum writes the index of the variant as the tag, and then the values of
  -- the fields that are not skipped, each as its own codec does and in order, up to the first error of
  -- the bearer; and the derived `decode`, on a bearer that delivers what was written, returns the
  -- variant with its values and leaves what follows. The index of the variant fits its tag; the fields
  -- have identifiers that differ, or are those of a tuple, and no field of the enum that is decoded has
  -- `decode_with`, so that the derived `decode` parses; a skipped field holds the value that `decode` gives it, and the others meet the
  -- limits of their types.
  pub enum_through :
      (idx : ℕ) (vs : List V) (E : Type 0) (e : EncodeBearer E) (t : E) (D : Type 0)
      (d : DecodeBearer D) (dl : DecodeBearerLaws d) (s : D) (cs : List (List ℕ))
      → idx < length variants
      → idx < 2 ^ 32
      → idx < 256 ^ tag_width repr
      → Patterned (fields (own_at variants idx))
      → none_with_any (variants_of variants) ≡ true
      → length vs ≡ length (own_at variants idx)
      → AllIsValid (own_at variants idx) vs
      → DecodeBearerLaws.Aligned dl s
          (to_le_bytes (tag_width repr) idx ∷ (all_chunks (own_at variants idx) vs ++ cs))
      → (Encode.encode (enum_encode (variants_of variants) repr) E e (idx, vs) t
          ≡ writing e (to_le_bytes (tag_width repr) idx ∷ all_chunks (own_at variants idx) vs) t)
        × (c : Decode (ℕ × List V)) × (enum_decode (variants_of variants) repr ≡ some c)
        × (s' : D) × (Decode.decode c D d s ≡ (ok (idx, vs), s'))
        × DecodeBearerLaws.Aligned dl s' cs
  unfolding enum_encode
  enum_through idx vs E e t D d dl s cs inside word small shape plain l h a =
      let os = own_at variants idx in
      let (s1, read, rest) = tag_back idx D d dl s (all_chunks os vs ++ cs) small a in
      let (s2, runs, rest') =
        fields_back d dl os vs s1 cs l (none_with_any-at variants idx inside plain) h rest in
      (
        rw (tag_of-fits repr idx word small, variant_fields_lem variants idx)
            (writing_then e (Encode.encode (int_encode (tag_width repr)) E e idx)
              (run (match_arm 0 (fields os) vs) (variant_statements 0 (fields os)) E e)
              (to_le_bytes (tag_width repr) idx ∷ []) (all_chunks os vs) t
              (RoundTrips.encoded (int-RoundTrips (tag_width repr) narrow) E e idx)
              (λ u. run-Finds E e u (variant_finds 0 os vs shape l))),
        decode_arms (own_arms (variants_of variants)) repr,
        enum_decode-some (variants_of variants) repr plain,
        s2,
        decode_tagged idx D d s s1 s2 (ok vs) read
            (ap (λ m. m s1) (decode_variant_some D d variants idx inside) ∙ runs),
        rest',
      )
