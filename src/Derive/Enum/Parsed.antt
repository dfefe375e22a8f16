-- ===== src/Derive/Enum/Parsed.antt =====
-- When the derived `decode` of an enum parses, and what it then is.
use barrique.Base.{
  ℕ, ◌≡◌, refl, Bool, true, false, not, ◌||◌, Option, none, some, List, [], ◌∷◌, if◌then◌else◌,
  pure, arith,
}
use barrique.Codec.{Decode}
use barrique.Derive.{Field, Decoder, skipped, skip_by_value}
use barrique.Derive.Enum.{
  Variant, cons_some, variant_field, field_values, variant_values, decode_arms, enum_decode,
}

cons_lem {ℓ} :
    {A : Type ℓ} (p q : Bool) (a : A) (l : List A)
    → cons_some (if p then some a else none) (if q then some l else none)
      ≡ (if (if p then q else false) then some (a ∷ l) else none)
cons_lem true true a l = refl
cons_lem true false a l = refl
cons_lem false q a l = refl

module _ {V : Type 0} where
  abbrev pub is_plain : Field V → Bool
  is_plain f = skipped f.skip || not (skipped f.decode_with)

  -- No field that is decoded has `decode_with`.
  abbrev pub none_with : List (Field V) → Bool
  none_with [] = true
  none_with (f ∷ fs) = let rest = none_with fs in if is_plain f then rest else false

  -- That of all variants.
  abbrev pub none_with_any : List (Variant V) → Bool
  none_with_any [] = true
  none_with_any (v ∷ vs) = let rest = none_with_any vs in if none_with v.fields then rest else false

  pub none_with-cons :
      (f : Field V) (fs : List (Field V))
      → none_with (f ∷ fs) ≡ true
      → (is_plain f ≡ true) × (none_with fs ≡ true)
  none_with-cons f fs h = (ground arith, ground arith)

  pub none_with_any-cons :
      (v : Variant V) (vs : List (Variant V))
      → none_with_any (v ∷ vs) ≡ true
      → (none_with v.fields ≡ true) × (none_with_any vs ≡ true)
  none_with_any-cons v vs h = (ground arith, ground arith)

  -- The decoder of a field that is skipped, or has no `decode_with`.
  abbrev pub own_value : Field V → Decoder V
  own_value f = elim f.skip [
    | some skip_by ↦ (λ B b. pure (skip_by_value f.default skip_by))
    | none ↦ Decode.decode f.decode
  ]

  abbrev pub own_values : List (Field V) → List (Decoder V)
  own_values [] = []
  own_values (f ∷ fs) = own_value f ∷ own_values fs

  abbrev pub own_arms : List (Variant V) → List (List (Decoder V))
  own_arms [] = []
  own_arms (v ∷ vs) = own_values v.fields ∷ own_arms vs

  value_lem : (f : Field V) → variant_field f ≡ (if is_plain f then some (own_value f) else none)
  unfolding variant_field
  value_lem f = ground arith

  values_lem :
      (fs : List (Field V))
      → field_values fs ≡ (if none_with fs then some (own_values fs) else none)
  unfolding field_values
  values_lem [] = refl
  values_lem (f ∷ fs) =
      rw (value_lem f, values_lem fs)
        (cons_lem (is_plain f) (none_with fs) (own_value f) (own_values fs))

  arms_lem :
      (vs : List (Variant V))
      → variant_values vs ≡ (if none_with_any vs then some (own_arms vs) else none)
  unfolding variant_values
  arms_lem [] = refl
  arms_lem (v ∷ vs) =
      rw (values_lem v.fields, arms_lem vs)
        (cons_lem (none_with v.fields) (none_with_any vs) (own_values v.fields) (own_arms vs))

  pub enum_decode-some :
      (vs : List (Variant V)) (repr : Option ℕ)
      → none_with_any vs ≡ true
      → enum_decode vs repr ≡ some (decode_arms (own_arms vs) repr)
  unfolding enum_decode
  enum_decode-some vs repr h = ground (arith, arms_lem vs, h)

  pub enum_decode-none :
      (vs : List (Variant V)) (repr : Option ℕ)
      → none_with_any vs ≡ false
      → enum_decode vs repr ≡ none
  unfolding enum_decode
  enum_decode-none vs repr h = ground (arith, arms_lem vs, h)
