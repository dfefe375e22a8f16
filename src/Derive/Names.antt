-- ===== src/Derive/Names.antt =====
-- How the fields of a struct or of a variant are named: all by identifiers that differ, or none.
use Prim.Native.String.{String}
use text.Mathlib.Text.{◌==◌ as str_eq}
use text.Mathlib.TextPositions.{eq_refl}
use barrique.Base.{
  ℕ, ◌≡◌, Option-cases, inl, inr, Bool, true, false, none, some, List, [], ◌∷◌, if◌then◌else◌,
  arith, ◌<◌,
}
use barrique.Derive.{Field, Name, named, unnamed, anon, same, anon_ident, skipped}

module _ {V : Type 0} where
  abbrev pub is_among : String → List (Field V) → Bool
  is_among ident [] = false
  is_among ident (f ∷ fs) =
      let rest = is_among ident fs in
      elim f.ident [ none ↦ rest | some other ↦ if str_eq ident other then true else rest ]

  -- Each field has an identifier, and no two have the same.
  abbrev pub all_named : List (Field V) → Bool
  all_named [] = true
  all_named (f ∷ fs) =
      let rest = all_named fs in
      elim f.ident [ none ↦ false | some ident ↦ if is_among ident fs then false else rest ]

  -- The fields of a tuple.
  abbrev pub all_unnamed : List (Field V) → Bool
  all_unnamed [] = true
  all_unnamed (f ∷ fs) =
      let rest = all_unnamed fs in elim f.ident [ none ↦ rest | some ident ↦ false ]

  abbrev pub none_skipped : List (Field V) → Bool
  none_skipped [] = true
  none_skipped (f ∷ fs) = let rest = none_skipped fs in if skipped f.skip then false else rest

  pub all_named-cons :
      (f : Field V) (fs : List (Field V))
      → all_named (f ∷ fs) ≡ true
      → (ident : String) × (f.ident ≡ some ident)
        × (is_among ident fs ≡ false)
        × (all_named fs ≡ true)
  all_named-cons f fs h = elim (Option-cases f.ident) [
    | inl e ↦ absurd (ground arith)
    | inr (ident, e) ↦ (ident, e, ground arith, ground arith)
  ]

  pub is_among-cons :
      (ident other : String) (f : Field V) (fs : List (Field V))
      → f.ident ≡ some other
      → is_among ident (f ∷ fs) ≡ false
      → (str_eq ident other ≡ false) × (is_among ident fs ≡ false)
  is_among-cons ident other f fs e h = (ground arith, ground arith)

  pub all_unnamed-cons :
      (f : Field V) (fs : List (Field V))
      → all_unnamed (f ∷ fs) ≡ true
      → (f.ident ≡ none) × (all_unnamed fs ≡ true)
  all_unnamed-cons f fs h = (ground arith, ground arith)

  pub none_skipped-cons :
      (f : Field V) (fs : List (Field V))
      → none_skipped (f ∷ fs) ≡ true
      → (skipped f.skip ≡ false) × (none_skipped fs ≡ true)
  none_skipped-cons f fs h = (ground arith, ground arith)

pub same_self : (n : Name) → same n n ≡ true
same_self (named s) = eq_refl s
same_self (unnamed i) = ground arith
same_self (anon a i) = ground arith

pub unnamed_differ : (i j : ℕ) → i < j → same (unnamed i) (unnamed j) ≡ false
unnamed_differ i j h = ground arith

-- The anonymous identifiers differ.
pub anon_differ : (i j : ℕ) → i < j → same (anon_ident i) (anon_ident j) ≡ false
anon_differ i j h = ground arith
