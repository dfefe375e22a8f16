-- ===== src/Derive/Enum/Patterns.antt =====
-- The statements of a match arm find what its pattern binds.
use Prim.Native.String.{String}
use barrique.Base.{
  ℕ, suc, ◌<◌, ◌≡◌, refl, ◌⊎◌, inl, inr, true, false, List, [], ◌∷◌, length, arith, Bool-cases,
}
use barrique.Derive.{Field, named, anon_ident, skipped}
use barrique.Derive.Names.{
  is_among, all_named, all_unnamed, all_named-cons, is_among-cons, all_unnamed-cons, same_self,
  anon_differ,
}
use barrique.Derive.Found.{Own, fields, Finds, done, skip, write, clear, Finds-more}
use barrique.Derive.Enum.{pattern_ident, variant_statements, match_arm}

module _ {V : Type 0} where
  clear_named :
      (ident : String) (idx : ℕ) (fs : List (Field V))
      → all_named fs ≡ true
      → is_among ident fs ≡ false
      → clear (named ident) (variant_statements idx fs) ≡ true
  clear_named ident idx [] h k = refl
  clear_named ident idx (f ∷ fs) h k =
      let (other, e, fresh, rest) = all_named-cons f fs h in
      let (apart, out) = is_among-cons ident other f fs e k in
      elim (Bool-cases (skipped f.skip)) [
        | inl s ↦ rw s (clear_named ident (suc idx) fs rest out)
        | inr s ↦ rw (s, e, apart) (clear_named ident (suc idx) fs rest out)
      ]

  clear_unnamed :
      (i j : ℕ) (fs : List (Field V))
      → all_unnamed fs ≡ true
      → i < j
      → clear (anon_ident i) (variant_statements j fs) ≡ true
  clear_unnamed i j [] h k = refl
  clear_unnamed i j (f ∷ fs) h k =
      let (e, rest) = all_unnamed-cons f fs h in
      elim (Bool-cases (skipped f.skip)) [
        | inl s ↦ rw s (clear_unnamed i (suc j) fs rest (omega arith))
        | inr s ↦ rw (s, e, anon_differ i j k) (clear_unnamed i (suc j) fs rest (omega arith))
      ]

  -- The fields of a variant have identifiers that differ, or they are those of a tuple.
  abbrev pub Patterned : List (Field V) → Type 0
  Patterned fs = (all_named fs ≡ true) ⊎ (all_unnamed fs ≡ true)

  Patterned-next :
      (i : ℕ) (f : Field V) (fs : List (Field V))
      → Patterned (f ∷ fs)
      → (clear (pattern_ident f.ident i) (variant_statements (suc i) fs) ≡ true) × Patterned fs
  Patterned-next i f fs (inl h) =
      let (ident, e, fresh, rest) = all_named-cons f fs h in
      (rw e (clear_named ident (suc i) fs rest fresh), inl rest)
  Patterned-next i f fs (inr h) =
      let (e, rest) = all_unnamed-cons f fs h in
      (rw e (clear_unnamed i (suc i) fs rest (omega arith)), inr rest)

  -- Each statement of a match arm finds what the pattern has bound.
  pub variant_finds :
      (i : ℕ) (os : List (Own V)) (vs : List V)
      → Patterned (fields os)
      → length vs ≡ length os
      → Finds (match_arm i (fields os) vs) os vs (variant_statements i (fields os))
  variant_finds i [] [] h l = done
  variant_finds i [] (v ∷ vs) h l = absurd (omega arith)
  variant_finds i (o ∷ os) [] h l = absurd (omega arith)
  variant_finds i (o ∷ os) (v ∷ vs) h l =
      let (far, rest) = Patterned-next i o.field (fields os) h in
      let name = pattern_ident o.field.ident i in
      let found = variant_finds (suc i) os vs rest (omega arith) in
      elim (Bool-cases (skipped o.field.skip)) [
        | inl s ↦ rw s (skip o v s found)
        | inr s ↦ rw s (write o v name s (rw (same_self name) refl) (Finds-more name v far found))
      ]
