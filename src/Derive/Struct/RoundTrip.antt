-- ===== src/Derive/Struct/RoundTrip.antt =====
-- The derived `encode` of a struct against its derived `decode`.
use Prim.Native.String.{String}
use barrique.Base.{
  ℕ, suc, ◌≤◌, ◌<◌, ◌≡◌, subst, refl, ap, sym, ◌∙◌, ◌⊎◌, inl, inr, true, false, List, [], ◌∷◌, ◌++◌,
  length, ok, if◌then◌else◌, arith, Bool-cases, Option-cases, append_assoc, append-nil,
}
use barrique.Stream.{EncodeBearer, DecodeBearer}
use barrique.Codec.{Encode, Decode}
use barrique.Codec.Laws.{DecodeBearerLaws, RoundTrips, writing}
use barrique.Derive.{Field, Name, named, unnamed, same, struct_member, skipped, skip_by_value, run}
use barrique.Derive.Names.{
  is_among, all_named, all_unnamed, none_skipped, all_named-cons, is_among-cons, all_unnamed-cons,
  none_skipped-cons, same_self, unnamed_differ,
}
use barrique.Derive.Found.{
  Own, fields, own_chunks, all_chunks, OwnIsValid, AllIsValid, Finds, done, skip, write, run-Finds,
  clear, Finds-more,
}
use barrique.Derive.Struct.Steps.{decode_ok}
use barrique.Derive.Struct.{
  encoded_fields, statements_from, encode_statements, members_from, struct_encode, struct_decode,
  struct_field, decode_from, decode_run,
}

module _ {V : Type 0} where
  clear_named :
      (ident : String) (idx : ℕ) (fs : List (Field V))
      → all_named fs ≡ true
      → is_among ident fs ≡ false
      → clear (named ident) (statements_from idx (encoded_fields fs)) ≡ true
  clear_named ident idx [] h k = refl
  clear_named ident idx (f ∷ fs) h k =
      let (other, e, fresh, rest) = all_named-cons f fs h in
      let (apart, out) = is_among-cons ident other f fs e k in
      elim (Bool-cases (skipped f.skip)) [
        | inl s ↦ rw s (clear_named ident idx fs rest out)
        | inr s ↦ rw (s, e, apart) (clear_named ident (suc idx) fs rest out)
      ]

  -- With named fields, each statement finds its own member.
  finds_named :
      (i j : ℕ) (os : List (Own V)) (vs : List V)
      → all_named (fields os) ≡ true
      → length vs ≡ length os
      → Finds (members_from i (fields os) vs) os vs (statements_from j (encoded_fields (fields os)))
  finds_named i j [] [] h l = done
  finds_named i j [] (v ∷ vs) h l = absurd (omega arith)
  finds_named i j (o ∷ os) [] h l = absurd (omega arith)
  finds_named i j (o ∷ os) (v ∷ vs) h l =
      let (ident, e, fresh, rest) = all_named-cons o.field (fields os) h in
      let env = members_from (suc i) (fields os) vs in
      let far : (k : ℕ)
          → clear (struct_member o.field.ident i) (statements_from k (encoded_fields (fields os)))
            ≡ true =
        λ k. rw e (clear_named ident k (fields os) rest fresh) in
      let here : same (struct_member o.field.ident i) (struct_member o.field.ident j) ≡ true =
        rw e (same_self (named ident)) in
      elim (Bool-cases (skipped o.field.skip)) [
        | inl s ↦
            let left : encoded_fields (fields (o ∷ os)) ≡ encoded_fields (fields os) = rw s refl in
            subst
              (λ l.
                Finds ((struct_member o.field.ident i, v) ∷ env) (o ∷ os) (v ∷ vs)
                  (statements_from j l))
              (sym left)
              (skip o v s (
                Finds-more (struct_member o.field.ident i) v (far j)
                  (finds_named (suc i) j os vs rest (omega arith))))
        | inr s ↦
            let left : encoded_fields (fields (o ∷ os)) ≡ o.field ∷ encoded_fields (fields os) =
              rw s refl in
            subst
              (λ l.
                Finds ((struct_member o.field.ident i, v) ∷ env) (o ∷ os) (v ∷ vs)
                  (statements_from j l))
              (sym left)
              (write o v (struct_member o.field.ident j) s (rw here refl) (
                Finds-more (struct_member o.field.ident i) v (far (suc j))
                  (finds_named (suc i) (suc j) os vs rest (omega arith))))
      ]

  pub clear_unnamed :
      (i j : ℕ) (fs : List (Field V))
      → all_unnamed fs ≡ true
      → i < j
      → clear (unnamed i) (statements_from j fs) ≡ true
  clear_unnamed i j [] h k = refl
  clear_unnamed i j (f ∷ fs) h k =
      let (e, rest) = all_unnamed-cons f fs h in
      rw (e, unnamed_differ i j k) (clear_unnamed i (suc j) fs rest (omega arith))

  -- The statements for the fields of a tuple, with the members of a tuple that may be longer.
  pub finds_unnamed :
      (i : ℕ) (os : List (Own V)) (fs : List (Field V)) (vs ws : List V)
      → all_unnamed (fields os) ≡ true
      → none_skipped (fields os) ≡ true
      → all_unnamed fs ≡ true
      → length vs ≡ length os
      → length vs ≤ length fs
      → Finds (members_from i fs (vs ++ ws)) os vs (statements_from i (fields os))
  finds_unnamed i [] fs [] ws h k a l m = done
  finds_unnamed i [] fs (v ∷ vs) ws h k a l m = absurd (omega arith)
  finds_unnamed i (o ∷ os) fs [] ws h k a l m = absurd (omega arith)
  finds_unnamed i (o ∷ os) [] (v ∷ vs) ws h k a l m = absurd (omega arith)
  finds_unnamed i (o ∷ os) (f ∷ fs) (v ∷ vs) ws h k a l m =
      let (e, rest) = all_unnamed-cons o.field (fields os) h in
      let (s, kept) = none_skipped-cons o.field (fields os) k in
      let (e', rest') = all_unnamed-cons f fs a in
      let here : same (struct_member f.ident i) (struct_member o.field.ident i) ≡ true =
        rw (e, e') (same_self (unnamed i)) in
      let far : clear (struct_member f.ident i) (statements_from (suc i) (fields os)) ≡ true =
        rw e' (clear_unnamed i (suc i) (fields os) rest (omega arith)) in
      write o v (struct_member o.field.ident i) s (rw here refl) (
        Finds-more (struct_member f.ident i) v far
          (finds_unnamed (suc i) os fs vs ws rest kept rest' (omega arith) (omega arith)))

  pub all_encoded : (fs : List (Field V)) → none_skipped fs ≡ true → encoded_fields fs ≡ fs
  all_encoded [] h = refl
  all_encoded (f ∷ fs) h =
      let (s, rest) = none_skipped-cons f fs h in rw s (ap (λ l. f ∷ l) (all_encoded fs rest))

  -- The fields of a struct have identifiers that differ, or they are those of a tuple of which none is
  -- skipped.
  abbrev pub Plain : List (Field V) → Type 0
  Plain fs = (all_named fs ≡ true) ⊎ ((all_unnamed fs ≡ true) × (none_skipped fs ≡ true))

  pub length-fields : (os : List (Own V)) → length (fields os) ≡ length os
  length-fields [] = refl
  length-fields (o ∷ os) = ap suc (length-fields os)

  struct_finds :
      (os : List (Own V)) (vs : List V)
      → Plain (fields os)
      → length vs ≡ length os
      → Finds (members_from 0 (fields os) vs) os vs (encode_statements (fields os))
  struct_finds os vs (inl named_all) l = finds_named 0 0 os vs named_all l
  struct_finds os vs (inr (unnamed_all, kept)) l =
      subst (λ us. Finds (members_from 0 (fields os) us) os vs (encode_statements (fields os)))
        (append-nil vs)
        (subst (λ fs. Finds (members_from 0 (fields os) (vs ++ [])) os vs (statements_from 0 fs))
          (sym (all_encoded (fields os) kept))
          (finds_unnamed 0 os (fields os) vs [] unnamed_all kept unnamed_all l
            (omega (arith, length-fields os))))

  module _ {B : Type 0} (b : DecodeBearer B) (bl : DecodeBearerLaws b) where
    open bl use {Aligned}

    pub field_back :
        (o : Own V) (v : V) (s : B) (cs : List (List ℕ))
        → OwnIsValid o v
        → Aligned s (own_chunks o v ++ cs)
        → (s' : B) × (struct_field o.field B b s ≡ (ok v, s')) × Aligned s' cs
    unfolding struct_field
    field_back o v s cs h a = elim (Option-cases o.field.skip) [
      | inl e ↦
          let (s', run, rest) = RoundTrips.decoded o.fits B b bl v s cs (rw e at h) (rw e at a) in
          (s', ground (arith, run, e), rest)
      | inr (skip_by, e) ↦
          let value : v ≡ skip_by_value o.field.default skip_by = rw e at h in
          (s, rw (e, value) refl, rw e at a)
    ]

    fields_back :
        (all : List (Field V)) (i : ℕ) (os : List (Own V)) (vs acc : List V) (ns : List Name)
        (s : B) (cs : List (List ℕ))
        → length vs ≡ length os
        → AllIsValid os vs
        → Aligned s (all_chunks os vs ++ cs)
        → (s' : B) × ((decode_from all B b i (fields os) acc ns s).outcome ≡ ok (acc ++ vs))
          × ((decode_from all B b i (fields os) acc ns s).bearer ≡ s')
          × Aligned s' cs
    unfolding decode_from
    fields_back all i [] [] acc ns s cs l h a = (s, ap ok (sym (append-nil acc)), refl, a)
    fields_back all i [] (v ∷ vs) acc ns s cs l h a = absurd (omega arith)
    fields_back all i (o ∷ os) [] acc ns s cs l h a = absurd (omega arith)
    fields_back all i (o ∷ os) (v ∷ vs) acc ns s cs l (h, hs) a =
        let (s1, run, rest) =
          field_back o v s (all_chunks os vs ++ cs) h
            (subst (Aligned s) (append_assoc (own_chunks o v) (all_chunks os vs) cs) a) in
        let (s2, out, left, rest') =
          fields_back all (suc i) os vs (acc ++ (v ∷ []))
            (if skipped o.field.skip then ns else ns ++ (struct_member o.field.ident i ∷ [])) s1 cs
            (omega arith) hs rest in
        let step = decode_ok b all i o.field (fields os) acc ns s s1 v run in
        (
          s2,
          ap (λ d. d.outcome) step ∙ out ∙ ap ok (append_assoc acc (v ∷ []) vs),
          ap (λ d. d.bearer) step ∙ left,
          rest',
        )

  -- The derived `encode` of a struct writes the values of the fields that are not skipped, each as its
  -- own codec does and in the order of the declaration, up to the first error of the bearer; and the
  -- derived `decode`, on a bearer that delivers what was written, returns the values and leaves what
  -- follows. The fields have identifiers that differ, or are those of a tuple of which none is skipped;
  -- a skipped field holds the value that `decode` gives it, and the others meet the limits of their types.
  pub struct_through :
      (os : List (Own V)) (vs : List V) (E : Type 0) (e : EncodeBearer E) (t : E) (D : Type 0)
      (d : DecodeBearer D) (dl : DecodeBearerLaws d) (s : D) (cs : List (List ℕ))
      → Plain (fields os)
      → length vs ≡ length os
      → AllIsValid os vs
      → DecodeBearerLaws.Aligned dl s (all_chunks os vs ++ cs)
      → (Encode.encode (struct_encode (fields os)) E e vs t ≡ writing e (all_chunks os vs) t)
        × (s' : D) × (Decode.decode (struct_decode (fields os)) D d s ≡ (ok vs, s'))
        × DecodeBearerLaws.Aligned dl s' cs
  unfolding struct_encode struct_decode decode_run
  struct_through os vs E e t D d dl s cs plain l h a =
      let (s', out, left, rest) = fields_back d dl (fields os) 0 os vs [] [] s cs l h a in
      (run-Finds E e t (struct_finds os vs plain l), s', rw (out, left) refl, rest)
