-- ===== src/Derive/Struct/Skipped.antt =====
-- A skipped field of a tuple struct: `impl_struct` counts the members after it has left it out.
use barrique.Base.{◌≡◌, subst, sym, true, List, [], ◌∷◌, ◌++◌, length, arith}
use barrique.Stream.{EncodeBearer}
use barrique.Codec.{Encode}
use barrique.Codec.Laws.{writing}
use barrique.Derive.{Field, skipped}
use barrique.Derive.Names.{all_unnamed-cons, all_unnamed, none_skipped}
use barrique.Derive.Found.{Own, fields, all_chunks, run-Finds, Finds}
use barrique.Derive.Struct.{encoded_fields, statements_from, members_from, struct_encode}
use barrique.Derive.Struct.RoundTrip.{finds_unnamed, all_encoded, length-fields}

module _ {V : Type 0} where
  -- The derived `encode` of a tuple struct whose first field is skipped, and no other, writes with
  -- the codec of each field that is left the value of the member before it. So the value of the
  -- skipped field is written, and that of the last field is not.
  pub encode_after_skipped :
      (f : Field V) (os : List (Own V)) (vs : List V) (last : V) (B : Type 0) (b : EncodeBearer B)
      (s : B)
      → all_unnamed (f ∷ fields os) ≡ true
      → skipped f.skip ≡ true
      → none_skipped (fields os) ≡ true
      → length vs ≡ length os
      → Encode.encode (struct_encode (f ∷ fields os)) B b (vs ++ (last ∷ [])) s
        ≡ writing b (all_chunks os vs) s
  unfolding struct_encode
  encode_after_skipped f os vs last B b s u k n l =
      let (e, us) = all_unnamed-cons f (fields os) u in
      let left : encoded_fields (f ∷ fields os) ≡ fields os = rw k (all_encoded (fields os) n) in
      run-Finds B b s (
        subst
          (λ gs.
            Finds (members_from 0 (f ∷ fields os) (vs ++ (last ∷ []))) os vs (statements_from 0 gs))
          (sym left)
          (finds_unnamed 0 os (f ∷ fields os) vs (last ∷ []) us n u l
            (omega (arith, length-fields os))))
