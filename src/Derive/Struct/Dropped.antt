-- ===== src/Derive/Struct/Dropped.antt =====
-- What the drop guard of a derived `decode` drops.
use barrique.Base.{
  ℕ, zero, suc, ◌+◌, ◌≡◌, refl, subst, sym, ◌∙◌, Bool, true, false, some, List, [], ◌∷◌, ◌++◌,
  length, ok, err, panic, if◌then◌else◌, arith, append_assoc, lt→ltb, ne→==, length-append, ◌==◌,
  ltb, Outcome,
}
use barrique.Stream.{DecodeBearer}
use barrique.Codec.{DecodeError}
use barrique.Derive.{Field, Name, struct_member, skipped}
use barrique.Derive.Struct.Steps.{decode_ok, decode_err, decode_panic}
use barrique.Derive.Struct.{
  struct_field, drop_guard, dropped_from, decode_from, decode_run, Decoded,
}

join :
    (g f : Bool) (ns : List Name) (n : Name) (m : List Name)
    → (if g then (if f then ns else ns ++ m) else n ∷ (if f then ns else ns ++ m))
      ≡ (if f then (if g then ns else n ∷ ns) else (if g then ns else n ∷ ns) ++ m)
join false false ns n m = refl
join false true ns n m = refl
join true false ns n m = refl
join true true ns n m = refl

module _ {V : Type 0} where
  -- The members that are dropped grow by one with a field that is not skipped.
  dropped_next :
      (i n : ℕ) (pre : List (Field V)) (f : Field V) (fs : List (Field V))
      → n ≡ length pre
      → dropped_from i (suc n) (pre ++ (f ∷ fs)) ≡ (
          if skipped f.skip
          then dropped_from i n (pre ++ (f ∷ fs))
          else dropped_from i n (pre ++ (f ∷ fs)) ++ (struct_member f.ident (i + n) ∷ []))
  dropped_next i zero [] f fs e = let at : i + 0 ≡ i = omega arith in rw at refl
  dropped_next i (suc n) [] f fs e = absurd (omega arith)
  dropped_next i zero (g ∷ pre) f fs e = absurd (omega arith)
  dropped_next i (suc n) (g ∷ pre) f fs e =
      let at : suc i + n ≡ i + suc n = omega arith in
      rw (dropped_next (suc i) n pre f fs (omega arith), at)
        (join (skipped g.skip) (skipped f.skip) (dropped_from (suc i) n (pre ++ (f ∷ fs)))
          (struct_member g.ident i) (struct_member f.ident (i + suc n) ∷ []))

  -- The arm of the guard at a field of the struct.
  drop_guard-some :
      (pre : List (Field V)) (f : Field V) (fs : List (Field V))
      → drop_guard (pre ++ (f ∷ fs)) (length pre)
        ≡ some (dropped_from 0 (length pre) (pre ++ (f ∷ fs)))
  unfolding drop_guard
  drop_guard-some [] f fs = refl
  drop_guard-some (g ∷ pre) f fs =
      let inside : ltb (suc (length pre)) (suc (length (pre ++ (f ∷ fs)))) ≡ true =
        lt→ltb _ _ (omega (arith, length-append pre (f ∷ fs))) in
      let positive : (suc (length pre) == 0) ≡ false = ne→== _ _ (λ h. absurd (omega arith)) in
      rw (positive, inside) refl

  -- What a run has dropped, by its outcome.
  abbrev pub DropsInitialised : {B : Type 0} → Decoded V B → Type 0
  DropsInitialised d = elim d.outcome [
    | ok vs ↦ d.dropped ≡ some []
    | err e ↦ d.dropped ≡ some d.initialised
    | panic ↦ d.dropped ≡ some d.initialised
  ]

  DropsInitialised-from :
      (B : Type 0) (b : DecodeBearer B) (all pre fs : List (Field V)) (i : ℕ) (vs : List V)
      (ns : List Name) (s : B)
      → all ≡ pre ++ fs
      → i ≡ length pre
      → ns ≡ dropped_from 0 i all
      → DropsInitialised (decode_from all B b i fs vs ns s)
  unfolding decode_from
  DropsInitialised-from B b all pre [] i vs ns s e k d = refl
  DropsInitialised-from B b all pre (f ∷ fs) i vs ns s e k d =
      let grown = dropped_next 0 i pre f fs k in
      let start : 0 + i ≡ i = omega arith in
      after
        (λ v s'.
          DropsInitialised-from B b all (pre ++ (f ∷ [])) fs (suc i) (vs ++ (v ∷ []))
            (if skipped f.skip then ns else ns ++ (struct_member f.ident i ∷ [])) s'
            (e ∙ sym (append_assoc pre (f ∷ []) fs)) (omega (arith, length-append pre (f ∷ [])))
            (rw (d, e) (sym (rw start at grown))))
        (struct_field f B b s) refl
    where
      dropped : drop_guard all i ≡ some ns
      dropped = rw (d, e, k) (drop_guard-some pre f fs)

      after :
          ((v : V) (s' : B)
            → DropsInitialised (
                decode_from all B b
                  (suc i)
                  fs
                  (vs ++ (v ∷ []))
                  (if skipped f.skip then ns else ns ++ (struct_member f.ident i ∷ []))
                  s'))
          → (m : Outcome DecodeError V × B) → struct_field f B b s ≡ m
          → DropsInitialised (decode_from all B b i (f ∷ fs) vs ns s)
      after rest (ok v, s') h =
          subst DropsInitialised (sym (decode_ok b all i f fs vs ns s s' v h)) (rest v s')
      after rest (err e', s') h =
          subst DropsInitialised (sym (decode_err b all i f fs vs ns s s' e' h)) dropped
      after rest (panic, s') h =
          subst DropsInitialised (sym (decode_panic b all i f fs vs ns s s' h)) dropped

  -- Where the derived `decode` of a struct fails or panics, the drop guard drops just the members that
  -- `decode` calls have initialised, each once and in order, and never meets `unreachable!()`; where
  -- `decode` succeeds the guard drops nothing.
  pub decode_run-DropsInitialised :
      (fs : List (Field V)) (B : Type 0) (b : DecodeBearer B) (s : B)
      → DropsInitialised (decode_run fs B b s)
  unfolding decode_run
  decode_run-DropsInitialised fs B b s = DropsInitialised-from B b fs [] fs 0 [] [] s refl refl refl
