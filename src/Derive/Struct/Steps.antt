-- ===== src/Derive/Struct/Steps.antt =====
-- One step of the derived `decode` of a struct, by the outcome of the field's `decode`.
use barrique.Base.{ℕ, suc, ◌≡◌, List, [], ◌∷◌, ◌++◌, ok, err, panic, if◌then◌else◌, arith}
use barrique.Stream.{DecodeBearer}
use barrique.Codec.{DecodeError}
use barrique.Derive.{Field, Name, struct_member, skipped}
use barrique.Derive.Struct.{struct_field, drop_guard, decode_from}

module _ {V B : Type 0} (b : DecodeBearer B) where
  pub decode_ok :
      (all : List (Field V)) (i : ℕ) (f : Field V) (fs : List (Field V)) (acc : List V)
      (ns : List Name) (s s' : B) (v : V)
      → struct_field f B b s ≡ (ok v, s')
      → decode_from all B b i (f ∷ fs) acc ns s
        ≡ decode_from all B b
            (suc i)
            fs
            (acc ++ (v ∷ []))
            (if skipped f.skip then ns else ns ++ (struct_member f.ident i ∷ []))
            s'
  unfolding decode_from
  decode_ok all i f fs acc ns s s' v e = ground arith

  pub decode_err :
      (all : List (Field V)) (i : ℕ) (f : Field V) (fs : List (Field V)) (acc : List V)
      (ns : List Name) (s s' : B) (e : DecodeError)
      → struct_field f B b s ≡ (err e, s')
      → decode_from all B b i (f ∷ fs) acc ns s
        ≡ record { outcome = err e; bearer = s'; initialised = ns; dropped = drop_guard all i }
  unfolding decode_from
  decode_err all i f fs acc ns s s' e h = ground arith

  pub decode_panic :
      (all : List (Field V)) (i : ℕ) (f : Field V) (fs : List (Field V)) (acc : List V)
      (ns : List Name) (s s' : B)
      → struct_field f B b s ≡ (panic, s')
      → decode_from all B b i (f ∷ fs) acc ns s
        ≡ record { outcome = panic; bearer = s'; initialised = ns; dropped = drop_guard all i }
  unfolding decode_from
  decode_panic all i f fs acc ns s s' h = ground arith
