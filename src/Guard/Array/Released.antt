-- ===== src/Guard/Array/Released.antt =====
-- The guards of arrays keep to the memory that they own.
use barrique.Base.{
  ℕ, zero, suc, ◌+◌, ◌≡◌, refl, ap, sym, ◌∙◌, Bool, false, Option, none, some, List, [], ◌∷◌, ◌++◌,
  length, Outcome, ok, err, panic, arith, append-nil, length-append,
}
use barrique.Stream.{DecodeBearer}
use barrique.Codec.{DecodeError, Encode, Decode}
use barrique.Codec.Seq.{decode_items, array_decode}
use barrique.Guard.{Memory, write_slot}
use barrique.Guard.Array.{drop_heap_array, fill, heap_array_run}
use barrique.Guard.Slots.{holding, released, write_next}
use barrique.Guard.Array.Expected.{
  decoded_items, expected, expected_cons, complete-holding, items_ok, items_err, items_panic,
  expected_nil, drop_heap_array-holding, left,
}

module _ {T : Type 0} where
  module _ (e : Encode T) (d : Decode T) (B : Type 0) (b : DecodeBearer B) where
    module _ (release : ℕ → Memory T → Option (Memory T)) (live : Bool) where
      fill_ok :
          (n len : ℕ) (s s' : B) (m m' : Memory T) (v : T)
          → Decode.decode d B b s ≡ (ok v, s')
          → write_slot len v m ≡ some m'
          → fill d B b release (suc n) len s m ≡ fill d B b release n (suc len) s' m'
      unfolding fill
      fill_ok n len s s' m m' v h k =
          ap
            (λ x. elim x.0 [
              | ok w ↦ (elim (write_slot len w m) [
                | none ↦ record { outcome = panic; bearer = x.1; memory = none }
                | some t ↦ fill d B b release n (suc len) x.1 t
              ])
              | err f ↦ record { outcome = err f; bearer = x.1; memory = release len m }
              | panic ↦ record { outcome = panic; bearer = x.1; memory = release len m }
            ])
            h
          ∙ ap
              (λ o. elim o [
                | none ↦ record { outcome = panic; bearer = s'; memory = none }
                | some t ↦ fill d B b release n (suc len) s' t
              ])
              k

      fill_err :
          (n len : ℕ) (s s' : B) (m : Memory T) (f : DecodeError)
          → Decode.decode d B b s ≡ (err f, s')
          → fill d B b release (suc n) len s m
            ≡ record { outcome = err f; bearer = s'; memory = release len m }
      unfolding fill
      fill_err n len s s' m f h = ground arith

      fill_panic :
          (n len : ℕ) (s s' : B) (m : Memory T)
          → Decode.decode d B b s ≡ (panic, s')
          → fill d B b release (suc n) len s m
            ≡ record { outcome = panic; bearer = s'; memory = release len m }
      unfolding fill
      fill_panic n len s s' m h = ground arith

      module _
          (releases : (vs : List T) (n : ℕ)
            → release (length vs) (holding vs n) ≡ some (released (length vs + n) live vs)) where
        let_go :
            (n len total : ℕ) (vs : List T)
            → len ≡ length vs
            → total ≡ len + suc n
            → release len (holding vs (suc n)) ≡ some (released total live (vs ++ []))
        let_go n len total vs l t =
            let all : length vs + suc n ≡ total = omega arith in
            ap (λ k. release k (holding vs (suc n))) l
            ∙ releases vs (suc n)
            ∙ ap (λ k. some (released k live vs)) all
            ∙ ap (λ us. some (released total live us)) (sym (append-nil vs))

        fill_lem :
            (n len total : ℕ) (vs : List T) (s : B)
            → len ≡ length vs
            → total ≡ len + n
            → fill d B b release n len s (holding vs n)
              ≡ expected e d B b total live vs
                  (decode_items e d B b n s).0
                  (decode_items e d B b n s).1
                  (decoded_items e d B b n s)
        unfolding fill decode_items decoded_items
        fill_lem zero len total vs s l t = complete-holding e d B b vs s
        fill_lem (suc n) len total vs s l t =
            after
              (λ v s'.
                fill_lem n (suc len) total (vs ++ (v ∷ [])) s'
                  (omega (arith, length-append vs (v ∷ []))) (omega arith))
              (Decode.decode d B b s) refl
          where
            after :
                ((v : T) (s' : B)
                  → fill d B b release n (suc len) s' (holding (vs ++ (v ∷ [])) n)
                    ≡ expected e d B b total live
                        (vs ++ (v ∷ []))
                        (decode_items e d B b n s').0
                        (decode_items e d B b n s').1
                        (decoded_items e d B b n s'))
                → (m : Outcome DecodeError T × B) → Decode.decode d B b s ≡ m
                → fill d B b release (suc n) len s (holding vs (suc n))
                  ≡ expected e d B b total live vs
                      (decode_items e d B b (suc n) s).0
                      (decode_items e d B b (suc n) s).1
                      (decoded_items e d B b (suc n) s)
            after rest (ok v, s') h =
                let (a, c) = items_ok e d B b n s s' v h in
                fill_ok n len s s' (holding vs (suc n)) (holding (vs ++ (v ∷ [])) n) v h
                  (ap (λ k. write_slot k v (holding vs (suc n))) l ∙ write_next vs v n)
                ∙ rest v s'
                ∙ expected_cons e d B b total total live vs v (decode_items e d B b n s').0
                    (decode_items e d B b n s').1 (decoded_items e d B b n s') refl
                ∙ (λ i. expected e d B b total live vs (sym a i).0 (sym a i).1 (sym c i))
            after rest (err f, s') h =
                let (a, c) = items_err e d B b n s s' f h in
                fill_err n len s s' (holding vs (suc n)) f h
                ∙ ap (λ m. record { outcome = err f; bearer = s'; memory = m })
                    (let_go n len total vs l t)
                ∙ (λ i. expected e d B b total live vs (sym a i).0 (sym a i).1 (sym c i))
            after rest (panic, s') h =
                let (a, c) = items_panic e d B b n s s' h in
                fill_panic n len s s' (holding vs (suc n)) h
                ∙ ap (λ m. record { outcome = panic; bearer = s'; memory = m })
                    (let_go n len total vs l t)
                ∙ (λ i. expected e d B b total live vs (sym a i).0 (sym a i).1 (sym c i))

    -- The same of a boxed slice whose length is read, whose block is freed after the items are dropped.
    pub heap_array_run-array_decode :
        (n : ℕ) (s : B)
        → heap_array_run d B b n s ≡ record {
          outcome = (Decode.decode (array_decode e d n) B b s).0;
          bearer = (Decode.decode (array_decode e d n) B b s).1;
          memory = some (
              left e d B b n false
                (decoded_items e d B b n s)
                (Decode.decode (array_decode e d n) B b s).0);
        }
    unfolding heap_array_run array_decode
    heap_array_run-array_decode n s =
        fill_lem (drop_heap_array d B b) false (drop_heap_array-holding e d B b) n 0 n [] s refl
          (omega arith)
        ∙ expected_nil e d B b n false (decode_items e d B b n s).0 (decode_items e d B b n s).1
            (decoded_items e d B b n s)
