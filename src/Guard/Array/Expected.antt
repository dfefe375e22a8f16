-- ===== src/Guard/Array/Expected.antt =====
-- The run that is expected of the loop over the items, by what the items' `decode` does.
use barrique.Base.{
  ℕ, zero, suc, ◌+◌, ◌≡◌, refl, ap, ◌∙◌, Bool, true, false, none, some, List, [], ◌∷◌, ◌++◌, length,
  replicate, Outcome, ok, err, panic, arith, append_assoc, append-nil, map,
}
use barrique.Stream.{DecodeBearer}
use barrique.Codec.{DecodeError, Encode, Decode}
use barrique.Codec.Seq.{decode_items}
use barrique.Guard.{Memory, free, assume_init, Run}
use barrique.Guard.Array.{drop_array, drop_heap_array, complete}
use barrique.Guard.Slots.{holding, released, drop_filled, filled-some, replicate-add}

module _ {T : Type 0} where
  module _ (e : Encode T) (d : Decode T) (B : Type 0) (b : DecodeBearer B) where
    pub drop_array-holding :
        (vs : List T) (n : ℕ)
        → drop_array d B b (length vs) (holding vs n) ≡ some (released (length vs + n) true vs)
    drop_array-holding vs n =
        drop_filled 0 [] vs (replicate n none) [] refl
        ∙ ap (λ l. some (record { slots = l; live = true; dropped = vs }))
            (replicate-add (length vs) n none)

    pub drop_heap_array-holding :
        (vs : List T) (n : ℕ)
        → drop_heap_array d B b (length vs) (holding vs n)
          ≡ some (released (length vs + n) false vs)
    drop_heap_array-holding vs n =
        ap (λ o. elim o [ none ↦ none | some m ↦ free m ]) (drop_array-holding vs n)

    -- The items that are decoded, up to the first failure.
    unfoldable pub decoded_items : ℕ → B → List T
    decoded_items zero s = []
    decoded_items (suc n) s =
        let (r, s') = Decode.decode d B b s in
        let rest = decoded_items n s' in elim r [ ok v ↦ v ∷ rest | err e ↦ [] | panic ↦ [] ]

    -- The memory of `n` slots after a run with the given outcome: filled with the values, or emptied,
    -- with each value that was decoded dropped once.
    abbrev pub left : ℕ → Bool → List T → Outcome DecodeError (List T) → Memory T
    left n live vs (ok ws) = record { slots = map some ws; live = true; dropped = [] }
    left n live vs (err e) = released n live vs
    left n live vs panic = released n live vs

    -- The outcome with values in front.
    abbrev pub ahead : List T → Outcome DecodeError (List T) → Outcome DecodeError (List T)
    ahead vs (ok ws) = ok (vs ++ ws)
    ahead vs (err e) = err e
    ahead vs panic = panic

    -- The run that is expected of `n` slots, with the values `vs` in the first ones, where the rest of
    -- the loop decodes `ds` and ends with the given outcome.
    abbrev pub expected :
        ℕ → Bool → List T → Outcome DecodeError (List T) → B → List T → Run T B DecodeError
    expected n live vs r s ds = record {
      outcome = ahead vs r;
      bearer = s;
      memory = some (left n live (vs ++ ds) (ahead vs r));
    }

    pub expected_cons :
        (m n : ℕ) (live : Bool) (vs : List T) (v : T) (r : Outcome DecodeError (List T)) (s : B)
        (ds : List T)
        → m ≡ n
        → expected m live (vs ++ (v ∷ [])) r s ds ≡ expected n live vs (ahead (v ∷ []) r) s (v ∷ ds)
    expected_cons m n live vs v (ok ws) s ds e = rw (append_assoc vs (v ∷ []) ws) refl
    expected_cons m n live vs v (err e') s ds e = rw (append_assoc vs (v ∷ []) ds, e) refl
    expected_cons m n live vs v panic s ds e = rw (append_assoc vs (v ∷ []) ds, e) refl

    pub complete-holding :
        (vs : List T) (s : B)
        → complete d B b s (holding vs 0) ≡ expected (length vs) true vs (ok []) s []
    complete-holding vs s =
        let all : assume_init (holding vs 0) ≡ some vs =
          rw (append-nil (map some vs)) (filled-some vs) in
        ap
          (λ o. elim o [
            | none ↦ record { outcome = panic; bearer = s; memory = none }
            | some ws ↦ record { outcome = ok ws; bearer = s; memory = some (holding vs 0) }
          ])
          all
        ∙ rw (append-nil (map some vs), append-nil vs) refl

    pub items_ok :
        (n : ℕ) (s s' : B) (v : T)
        → Decode.decode d B b s ≡ (ok v, s')
        → (decode_items e d B b (suc n) s
            ≡ (ahead (v ∷ []) (decode_items e d B b n s').0, (decode_items e d B b n s').1))
          × (decoded_items (suc n) s ≡ v ∷ decoded_items n s')
    unfolding decode_items decoded_items
    items_ok n s s' v h = (ground arith, ground arith)

    pub items_err :
        (n : ℕ) (s s' : B) (f : DecodeError)
        → Decode.decode d B b s ≡ (err f, s')
        → (decode_items e d B b (suc n) s ≡ (err f, s')) × (decoded_items (suc n) s ≡ [])
    unfolding decode_items decoded_items
    items_err n s s' f h = (ground arith, ground arith)

    pub items_panic :
        (n : ℕ) (s s' : B)
        → Decode.decode d B b s ≡ (panic, s')
        → (decode_items e d B b (suc n) s ≡ (panic, s')) × (decoded_items (suc n) s ≡ [])
    unfolding decode_items decoded_items
    items_panic n s s' h = (ground arith, ground arith)

    pub expected_nil :
        (n : ℕ) (live : Bool) (r : Outcome DecodeError (List T)) (s : B) (ds : List T)
        → expected n live [] r s ds
          ≡ record { outcome = r; bearer = s; memory = some (left n live ds r) }
    expected_nil n live (ok ws) s ds = refl
    expected_nil n live (err f) s ds = refl
    expected_nil n live panic s ds = refl
