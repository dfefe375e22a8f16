-- ===== src/Guard/Slots.antt =====
-- Blocks whose first slots hold values.
use barrique.Base.{
  ℕ, zero, suc, ◌+◌, ◌≡◌, refl, ap, sym, ◌∙◌, Bool, true, Option, none, some, List, [], ◌∷◌, ◌++◌,
  length, replicate, arith, append_assoc, append-nil, length-append, map,
}
use barrique.Guard.{Memory, set_slot, slot_at, write_slot, drop_slot, drop_slots, filled}

module _ {T : Type 0} where
  set_slot_at :
      (i : ℕ) (os : List (Option T)) (o p : Option T) (rest : List (Option T))
      → i ≡ length os
      → set_slot i p (os ++ (o ∷ rest)) ≡ some (os ++ (p ∷ rest))
  set_slot_at zero [] o p rest e = refl
  set_slot_at (suc i) [] o p rest e = absurd (omega arith)
  set_slot_at zero (q ∷ os) o p rest e = absurd (omega arith)
  set_slot_at (suc i) (q ∷ os) o p rest e = rw (set_slot_at i os o p rest (omega arith)) refl

  slot_at_here :
      (i : ℕ) (os : List (Option T)) (o : Option T) (rest : List (Option T))
      → i ≡ length os
      → slot_at i (os ++ (o ∷ rest)) ≡ o
  slot_at_here zero [] o rest e = refl
  slot_at_here (suc i) [] o rest e = absurd (omega arith)
  slot_at_here zero (q ∷ os) o rest e = absurd (omega arith)
  slot_at_here (suc i) (q ∷ os) o rest e = slot_at_here i os o rest (omega arith)

  length-some : (vs : List T) → length (map some vs) ≡ length vs
  length-some [] = refl
  length-some (v ∷ vs) = ap suc (length-some vs)

  some_snoc :
      (vs : List T) (v : T) (rest : List (Option T))
      → map some vs ++ (some v ∷ rest) ≡ map some (vs ++ (v ∷ [])) ++ rest
  some_snoc [] v rest = refl
  some_snoc (u ∷ vs) v rest = ap (λ l. some u ∷ l) (some_snoc vs v rest)

  -- A block with values in its first slots.
  abbrev pub holding : List T → ℕ → Memory T
  holding vs n = record { slots = map some vs ++ replicate n none; live = true; dropped = [] }

  pub write_next :
      (vs : List T) (v : T) (n : ℕ)
      → write_slot (length vs) v (holding vs (suc n)) ≡ some (holding (vs ++ (v ∷ [])) n)
  write_next vs v n =
      rw
        (
          set_slot_at (length vs) (map some vs) none (some v) (replicate n none)
              (sym (length-some vs)),
          some_snoc vs v (replicate n none),
        )
        refl

  drop_next :
      (i : ℕ) (before : List (Option T)) (v : T) (rest : List (Option T)) (ds : List T)
      → i ≡ length before
      → drop_slot i (record { slots = before ++ (some v ∷ rest); live = true; dropped = ds })
        ≡ some (record { slots = before ++ (none ∷ rest); live = true; dropped = ds ++ (v ∷ []) })
  drop_next i before v rest ds e =
      rw (slot_at_here i before (some v) rest e, set_slot_at i before (some v) none rest e) refl

  pub drop_filled :
      (i : ℕ) (before : List (Option T)) (vs : List T) (rest : List (Option T)) (ds : List T)
      → i ≡ length before
      → drop_slots
          (length vs)
          i
          (record { slots = before ++ (map some vs ++ rest); live = true; dropped = ds })
        ≡ some (record {
          slots = before ++ (replicate (length vs) none ++ rest);
          live = true;
          dropped = ds ++ vs;
        })
  drop_filled i before [] rest ds e = rw (append-nil ds) refl
  drop_filled i before (v ∷ vs) rest ds e =
      let more : suc i ≡ length (before ++ (none ∷ [])) =
        omega (arith, length-append before (none ∷ [])) in
      let next = drop_filled (suc i) (before ++ (none ∷ [])) vs rest (ds ++ (v ∷ [])) more in
      let ends : drop_slots (length vs) (suc i) (record {
        slots = before ++ (none ∷ (map some vs ++ rest));
        live = true;
        dropped = ds ++ (v ∷ []);
      })
          ≡ some (record {
            slots = before ++ (none ∷ (replicate (length vs) none ++ rest));
            live = true;
            dropped = ds ++ (v ∷ vs);
          }) =
        rw
          (
            append_assoc before (none ∷ []) (map some vs ++ rest),
            append_assoc before (none ∷ []) (replicate (length vs) none ++ rest),
            append_assoc ds (v ∷ []) vs,
          )
          at next in
      ap (λ o. elim o [ none ↦ none | some m ↦ drop_slots (length vs) (suc i) m ])
        (drop_next i before v (map some vs ++ rest) ds e)
      ∙ ends

  pub filled-some : (vs : List T) → filled (map some vs) ≡ some vs
  filled-some [] = refl
  filled-some (v ∷ vs) = rw (filled-some vs) refl

  pub replicate-add :
      (m n : ℕ) (o : Option T) → replicate m o ++ replicate n o ≡ replicate (m + n) o
  replicate-add zero n o = ap (λ k. replicate k o) (omega arith)
  replicate-add (suc m) n o =
      let step : suc (m + n) ≡ suc m + n = omega arith in
      ap (λ l. o ∷ l) (replicate-add m n o) ∙ ap (λ k. replicate k o) step

  -- A block of `n` slots that is empty again, with the values that were in it.
  abbrev pub released : ℕ → Bool → List T → Memory T
  released n live vs = record { slots = replicate n none; live = live; dropped = vs }
