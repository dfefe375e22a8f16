-- ===== src/Derive/TupleGuard.antt =====
-- derive/src/tuple_drop_guard.rs, and `decode` of a tuple in src/impl/tuple.rs with the guard that the
-- macro makes. The values of all fields are of one type `V`.
use mathlib.Core.List.{reverse, reverse-append, reverse-cons}
use barrique.Base.{
  ℕ, suc, ◌-◌, ◌≡◌, refl, subst, ap, sym, ◌∙◌, true, false, Option, none, some, List, [], ◌∷◌, ◌++◌,
  length, drop, Outcome, ok, err, panic, if◌then◌else◌, arith, append_assoc, length-append, ltb,
  ◌==◌, lt→ltb, ne→==, drop-append_at,
}
use barrique.Stream.{DecodeBearer}
use barrique.Codec.{DecodeError, Decode}

-- The drops of an arm: `input.fields.iter().rev().skip(input.fields.len() - idx)`
abbrev pub drop_impls : List ℕ → ℕ → List ℕ
drop_impls fields idx = drop (length fields - idx) (reverse fields)

-- `impl_input`: there are arms for 0 and for each number below that of the fields; `none` is
-- `unreachable!()`.
unfoldable pub tuple_guard : List ℕ → ℕ → Option (List ℕ)
tuple_guard fields count =
    if count == 0
    then some []
    else if ltb count (length fields)
    then some (drop_impls fields count)
    else none

-- A run of `decode` of a tuple, with the fields that it has initialised and those that the guard drops.
pub record TupleRun (V B : Type 0) : Type 0 where
  pub outcome : Outcome DecodeError (List V)
  pub bearer : B
  pub initialised : List ℕ
  pub dropped : Option (List ℕ)

module _ {V : Type 0} (all : List ℕ) (B : Type 0) (b : DecodeBearer B) where
  -- The statements from a field on; `count` is `guard.count`.
  unfoldable pub tuple_from : ℕ → List (ℕ × Decode V) → List V → List ℕ → B → TupleRun V B
  unfolding tuple_guard
  tuple_from count [] vs ns s = record {
    outcome = ok vs;
    bearer = s;
    initialised = ns;
    dropped = some [];
  }
  tuple_from count ((idx, d) ∷ ds) vs ns s =
      let (r, s') = Decode.decode d B b s in
      elim r [
        | ok v ↦ tuple_from (suc count) ds (vs ++ (v ∷ [])) (ns ++ (idx ∷ [])) s'
        | err e ↦ record {
          outcome = err e;
          bearer = s';
          initialised = ns;
          dropped = tuple_guard all count;
        }
        | panic ↦ record {
          outcome = panic;
          bearer = s';
          initialised = ns;
          dropped = tuple_guard all count;
        }
      ]

  -- What a run has dropped, by its outcome.
  abbrev pub DropsBackwards : TupleRun V B → Type 0
  DropsBackwards r = elim r.outcome [
    | ok vs ↦ r.dropped ≡ some []
    | err e ↦ r.dropped ≡ some (reverse r.initialised)
    | panic ↦ r.dropped ≡ some (reverse r.initialised)
  ]

-- `$idx` of each field
abbrev pub indices : {V : Type 0} → List (ℕ × Decode V) → List ℕ
indices [] = []
indices ((idx, d) ∷ ds) = idx ∷ indices ds

unfoldable pub tuple_run :
    {V : Type 0} → List (ℕ × Decode V) → (B : Type 0) → DecodeBearer B → B → TupleRun V B
unfolding tuple_from
tuple_run fields B b s = tuple_from (indices fields) B b 0 fields [] [] s

length-reverse : (ns : List ℕ) → length (reverse ns) ≡ length ns
length-reverse [] = refl
length-reverse (n ∷ ns) =
    ap length (reverse-cons n ns)
    ∙ length-append (reverse ns) (n ∷ [])
    ∙ omega (arith, length-reverse ns)

-- The arm of the guard at a field of the tuple.
tuple_guard-some :
    (pre : List ℕ) (n : ℕ) (ns : List ℕ)
    → tuple_guard (pre ++ (n ∷ ns)) (length pre) ≡ some (reverse pre)
unfolding tuple_guard
tuple_guard-some [] n ns = refl
tuple_guard-some (m ∷ pre) n ns =
    let positive : (suc (length pre) == 0) ≡ false = ne→== _ _ (λ h. absurd (omega arith)) in
    let inside : ltb (suc (length pre)) (suc (length (pre ++ (n ∷ ns)))) ≡ true =
      lt→ltb _ _ (omega (arith, length-append pre (n ∷ ns))) in
    let behind : suc (length (pre ++ (n ∷ ns))) - suc (length pre) ≡ length (reverse (n ∷ ns)) =
      omega (arith, length-append pre (n ∷ ns), length-reverse (n ∷ ns)) in
    rw (positive, inside)
      (ap (λ l. some (drop (suc (length (pre ++ (n ∷ ns))) - suc (length pre)) l))
          (reverse-append (m ∷ pre) (n ∷ ns))
        ∙ ap some (drop-append_at _ (reverse (n ∷ ns)) (reverse (m ∷ pre)) behind))

module _ {V B : Type 0} (b : DecodeBearer B) where
  from_ok :
      (all : List ℕ) (count idx : ℕ) (d : Decode V) (ds : List (ℕ × Decode V)) (vs : List V)
      (ns : List ℕ) (s s' : B) (v : V)
      → Decode.decode d B b s ≡ (ok v, s')
      → tuple_from all B b count ((idx, d) ∷ ds) vs ns s
        ≡ tuple_from all B b (suc count) ds (vs ++ (v ∷ [])) (ns ++ (idx ∷ [])) s'
  unfolding tuple_from
  from_ok all count idx d ds vs ns s s' v h = ground (arith, h)

  from_err :
      (all : List ℕ) (count idx : ℕ) (d : Decode V) (ds : List (ℕ × Decode V)) (vs : List V)
      (ns : List ℕ) (s s' : B) (e : DecodeError)
      → Decode.decode d B b s ≡ (err e, s')
      → tuple_from all B b count ((idx, d) ∷ ds) vs ns s
        ≡ record { outcome = err e; bearer = s'; initialised = ns; dropped = tuple_guard all count }
  unfolding tuple_from
  from_err all count idx d ds vs ns s s' e h = ground (arith, h)

  from_panic :
      (all : List ℕ) (count idx : ℕ) (d : Decode V) (ds : List (ℕ × Decode V)) (vs : List V)
      (ns : List ℕ) (s s' : B)
      → Decode.decode d B b s ≡ (panic, s')
      → tuple_from all B b count ((idx, d) ∷ ds) vs ns s
        ≡ record { outcome = panic; bearer = s'; initialised = ns; dropped = tuple_guard all count }
  unfolding tuple_from
  from_panic all count idx d ds vs ns s s' h = ground (arith, h)

  from_any :
      (all : List ℕ) (count idx : ℕ) (d : Decode V) (ds : List (ℕ × Decode V)) (vs : List V)
      (ns : List ℕ) (s : B)
      → tuple_guard all count ≡ some (reverse ns)
      → ((v : V) (s' : B)
          → DropsBackwards all B b
              (tuple_from all B b (suc count) ds (vs ++ (v ∷ [])) (ns ++ (idx ∷ [])) s'))
      → (m : Outcome DecodeError V × B) → Decode.decode d B b s ≡ m
      → DropsBackwards all B b (tuple_from all B b count ((idx, d) ∷ ds) vs ns s)
  unfolding tuple_from
  from_any all count idx d ds vs ns s g rest (ok v, s') h =
      subst (DropsBackwards all B b) (sym (from_ok all count idx d ds vs ns s s' v h)) (rest v s')
  from_any all count idx d ds vs ns s g rest (err e, s') h =
      subst (DropsBackwards all B b) (sym (from_err all count idx d ds vs ns s s' e h)) g
  from_any all count idx d ds vs ns s g rest (panic, s') h =
      subst (DropsBackwards all B b) (sym (from_panic all count idx d ds vs ns s s' h)) g

  tuple_from-DropsBackwards :
      (pre : List ℕ) (fields : List (ℕ × Decode V)) (count : ℕ) (vs : List V) (s : B) (all : List ℕ)
      → count ≡ length pre
      → all ≡ pre ++ indices fields
      → DropsBackwards all B b (tuple_from all B b count fields vs pre s)
  unfolding tuple_from
  tuple_from-DropsBackwards pre [] count vs s all c a = refl
  tuple_from-DropsBackwards pre ((idx, d) ∷ fields) count vs s all c a =
      from_any all count idx d fields vs pre s
        (rw (c, a) (tuple_guard-some pre idx (indices fields)))
        (λ v s'.
          tuple_from-DropsBackwards (pre ++ (idx ∷ [])) fields (suc count) (vs ++ (v ∷ [])) s' all
            (omega (arith, length-append pre (idx ∷ [])))
            (a ∙ sym (append_assoc pre (idx ∷ []) (indices fields))))
        (Decode.decode d B b s) refl

  -- Where `decode` of a tuple fails or panics, the guard that `tuple_drop_guard!` makes drops just the
  -- fields that were initialised, each once and the last one first, and never meets `unreachable!()`;
  -- where `decode` succeeds the guard drops nothing.
  pub tuple_run-DropsBackwards :
      (fields : List (ℕ × Decode V)) (s : B)
      → DropsBackwards (indices fields) B b (tuple_run fields B b s)
  unfolding tuple_run
  tuple_run-DropsBackwards fields s =
      tuple_from-DropsBackwards [] fields 0 [] s (indices fields) refl refl
