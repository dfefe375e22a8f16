-- ===== src/Derive/Found.antt =====
-- When each generated statement finds the value of its own field, the statements write the values of
-- the fields that are not skipped, in order.
use barrique.Base.{
  ℕ, ◌≡◌, sym, Bool, true, false, none, some, List, [], ◌∷◌, ◌++◌, if◌then◌else◌, arith, Bool-cases,
  inl, inr,
}
use barrique.Stream.{EncodeBearer}
use barrique.Codec.Laws.{RoundTrips, writing, writing-nil, writing_then}
use barrique.Derive.{
  Field, Name, same, Statement, skipped, skip_by_value, field_encode, field_decode, get, run,
}

-- A field with what is known of its codec.
pub record Own (V : Type 0) : Type 1 where
  pub field : Field V
  pub chunks : V → List (List ℕ)
  pub IsValid : V → Type 0
  pub fits :
      RoundTrips
        (record { encode = field_encode field; size_of = field.encode.size_of })
        (record { decode = field_decode field })
        chunks
        IsValid

module _ {V : Type 0} where
  abbrev pub fields : List (Own V) → List (Field V)
  fields [] = []
  fields (o ∷ os) = o.field ∷ fields os

  -- What the value of a field is written as, and the values of all.
  abbrev pub own_chunks : Own V → V → List (List ℕ)
  own_chunks o v = if skipped o.field.skip then [] else o.chunks v

  abbrev pub all_chunks : List (Own V) → List V → List (List ℕ)
  all_chunks (o ∷ os) (v ∷ vs) = own_chunks o v ++ all_chunks os vs
  all_chunks _ _ = []

  -- A skipped field holds what `decode` puts there; another meets the limits of its type.
  abbrev pub OwnIsValid : Own V → V → Type 0
  OwnIsValid o v = elim o.field.skip [
    | none ↦ o.IsValid v
    | some skip_by ↦ v ≡ skip_by_value o.field.default skip_by
  ]

  abbrev pub AllIsValid : List (Own V) → List V → Type 0
  AllIsValid (o ∷ os) (v ∷ vs) = OwnIsValid o v × AllIsValid os vs
  AllIsValid _ _ = Unit

  -- The statements are those of the fields that are not skipped, and each finds its own value.
  pub data Finds (env : List (Name × V)) : List (Own V) → List V → List (Statement V) → Type 1 where
    done : Finds env [] [] []
    skip :
        {os : List (Own V)} {vs : List V} {sts : List (Statement V)} (o : Own V) (v : V)
        → skipped o.field.skip ≡ true
        → Finds env os vs sts
        → Finds env (o ∷ os) (v ∷ vs) sts
    write :
        {os : List (Own V)} {vs : List V} {sts : List (Statement V)} (o : Own V) (v : V) (n : Name)
        → skipped o.field.skip ≡ false
        → get env n ≡ some v
        → Finds env os vs sts
        → Finds env (o ∷ os) (v ∷ vs) ((record { name = n; encoder = field_encode o.field }) ∷ sts)

  pub run-Finds :
      {env : List (Name × V)} {os : List (Own V)} {vs : List V} {sts : List (Statement V)}
      (B : Type 0) (b : EncodeBearer B) (s : B)
      → Finds env os vs sts
      → run env sts B b s ≡ writing b (all_chunks os vs) s
  unfolding run
  run-Finds B b s done = sym (writing-nil b s)
  run-Finds B b s (skip o v k p) = rw k (run-Finds B b s p)
  run-Finds {env} B b s (write {os = os} {vs = vs} {sts = sts} o v n k g p) =
      rw (g, k)
        (writing_then b (field_encode o.field B b v) (run env sts B b) (o.chunks v)
          (all_chunks os vs) s (λ t. RoundTrips.encoded o.fits B b v t) (λ t. run-Finds B b t p))

  -- A variable that no statement names does not matter.
  abbrev pub clear : Name → List (Statement V) → Bool
  clear m [] = true
  clear m (st ∷ sts) = let rest = clear m sts in if same m st.name then false else rest

  clear_not :
      (m n : Name) (sts : List (Statement V)) (o : Own V)
      → same m n ≡ true
      → clear m ((record { name = n; encoder = field_encode o.field }) ∷ sts) ≡ true
      → ⊥
  clear_not m n sts o e c = ground arith

  pub Finds-more :
      {env : List (Name × V)} {os : List (Own V)} {vs : List V} {sts : List (Statement V)}
      (m : Name) (w : V)
      → clear m sts ≡ true
      → Finds env os vs sts
      → Finds ((m, w) ∷ env) os vs sts
  Finds-more m w c done = done
  Finds-more m w c (skip o v k p) = skip o v k (Finds-more m w c p)
  Finds-more m w c (write {sts = sts} o v n k g p) = elim (Bool-cases (same m n)) [
    | inl e ↦ absurd (clear_not m n sts o e c)
    | inr e ↦ write o v n k (rw e g) (Finds-more m w (rw e at c) p)
  ]
