-- ===== src/Codec/Laws.antt =====
-- What it means that the two implementations of a type fit together, for every bearer.
use barrique.Base.{
  ℕ, ◌≤◌, ◌<◌, ◌≡◌, refl, ◌∙◌, List, [], ◌∷◌, ◌++◌, length, ok, Call, map_err, ◌>>◌, All, arith,
}
use barrique.Region.{region_size}
use barrique.Stream.{EncodeBearer, DecodeBearer}
use barrique.Stream.Encoding.{write_all}
use barrique.Codec.{EncodeError, Encode, Decode, write, read}

-- The writes of `chunks`, up to the first error.
unfoldable pub writing :
    {B : Type 0} → EncodeBearer B → List (List ℕ) → Call B EncodeError (Unit {0})
writing b chunks s = let (r, s') = write_all b chunks s in (map_err EncodeError.bearer_error r, s')

-- A bearer that delivers known chunks, in order.
pub record DecodeBearerLaws {B : Type 0} (b : DecodeBearer B) : Type 1 where
  pub Aligned : B → List (List ℕ) → Type 0
  pub read_chunk :
      (s : B) (a : List ℕ) (cs : List (List ℕ))
      → Aligned s (a ∷ cs)
      → (s' : B) × (b.read (length a) s ≡ (ok a, s')) × Aligned s' cs
  pub split_chunk :
      (s : B) (a c : List ℕ) (cs : List (List ℕ))
      → 0 < length a
      → Aligned s ((a ++ c) ∷ cs)
      → Aligned s (a ∷ c ∷ cs)
  pub skip_chunk : (s : B) (cs : List (List ℕ)) → Aligned s ([] ∷ cs) → Aligned s cs

-- `encode` writes the chunks of a value, on every branch, and `decode` reads them back.
pub record RoundTrips {T : Type 0} (e : Encode T) (d : Decode T) (chunks : T → List (List ℕ))
    (IsValid : T → Type 0) : Type 1 where
  pub chunks_small : (v : T) → All (λ c. length c ≤ region_size) (chunks v)
  pub encoded :
      (B : Type 0) (b : EncodeBearer B) (v : T) (s : B) → e.encode B b v s ≡ writing b (chunks v) s
  pub decoded :
      (B : Type 0) (b : DecodeBearer B) (bl : DecodeBearerLaws b) (v : T) (s : B)
      (cs : List (List ℕ))
      → IsValid v
      → DecodeBearerLaws.Aligned bl s (chunks v ++ cs)
      → (s' : B) × (d.decode B b s ≡ (ok v, s')) × DecodeBearerLaws.Aligned bl s' cs

module _ {B : Type 0} (b : EncodeBearer B) where
  pub writing-nil : (s : B) → writing b [] s ≡ (ok tt, s)
  unfolding writing write_all
  writing-nil s = refl

  pub writing-one : (c : List ℕ) (s : B) → write b c s ≡ writing b (c ∷ []) s
  unfolding writing write_all write
  writing-one c s = ground arith

  pub writing-append :
      (cs ds : List (List ℕ)) (s : B) → (writing b cs >> writing b ds) s ≡ writing b (cs ++ ds) s
  unfolding writing write_all
  writing-append [] ds s = refl
  writing-append (c ∷ cs) ds s = ground (arith, writing-append cs ds (b.write c s).1)

  -- One encoding after another.
  pub writing_then :
      (m k : Call B EncodeError (Unit {0})) (cs ds : List (List ℕ)) (s : B)
      → ((t : B) → m t ≡ writing b cs t)
      → ((t : B) → k t ≡ writing b ds t)
      → (m >> k) s ≡ writing b (cs ++ ds) s
  writing_then m k cs ds s hm hk =
      (λ i. ((λ t. hm t i) >> (λ t. hk t i)) s) ∙ writing-append cs ds s

pub read_lem :
    {B : Type 0} (b : DecodeBearer B) (n : ℕ) (s s' : B) (a : List ℕ)
    → b.read n s ≡ (ok a, s')
    → read b n s ≡ (ok a, s')
unfolding read
read_lem b n s s' a h = ground arith
