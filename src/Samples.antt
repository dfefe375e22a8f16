-- ===== src/Samples.antt =====
-- Concrete instances of what the program takes from outside: a codec that stores each block behind
-- the number of blocks before it, and a hash. They show that the laws can hold.
use barrique.Base.{
  ℕ, suc, ◌+◌, ◌≤◌, ◌<◌, ◌%◌, ◌^◌, ◌≡◌, refl, ap, Option, none, some, List, [], ◌∷◌, length, leb,
  ◌==◌, ◌&&◌, if◌then◌else◌, arith, ok, err, take, drop, ◌++◌, ◌∙◌, append_assoc, length-append,
  take-append_at, drop-append_at, All, Bool-cases, inl, inr, subst, Ensures, Ensures-ok,
  Ensures-err, length-take, All-take, All-drop,
}
use barrique.Region.{RegionError}
use barrique.Stream.{EncodeBearer, DecodeBearer}
use barrique.Codec.Laws.{DecodeBearerLaws}
use barrique.Codec.Robust.{SoundBearer}
use barrique.Bytes.{IsByte}
use barrique.Lz4.{Foreign, ForeignLaws, ForeignBytes, compress_bound}

abbrev pub stored : Foreign
stored = record {
  EncContext = ℕ;
  DecContext = ℕ;
  create_stream = 0;
  create_stream_decode = 0;
  compress_continue = λ e src. ((e % 256) ∷ src, e + 1);
  decompress_safe_continue = load;
  oneshot = λ seed bytes. (seed + length bytes) % 2 ^ 64;
}
  where
    load : ℕ → List ℕ → ℕ → Option (List ℕ) × ℕ
    load d [] room = (none, d)
    load d (b ∷ bs) room =
        if (b == d % 256) && leb (length bs) room then (some bs, d + 1) else (none, d)

stored_bound :
    (src : List ℕ) → length src < 0x7E000000 → suc (length src) ≤ compress_bound (length src)
stored_bound src k = ground arith

stored_load :
    (e d : ℕ) (src : List ℕ) (room : ℕ)
    → e ≡ d
    → length src ≤ room
    → stored.decompress_safe_continue d ((e % 256) ∷ src) room ≡ (some src, d + 1)
stored_load e d src room sync fits = ground arith

unfoldable pub stored_laws : ForeignLaws stored
unfolding stored_bound stored_load
stored_laws = record {
  InStep = λ e d. e ≡ d;
  fresh_InStep = refl;
  compressed_some = λ e src h k. omega arith;
  compressed_bound = λ e src k. stored_bound src k;
  decompressed = λ e d src room sync h k fits.
      (d + 1, stored_load e d src room sync fits, ap (λ n. n + 1) sync);
  oneshot-lt = λ seed bytes. omega arith;
}

-- A bearer that keeps what is written, and one that reads from a list of bytes.
abbrev pub log_bearer : EncodeBearer (List ℕ)
log_bearer = record { write = λ bytes s. (ok tt, s ++ bytes) }

abbrev pub list_bearer : DecodeBearer (List ℕ)
list_bearer = record {
  read = λ n s.
      if leb n (length s) then (ok (take n s), drop n s) else (err RegionError.out_of_bounds, s);
}

abbrev pub joined : List (List ℕ) → List ℕ
joined [] = []
joined (c ∷ cs) = c ++ joined cs

list_read :
    (s a : List ℕ) (cs : List (List ℕ))
    → s ≡ joined (a ∷ cs)
    → (s' : List ℕ) × (DecodeBearer.read list_bearer (length a) s ≡ (ok a, s')) × (s' ≡ joined cs)
list_read s a cs h = (
  joined cs,
  rw h (
      ground (
        arith,
        length-append a (joined cs),
        take-append_at (length a) a (joined cs) refl,
        drop-append_at (length a) a (joined cs) refl,
      )),
  refl,
)

unfoldable pub list_bearer_laws : DecodeBearerLaws list_bearer
unfolding list_read
list_bearer_laws = record {
  Aligned = λ s cs. s ≡ joined cs;
  read_chunk = list_read;
  split_chunk = λ s a c cs h e. e ∙ append_assoc a c (joined cs);
  skip_chunk = λ s cs e. e;
}

-- What `stored` gives back is a part of the block.
stored_part :
    (d : ℕ) (src out : List ℕ) (room : ℕ)
    → All IsByte src
    → (stored.decompress_safe_continue d src room).0 ≡ some out
    → All IsByte out
stored_part d [] out room h e = absurd (ground (arith, e))
stored_part d (b ∷ bs) out room h e = elim (Bool-cases ((b == d % 256) && leb (length bs) room)) [
  | inl t ↦ let same : bs ≡ out = ground (arith, t, e) in subst (All IsByte) same h.1
  | inr t ↦ absurd (ground (arith, t, e))
]

pub stored_bytes : ForeignBytes stored
stored_bytes = record { decompressed_bytes = stored_part }

-- A list of bytes as a bearer, whatever they are.
list_read_sound :
    (n : ℕ) (s : List ℕ)
    → All IsByte s
    → Ensures
        (λ bytes s'. (length bytes ≡ n) × All IsByte bytes × All IsByte s')
        (DecodeBearer.read list_bearer n s)
list_read_sound n s h = elim (Bool-cases (leb n (length s))) [
  | inl e ↦
      let k : n ≤ length s = ground (arith, e) in
      rw e
        (Ensures-ok (omega (arith, length-take n s), All-take IsByte n s h, All-drop IsByte n s h))
  | inr e ↦ rw e Ensures-err
]

unfoldable pub list_sound : SoundBearer list_bearer
unfolding list_read_sound
list_sound = record { IsSound = λ s. All IsByte s; read_sound = list_read_sound }
