-- ===== src/Io/Exact.antt =====
-- Readers that deliver exactly what is asked for, or an error: whatever the bytes are.
use barrique.Base.{
  ℕ, ◌-◌, ◌≤◌, ◌≡◌, List, length, All, Ensures, Ensures-ok, Ensures-err, Bool-cases, inl, inr, ltb,
  ltb→lt, ltb_false→le, length-take, length-drop, All-take, All-drop, arith, Ensures-bind, eq→==,
}
use barrique.Bytes.{IsByte}
use barrique.Io.{Reader, read_borrow_const}
use barrique.Io.Slice.{slice_reader, slice_some, slice_none, slice_advance_lem}

-- `Good j` is the invariant of the reader, where `j` bounds what is left of a source that ends, and
-- is free where the source does not. `Held n` says that `n` bytes may be consumed, since a slice
-- panics where there are too few.
pub record ExactReader {R : Type 0} (r : Reader R) : Type 1 where
  pub Good : ℕ → R → Type 0
  pub Held : ℕ → R → Type 0
  pub Held-le : (m n : ℕ) (s : R) → m ≤ n → Held n s → Held m s
  pub borrowed :
      (j n : ℕ) (s : R)
      → Good j s
      → Ensures
          (λ bytes s'. (length bytes ≡ n) × All IsByte bytes × Good j s' × Held n s')
          (Reader.read_borrow r n s)
  pub advanced :
      (j n : ℕ) (s : R)
      → Good j s
      → Held n s
      → Ensures (λ _ s'. Good (j - n) s') (Reader.advance r n s)

-- A source that ends holds no more than its bound.
pub record FiniteReader {R : Type 0} {r : Reader R} (xr : ExactReader r) : Type 0 where
  pub held : (j n : ℕ) (s : R) → ExactReader.Good xr j s → ExactReader.Held xr n s → n ≤ j

-- A slice of bytes.
abbrev pub IsRest : ℕ → List ℕ → Type 0
IsRest j s = All IsByte s × (length s ≤ j)

pub slice_borrowed :
    (j n : ℕ) (s : List ℕ)
    → IsRest j s
    → Ensures
        (λ bytes s'. (length bytes ≡ n) × All IsByte bytes × IsRest j s' × (n ≤ length s'))
        (slice_reader.read_borrow n s)
slice_borrowed j n s h = elim (Bool-cases (ltb (length s) n)) [
  | inl e ↦ rw (slice_none n s (ltb→lt _ _ e)) Ensures-err
  | inr e ↦
      let k : n ≤ length s = ltb_false→le _ _ e in
      rw (slice_some n s k) (Ensures-ok (omega (arith, length-take n s), All-take _ n s h.0, h, k))
]

pub slice_advanced :
    (j n : ℕ) (s : List ℕ)
    → IsRest j s
    → n ≤ length s
    → Ensures (λ _ s'. IsRest (j - n) s') (slice_reader.advance n s)
unfolding slice_reader
slice_advanced j n s h k =
    let (s', e, same) = slice_advance_lem n s k in
    rw e (Ensures-ok (rw same (All-drop _ n s h.0, omega (arith, h.1, length-drop n s))))

unfoldable pub slice_exact : ExactReader slice_reader
slice_exact = record {
  Good = IsRest;
  Held = λ n s. n ≤ length s;
  Held-le = λ m n s h k. omega arith;
  borrowed = slice_borrowed;
  advanced = slice_advanced;
}

pub slice_finite : FiniteReader slice_exact
unfolding slice_exact
slice_finite = record { held = λ j n s h k. omega (arith, h.1, k) }

module _ {R : Type 0} (r : Reader R) (xr : ExactReader r) where
  open xr use {Good, Held, borrowed}

  pub const_borrowed :
      (j n : ℕ) (s : R)
      → Good j s
      → Ensures
          (λ bytes s'. (length bytes ≡ n) × All IsByte bytes × Good j s' × Held n s')
          (read_borrow_const r n s)
  unfolding read_borrow_const
  const_borrowed j n s h =
      Ensures-bind (borrowed j n s h) (λ bytes k. rw (eq→== (length bytes) n k.0) (Ensures-ok k))
