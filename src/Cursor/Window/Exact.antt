-- ===== src/Cursor/Window/Exact.antt =====
-- A `CursorReader` over a source that is free to deliver any bytes.
use barrique.Base.{
  ℕ, ◌+◌, ◌-◌, ◌≤◌, ◌<◌, ◌≡◌, List, length, take, drop, Outcome, ok, err, panic, All, All-append,
  All-take, All-drop, All-replicate, arith, ltb, Bool-cases, inl, inr, ltb→lt, ltb_false→le,
  Ensures, Ensures-ok, Ensures-err,
}
use barrique.Bytes.{IsByte}
use barrique.Io.{ReadError}
use barrique.Io.Exact.{ExactReader}
use barrique.Cursor.View.{Read, CursorReader, filled, new_len, read, advance, cursor_reader}
use barrique.Cursor.Window.{
  ReadLaws, IsValid, After, read-After, length-filled, length-slice, new_len-ge, grow_ok, grow_err,
  read_inside, read_refused, read_grown, read_failed, Outcome-cases,
}

-- What `io::Read` gives is bytes.
pub record ReadBytes {R : Type 0} (r : Read R) : Type 0 where
  pub bytes : (n : ℕ) (s s' : R) (bs : List ℕ) → Read.read r n s ≡ (ok bs, s') → All IsByte bs

module _ {R : Type 0} (r : Read R) (rl : ReadLaws r) (rb : ReadBytes r) where
  -- The buffer holds bytes, and so does what was read.
  abbrev Gives : Outcome ReadError (List ℕ) × CursorReader R → Type 0
  Gives (ok bs, c) = All IsByte bs × All IsByte c.buffer
  Gives (err e, c) = All IsByte c.buffer
  Gives (panic, c) = Unit {0}

  filled_bytes :
      (n : ℕ) (kept bs : List ℕ) → All IsByte kept → All IsByte bs → All IsByte (filled n kept bs)
  filled_bytes n kept bs h k = All-append IsByte kept _ h (
      All-append IsByte bs _ k (All-replicate IsByte (n - length kept - length bs) 0 (omega arith)))

  grown-Gives :
      (n : ℕ) (c : CursorReader R)
      → IsValid c
      → All IsByte c.buffer
      → c.end < c.start + n
      → c.end ≡ length c.buffer
      → Gives (read r n c)
  grown-Gives n c v h more full =
      let room : ℕ = new_len r n - (c.end - c.start) in
      let ordered : c.start ≤ c.end = omega (arith, v.start_in) in
      elim (Outcome-cases (r.read room c.reader) (rl.no_panic room c.reader)) [
        | inl (bs, e) ↦
            let kept : List ℕ = take (c.end - c.start) (drop c.start c.buffer) in
            let part : length kept ≡ c.end - c.start =
              length-slice c.start c.end c.buffer ordered v.end_in in
            let few : length bs ≤ room = rl.reported _ _ _ bs e in
            let wide : n ≤ new_len r n = new_len-ge r n in
            let size : length (filled (new_len r n) kept bs) ≡ new_len r n =
              length-filled (new_len r n) kept bs (omega arith) in
            let all : All IsByte (filled (new_len r n) kept bs) =
              filled_bytes (new_len r n) kept bs
                (All-take IsByte (c.end - c.start) _ (All-drop IsByte c.start _ h))
                (rb.bytes _ _ _ bs e) in
            rw (read_grown r n c _ more full (grow_ok r n c bs _ ordered v.end_in e) (omega arith))
              (All-take IsByte (0 + n - 0) _ all, all)
        | inr (e, eq) ↦
            rw
              (read_failed r n c _ (ReadError.io e) more full
                (grow_err r n c e _ ordered v.end_in eq))
              h
      ]

  read-Gives : (n : ℕ) (c : CursorReader R) → IsValid c → All IsByte c.buffer → Gives (read r n c)
  read-Gives n c v h = elim (Bool-cases (ltb c.end (c.start + n))) [
    | inr fits ↦
        rw (read_inside r n c (ltb_false→le _ _ fits) v.end_in)
          (All-take IsByte (c.start + n - c.start) _ (All-drop IsByte c.start _ h), h)
    | inl more ↦ elim (Bool-cases (ltb c.end (length c.buffer))) [
      | inl part ↦ rw (read_refused r n c (ltb→lt _ _ more) (ltb→lt _ _ part)) h
      | inr full ↦
          grown-Gives n c v h (ltb→lt _ _ more) (omega (arith, v.end_in, ltb_false→le _ _ full))
    ]
  ]

  -- The window is in the buffer, which holds bytes; the source need not end.
  pub record Sound (j : ℕ) (c : CursorReader R) : Type 0 where
    pub valid : IsValid c
    pub bytes : All IsByte c.buffer

  abbrev pub InBuffer : ℕ → CursorReader R → Type 0
  InBuffer n c = c.start + n ≤ length c.buffer

  both :
      (j n : ℕ) (m : Outcome ReadError (List ℕ) × CursorReader R)
      → After r n m
      → Gives m
      → Ensures (λ bs d. (length bs ≡ n) × All IsByte bs × Sound j d × InBuffer n d) m
  both j n (ok bs, d) a g = Ensures-ok (a.0, g.0, record { valid = a.1; bytes = g.1 }, a.2)
  both j n (err e, d) a g = Ensures-err
  both j n (panic, d) a g = absurd a

  pub cursor_borrowed :
      (j n : ℕ) (c : CursorReader R)
      → Sound j c
      → Ensures
          (λ bs d. (length bs ≡ n) × All IsByte bs × Sound j d × InBuffer n d)
          ((cursor_reader r).read_borrow n c)
  unfolding cursor_reader
  cursor_borrowed j n c s =
      both j n (read r n c) (read-After r rl n c s.valid) (read-Gives n c s.valid s.bytes)

  pub cursor_advanced :
      (j n : ℕ) (c : CursorReader R)
      → Sound j c
      → InBuffer n c
      → Ensures (λ _ d. Sound (j - n) d) ((cursor_reader r).advance n c)
  unfolding cursor_reader advance
  cursor_advanced j n c s h =
      Ensures-ok
        (record { valid = record { start_in = h; end_in = s.valid.end_in }; bytes = s.bytes })

  unfoldable pub cursor_exact : ExactReader (cursor_reader r)
  cursor_exact = record {
    Good = Sound;
    Held = InBuffer;
    Held-le = λ m n c h k. omega arith;
    borrowed = cursor_borrowed;
    advanced = cursor_advanced;
  }
