-- ===== src/Cursor/Window.antt =====
-- The buffered window of a `CursorReader`: what keeps its accesses in range, and what it delivers.
pub mod Exact
use barrique.Base.{
  ℕ, ◌+◌, ◌-◌, ◌≤◌, ◌<◌, ◌≡◌, refl, ◌∙◌, List, ◌++◌, length, take, drop, replicate, Outcome, ok,
  err, panic, arith, ltb, length-append, length-replicate, length-take, length-drop, Bool-cases,
  inl, inr, ltb→lt, ltb_false→le, lt→ltb, le→ltb_false, ◌⊎◌,
}
use barrique.Io.{ReadError}
use barrique.Cursor.View.{Read, CursorReader, slice, filled, new_len, grow, read}

pub length-filled :
    (n : ℕ) (kept bytes : List ℕ)
    → length kept + length bytes ≤ n
    → length (filled n kept bytes) ≡ n
length-filled n kept bytes h = omega (
  arith,
  length-append kept (bytes ++ replicate (n - length kept - length bytes) 0),
  length-append bytes (replicate (n - length kept - length bytes) 0),
  length-replicate {A = ℕ} (n - length kept - length bytes) 0,
)

slice_ok :
    {E : Type 0} (from to : ℕ) (v : List ℕ)
    → from ≤ to
    → to ≤ length v
    → slice {E = E} from to v ≡ ok (take (to - from) (drop from v))
slice_ok from to v h k = ground arith

pub length-slice :
    (from to : ℕ) (v : List ℕ)
    → from ≤ to
    → to ≤ length v
    → length (take (to - from) (drop from v)) ≡ to - from
length-slice from to v h k =
    length-take (to - from) (drop from v) ∙ omega (arith, length-drop from v)

-- An `io::Read` reports no more bytes than there is room for, and does not panic.
pub record ReadLaws {R : Type 0} (r : Read R) : Type 0 where
  pub reported :
      (n : ℕ) (s s' : R) (bytes : List ℕ) → Read.read r n s ≡ (ok bytes, s') → length bytes ≤ n
  pub no_panic : (n : ℕ) (s : R) → ¬ ((Read.read r n s).0 ≡ panic)

-- Both ends of the window are inside the buffer.
pub record IsValid {R : Type 0} (c : CursorReader R) : Type 0 where
  pub start_in : c.start ≤ length c.buffer
  pub end_in : c.end ≤ length c.buffer

module _ {R : Type 0} (r : Read R) where
  -- What a read of `n` bytes may come to: that many bytes, which may then be consumed, or an error.
  abbrev pub After : ℕ → Outcome ReadError (List ℕ) × CursorReader R → Type 0
  After n (ok bytes, c) = (length bytes ≡ n) × IsValid c × (c.start + n ≤ length c.buffer)
  After n (err e, c) = IsValid c
  After n (panic, c) = ⊥

  pub new_len-ge : (n : ℕ) → n ≤ new_len r n
  new_len-ge n = ground arith

  pub grow_ok :
      (n : ℕ) (c : CursorReader R) (bytes : List ℕ) (s : R)
      → c.start ≤ c.end
      → c.end ≤ length c.buffer
      → r.read (new_len r n - (c.end - c.start)) c.reader ≡ (ok bytes, s)
      → grow r n c ≡ (
        ok tt,
        record {
          buffer = filled (new_len r n) (take (c.end - c.start) (drop c.start c.buffer)) bytes;
          start = 0;
          end = length bytes;
          reader = s;
        },
      )
  unfolding grow
  grow_ok n c bytes s h k e = ground (arith, length-slice c.start c.end c.buffer h k)

  grow_err :
      (n : ℕ) (c : CursorReader R) (e : ℕ) (s : R)
      → c.start ≤ c.end
      → c.end ≤ length c.buffer
      → r.read (new_len r n - (c.end - c.start)) c.reader ≡ (err e, s)
      → grow r n c ≡ (err (ReadError.io e), record c { reader = s })
  unfolding grow
  grow_err n c e s h k eq = ground (arith, length-slice c.start c.end c.buffer h k)

  -- The three ways through `read`.
  read_inside :
      (n : ℕ) (c : CursorReader R)
      → c.start + n ≤ c.end
      → c.end ≤ length c.buffer
      → read r n c ≡ (ok (take (c.start + n - c.start) (drop c.start c.buffer)), c)
  unfolding read
  read_inside n c h k = rw (le→ltb_false c.end (c.start + n) h) (
      rw (slice_ok {E = ReadError} c.start (c.start + n) c.buffer (omega arith) (omega arith)) refl)

  pub read_refused :
      (n : ℕ) (c : CursorReader R)
      → c.end < c.start + n
      → c.end < length c.buffer
      → read r n c ≡ (err ReadError.out_of_bounds, c)
  unfolding read
  read_refused n c h k =
      rw (lt→ltb c.end (c.start + n) h) (rw (lt→ltb c.end (length c.buffer) k) refl)

  pub read_grown :
      (n : ℕ) (c d : CursorReader R)
      → c.end < c.start + n
      → c.end ≡ length c.buffer
      → grow r n c ≡ (ok tt, d)
      → d.start + n ≤ length d.buffer
      → read r n c ≡ (ok (take (d.start + n - d.start) (drop d.start d.buffer)), d)
  unfolding read
  read_grown n c d h k e room = ground arith

  read_failed :
      (n : ℕ) (c d : CursorReader R) (e : ReadError)
      → c.end < c.start + n
      → c.end ≡ length c.buffer
      → grow r n c ≡ (err e, d)
      → read r n c ≡ (err e, d)
  unfolding read
  read_failed n c d e h k eq = ground arith

-- A call that does not panic returned a value or an error.
Outcome-cases :
    {R A : Type 0} (m : Outcome ℕ A × R)
    → ¬ (m.0 ≡ panic)
    → ((a : A) × (m ≡ (ok a, m.1))) ⊎ ((e : ℕ) × (m ≡ (err e, m.1)))
Outcome-cases (ok a, s) h = inl (a, refl)
Outcome-cases (err e, s) h = inr (e, refl)
Outcome-cases (panic, s) h = absurd (h refl)

module _ {R : Type 0} (r : Read R) (rl : ReadLaws r) where
  -- The buffer after a growth for `n` bytes holds them.
  grown-After :
      (n : ℕ) (c : CursorReader R)
      → IsValid c
      → c.end < c.start + n
      → c.end ≡ length c.buffer
      → After r n (read r n c)
  grown-After n c v more full =
      elim (Outcome-cases (r.read (new_len r n - (c.end - c.start)) c.reader)
        (rl.no_panic (new_len r n - (c.end - c.start)) c.reader)) [
          | inl (bytes, e) ↦
              let kept : List ℕ = take (c.end - c.start) (drop c.start c.buffer) in
              let s : R = (r.read (new_len r n - (c.end - c.start)) c.reader).1 in
              let ordered : c.start ≤ c.end = omega (arith, v.start_in) in
              let part : length kept ≡ c.end - c.start =
                length-slice c.start c.end c.buffer ordered v.end_in in
              let few : length bytes ≤ new_len r n - (c.end - c.start) =
                rl.reported _ _ s bytes e in
              let wide : n ≤ new_len r n = new_len-ge r n in
              let size : length (filled (new_len r n) kept bytes) ≡ new_len r n =
                length-filled (new_len r n) kept bytes (omega arith) in
              let d : CursorReader R = record {
                buffer = filled (new_len r n) kept bytes;
                start = 0;
                end = length bytes;
                reader = s;
              } in
              rw
                (read_grown r n c d more full (grow_ok r n c bytes s ordered v.end_in e)
                  (omega arith))
                (
                  length-take (0 + n - 0) (drop 0 (filled (new_len r n) kept bytes)) ∙ omega arith,
                  record { start_in = omega arith; end_in = omega arith },
                  omega arith,
                )
          | inr (e, eq) ↦
              rw
                (read_failed r n c _ (ReadError.io e) more full
                  (grow_err r n c e _ (omega (arith, v.start_in)) v.end_in eq))
                (record { start_in = v.start_in; end_in = v.end_in })
        ]

  -- A read does not panic and returns as many bytes as were asked for, which may then be consumed.
  pub read-After : (n : ℕ) (c : CursorReader R) → IsValid c → After r n (read r n c)
  read-After n c v = elim (Bool-cases (ltb c.end (c.start + n))) [
    | inr fits ↦
        let inside : c.start + n ≤ c.end = ltb_false→le _ _ fits in
        rw (read_inside r n c inside v.end_in) (
          length-slice c.start (c.start + n) c.buffer (omega arith) (omega (arith, v.end_in))
              ∙ omega arith,
          v,
          omega (arith, v.end_in),
        )
    | inl more ↦ elim (Bool-cases (ltb c.end (length c.buffer))) [
      | inl part ↦ rw (read_refused r n c (ltb→lt _ _ more) (ltb→lt _ _ part)) v
      | inr full ↦
          grown-After n c v (ltb→lt _ _ more) (omega (arith, v.end_in, ltb_false→le _ _ full))
    ]
  ]
