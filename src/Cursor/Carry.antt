-- ===== src/Cursor/Carry.antt =====
-- What a growth of the buffer of a `CursorReader` forgets, and what it makes up.
use barrique.Base.{
  ℕ, ◌+◌, ◌-◌, ◌≤◌, ◌<◌, ◌≡◌, ap, ◌∙◌, List, [], ◌++◌, length, take, drop, replicate, ok, err,
  arith, length-drop, take-length, append-nil, take-append_past, take-replicate,
}
use barrique.Io.{ReadError}
use barrique.Cursor.View.{Read, CursorReader, filled, new_len, read}
use barrique.Cursor.Window.{
  read_grown, read_refused, grow_ok, length-filled, length-slice, new_len-ge,
}

module _ {R : Type 0} (r : Read R) where
  -- A growth that keeps bytes sets `end` to the bytes that the source gave, without those that were
  -- kept. So after a read that needed such a growth, with a source that filled the whole room, the
  -- bytes are all in the buffer, but a read beyond the length of those that the source gave fails
  -- with `OutOfBounds`.
  pub read_after_carry :
      (n m : ℕ) (c : CursorReader R) (bytes : List ℕ) (s : R)
      → c.start < c.end
      → c.end ≡ length c.buffer
      → c.end < c.start + n
      → r.read (new_len r n - (c.end - c.start)) c.reader ≡ (ok bytes, s)
      → length bytes ≡ new_len r n - (c.end - c.start)
      → length bytes < m
      → m ≤ new_len r n
      → (d : CursorReader R) × (read r n c ≡ (ok (take n d.buffer), d))
        × (d.buffer ≡ drop c.start c.buffer ++ bytes)
        × (m ≤ length d.buffer)
        × (read r m d ≡ (err ReadError.out_of_bounds, d))
  read_after_carry n m c bytes s some_kept full more e whole past near =
      let kept : List ℕ = take (c.end - c.start) (drop c.start c.buffer) in
      let in_all : c.end - c.start ≡ length (drop c.start c.buffer) =
        omega (arith, length-drop c.start c.buffer) in
      let all_kept : kept ≡ drop c.start c.buffer =
        ap (λ k. take k (drop c.start c.buffer)) in_all ∙ take-length (drop c.start c.buffer) in
      let part : length kept ≡ c.end - c.start =
        length-slice c.start c.end c.buffer (omega arith) (omega arith) in
      let wide : n ≤ new_len r n = new_len-ge r n in
      let size : length (filled (new_len r n) kept bytes) ≡ new_len r n =
        length-filled (new_len r n) kept bytes (omega arith) in
      let d : CursorReader R = record {
        buffer = filled (new_len r n) kept bytes;
        start = 0;
        end = length bytes;
        reader = s;
      } in
      let no_rest : new_len r n - length kept - length bytes ≡ 0 = omega arith in
      let back : (0 + n) - 0 ≡ n = omega arith in
      (
        d,
        read_grown r n c d more full (grow_ok r n c bytes s (omega arith) (omega arith) e)
              (omega arith)
            ∙ ap (λ k. (ok (take k d.buffer), d)) back,
        ap (λ l. l ++ (bytes ++ replicate (new_len r n - length kept - length bytes) 0)) all_kept
            ∙ ap (λ k. drop c.start c.buffer ++ (bytes ++ replicate k 0)) no_rest
            ∙ ap (λ l. drop c.start c.buffer ++ l) (append-nil bytes),
        omega arith,
        read_refused r m d (omega arith) (omega arith),
      )

  -- A read of a reader whose window is used up returns the bytes that the source gives, and zeros in
  -- place of those that the source did not give: that the source has ended is not reported.
  pub read_padded :
      (n : ℕ) (c : CursorReader R) (bytes : List ℕ) (s : R)
      → c.start ≡ length c.buffer
      → c.end ≡ length c.buffer
      → 0 < n
      → r.read (new_len r n) c.reader ≡ (ok bytes, s)
      → length bytes ≤ n
      → (read r n c).0 ≡ ok (bytes ++ replicate (n - length bytes) 0)
  read_padded n c bytes s used full some_bytes e few =
      let none : c.end - c.start ≡ 0 = omega arith in
      let wide : n ≤ new_len r n = new_len-ge r n in
      let room : new_len r n - (c.end - c.start) ≡ new_len r n = omega arith in
      let kept : List ℕ = take (c.end - c.start) (drop c.start c.buffer) in
      let empty : kept ≡ [] = ap (λ k. take k (drop c.start c.buffer)) none in
      let d : CursorReader R = record {
        buffer = filled (new_len r n) kept bytes;
        start = 0;
        end = length bytes;
        reader = s;
      } in
      let part : length kept ≡ 0 = ap length empty in
      let size : length (filled (new_len r n) kept bytes) ≡ new_len r n =
        length-filled (new_len r n) kept bytes (omega arith) in
      let back : (0 + n) - 0 ≡ n = omega arith in
      ap (λ m. m.0)
        (read_grown r n c d (omega arith) full
          (grow_ok r n c bytes s (omega arith) (omega arith) (rw room e)) (omega arith))
      ∙ ap (λ k. ok (take k d.buffer)) back
      ∙ ap (λ l. ok (take n (filled (new_len r n) l bytes))) empty
      ∙ ap ok (take-append_past n bytes (replicate (new_len r n - 0 - length bytes) 0) few)
      ∙ ap (λ l. ok (bytes ++ l))
          (take-replicate (n - length bytes) (new_len r n - 0 - length bytes) 0 (omega arith))
