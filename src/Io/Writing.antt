-- ===== src/Io/Writing.antt =====
-- Filling a whole arena of a lawful writer.
use barrique.Base.{ℕ, ◌≡◌, sym, ap, ◌∙◌, some, List, ◌++◌, length, take, take-length, arith}
use barrique.Io.{Writer, WriterLaws}

module _ {W : Type 0} (w : Writer W) (wl : WriterLaws w) where
  open wl use {written, write_mut_lem}

  -- The arena of a request for `n` bytes, and what is written once `n` bytes are stored in it.
  pub write_whole :
      (n : ℕ) (s : W)
      → (arena : List ℕ) × (put : List ℕ → W) × (w.write_mut n s ≡ some (arena, put))
        × (length arena ≡ n)
        × ((bytes : List ℕ)
            → length bytes ≡ n
            → written (w.assume_init n (put bytes)) ≡ written s ++ bytes)
  write_whole n s =
      let (arena, put, e, la, law) = write_mut_lem n s in
      (
        arena,
        put,
        e,
        la,
        λ bytes h.
            law bytes n h (omega arith)
            ∙ ap (λ k. written s ++ take k bytes) (sym h)
            ∙ ap (λ l. written s ++ l) (take-length bytes),
      )
