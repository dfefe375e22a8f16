-- ===== src/Cursor/Borrowed.antt =====
-- A `CursorWriter` that is borrowed: the flush of a push does not reach it.
use barrique.Base.{ℕ, ◌+◌, ◌≡◌, List, length, inl, inr, Option-cases, arith}
use barrique.Vec.{Vec}
use barrique.Io.Borrowed.{ref_writer}
use barrique.Lz4.{Foreign, compress_bound}
use barrique.Region.{header_size}
use barrique.Region.Push
use barrique.Region.Push.{Push}
use barrique.Cursor.View.{Write, CursorWriter, cursor_writer}
use barrique.Io.Buffer.{vec_write_mut}

module _ (x : Foreign) {W : Type 0} (w : Write W) where
  fill_borrowed :
      (p : Push x (CursorWriter W)) (buf : Vec) (arena : List ℕ) (f : List ℕ → Vec)
      → (Push.fill x
          (ref_writer (cursor_writer w))
          p
          buf
          arena
          (λ a. record (p.destination) { buffer = f a })).1.0.destination.writer
        ≡ p.destination.writer
  unfolding Push.fill ref_writer cursor_writer
  fill_borrowed p buf arena f = ground arith

  -- A push into `&mut CursorWriter`, whether it succeeds or not, leaves the `io::Write` below the
  -- `CursorWriter` as it was: the flush of the push is the default one, which does nothing.
  pub pass_borrowed :
      (p : Push x (CursorWriter W)) (buf : Vec)
      → (Push.pass x (ref_writer (cursor_writer w)) (p, buf)).1.0.destination.writer
        ≡ p.destination.writer
  unfolding Push.pass ref_writer cursor_writer
  pass_borrowed p buf =
      elim (Option-cases
        (vec_write_mut (compress_bound (length buf.items) + header_size) p.destination.buffer)) [
          | inl e ↦ ground (arith, e)
          | inr ((arena, f), e) ↦ ground (arith, e, fill_borrowed p buf arena f)
        ]
