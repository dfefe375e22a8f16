-- ===== src/Cursor/Memory.antt =====
-- `Cursor` as a reader and as a writer.
use barrique.Base.{
  ℕ, ◌+◌, ◌-◌, ◌≤◌, ◌<◌, ◌≡◌, ◌≢◌, some, none, ◌++◌, length, take, drop, err, panic, ltb,
  if◌then◌else◌, arith, length-drop, Bool-cases, inl, inr, ltb→lt, ltb_false→le,
}
use barrique.Vec.{Vec}
use barrique.Lz4.{Foreign}
use barrique.Region.{RegionError}
use barrique.Region.Push.{Push, pass}
use barrique.Region.Refuse.{asked, pass_run_none, pass_run_other}
use barrique.Cursor.{Cursor, cursor_writer}

write_none : (n : ℕ) (c : Cursor) → length c.inner < n → cursor_writer.write_mut n c ≡ none
unfolding cursor_writer
write_none n c h = ground arith

write_some :
    (n : ℕ) (c : Cursor)
    → n ≤ length c.inner
    → cursor_writer.write_mut n c
      ≡ some (drop n c.inner, λ arena. record c { inner = take n c.inner ++ arena })
unfolding cursor_writer
write_some n c h = ground arith

module _ (x : Foreign) where
  -- A push of a region that is not empty into a `Cursor` does nothing but fail, wherever the cursor
  -- stands, unless the buffer is exactly twice as long as the room that the push asks for: it
  -- returns `OutOfBounds` where the buffer is shorter than that room, and panics otherwise.
  pub pass_cursor :
      (p : Push x Cursor) (buf : Vec)
      → 0 < length buf.items
      → length p.destination.inner ≢ asked buf + asked buf
      → pass x cursor_writer (p, buf) ≡ (
        if ltb (length p.destination.inner) (asked buf)
            then err RegionError.out_of_bounds
            else panic,
        (p, buf),
      )
  pass_cursor p buf h k = elim (Bool-cases (ltb (length p.destination.inner) (asked buf))) [
    | inl e ↦ rw e (
        pass_run_none x cursor_writer p buf h (write_none (asked buf) p.destination (ltb→lt _ _ e)))
    | inr e ↦ rw e (
        pass_run_other x cursor_writer p buf (drop (asked buf) p.destination.inner) _ h
          (write_some (asked buf) p.destination (ltb_false→le _ _ e))
          (λ eq. k (
            let long : asked buf ≤ length p.destination.inner = ltb_false→le _ _ e in
            let left : length p.destination.inner - asked buf ≡ asked buf = rw length-drop at eq in
            omega arith)))
  ]
