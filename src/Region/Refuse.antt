-- ===== src/Region/Refuse.antt =====
-- What a push into a `&mut [u8]` comes to.
use barrique.Base.{
  ℕ, ◌+◌, ◌-◌, ◌<◌, ◌≤◌, ◌≡◌, ◌≢◌, refl, some, none, List, length, drop, err, panic, ltb,
  if◌then◌else◌, arith, is_empty_pos, length-drop, ne→==, Bool-cases, inl, inr, ltb→lt,
  ltb_false→le,
}
use barrique.Vec.{Vec}
use barrique.Io.{Writer}
use barrique.Io.Slice.{SliceTarget, slice_writer, slice_write_none, slice_write_some}
use barrique.Lz4.{Foreign, compress_bound}
use barrique.Region.{RegionError, header_size}
use barrique.Region.Push.{Push, pass}

-- The room that a push asks for.
abbrev pub asked : Vec → ℕ
asked buf = compress_bound (length buf.items) + header_size

module _ (x : Foreign) where
  pub pass_run_none :
      {W : Type 0} (w : Writer W) (p : Push x W) (buf : Vec)
      → 0 < length buf.items
      → w.write_mut (asked buf) p.destination ≡ none
      → pass x w (p, buf) ≡ (err RegionError.out_of_bounds, (p, buf))
  unfolding pass
  pass_run_none w p buf h e = rw (is_empty_pos buf.items h) (rw e refl)

  pub pass_run_other :
      {W : Type 0} (w : Writer W) (p : Push x W) (buf : Vec) (arena : List ℕ) (put : List ℕ → W)
      → 0 < length buf.items
      → w.write_mut (asked buf) p.destination ≡ some (arena, put)
      → length arena ≢ asked buf
      → pass x w (p, buf) ≡ (panic, (p, buf))
  unfolding pass
  pass_run_other w p buf arena put h e k =
      rw (is_empty_pos buf.items h) (rw e (rw (ne→== _ _ k) refl))

  -- A push of a region that is not empty into a `&mut [u8]` does nothing but fail, unless the slice
  -- is exactly twice as long as the room that the push asks for: it returns `OutOfBounds` where the
  -- slice is shorter than that room, and panics otherwise.
  pub pass_slice :
      (p : Push x SliceTarget) (buf : Vec)
      → 0 < length buf.items
      → length p.destination.rest ≢ asked buf + asked buf
      → pass x slice_writer (p, buf) ≡ (
        if ltb (length p.destination.rest) (asked buf)
            then err RegionError.out_of_bounds
            else panic,
        (p, buf),
      )
  pass_slice p buf h k = elim (Bool-cases (ltb (length p.destination.rest) (asked buf))) [
    | inl e ↦ rw e (
        pass_run_none slice_writer p buf h
          (slice_write_none (asked buf) p.destination (ltb→lt _ _ e)))
    | inr e ↦ rw e (
        pass_run_other slice_writer p buf (drop (asked buf) p.destination.rest) _ h
          (slice_write_some (asked buf) p.destination (ltb_false→le _ _ e))
          (λ eq. k (
            let long : asked buf ≤ length p.destination.rest = ltb_false→le _ _ e in
            let left : length p.destination.rest - asked buf ≡ asked buf = rw length-drop at eq in
            omega arith)))
  ]
