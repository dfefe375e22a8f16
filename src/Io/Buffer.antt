-- ===== src/Io/Buffer.antt =====
-- `impl Writer for Vec<u8>`.
use barrique.Base.{
  ℕ, ◌+◌, ◌-◌, ◌≤◌, ◌≡◌, refl, ap, Option, none, some, List, ◌++◌, length, take, drop, ok, leb,
  if◌then◌else◌, arith, length-take, take-append_past, take-append_le,
}
use barrique.Io.{Writer, WriterLaws}
use barrique.Vec.{Vec, set_len, reserve, items-reserve, spare-reserve}

-- `self.reserve(n); self.spare_capacity_mut().get_mut(..n)`
unfoldable pub vec_write_mut : ℕ → Vec → Option (List ℕ × (List ℕ → Vec))
vec_write_mut n v =
    let w = reserve n v in
    if leb n (length w.spare)
    then some (take n w.spare, λ arena. record w { spare = arena ++ drop n w.spare })
    else none

pub vec_assume_init : ℕ → Vec → Vec
vec_assume_init n v = set_len (length v.items + n) v

unfoldable pub vec_writer : Writer Vec
unfolding vec_write_mut vec_assume_init
vec_writer = record {
  write_mut = vec_write_mut;
  assume_init = vec_assume_init;
  flush = λ v. (ok tt, v);
}

take_front :
    (m : ℕ) (xs ys : List ℕ) (k : ℕ) → k ≤ length xs → take (m + k - m) (xs ++ ys) ≡ take k xs
take_front m xs ys k h = let e : m + k - m ≡ k = omega arith in rw e (take-append_le k xs ys h)

module _ (n : ℕ) (v : Vec) where
  pub vec_put : List ℕ → Vec
  vec_put arena = record (reserve n v) { spare = arena ++ drop n (reserve n v).spare }

  pub vec_write_mut-some : vec_write_mut n v ≡ some (take n (reserve n v).spare, vec_put)
  unfolding vec_write_mut vec_put
  vec_write_mut-some = ground (arith, spare-reserve n v)

  pub vec_filled :
      (filled : List ℕ) (k : ℕ)
      → length filled ≡ n
      → k ≤ n
      → (vec_assume_init k (vec_put filled)).items ≡ v.items ++ take k filled
  unfolding vec_assume_init vec_put
  vec_filled filled k h hk =
      rw (items-reserve n v, take-append_past (length v.items + k) v.items _ (omega arith))
        (ap (◌++◌ v.items) (take_front (length v.items) filled _ k (omega arith)))

pub room : (n : ℕ) (v : Vec) → length (take n (reserve n v).spare) ≡ n
room n v = rw length-take (omega (arith, spare-reserve n v))

unfoldable pub vec_writer_laws : WriterLaws vec_writer
unfolding vec_writer
vec_writer_laws = record {
  written = λ v. v.items;
  write_mut_lem = λ n v.
      (take n (reserve n v).spare, vec_put n v, vec_write_mut-some n v, room n v, vec_filled n v);
  flush_lem = λ v. (v, refl, refl);
}
