-- ===== src/Io/Reading.antt =====
-- Reading and skipping a known front of what a lawful reader still holds.
use barrique.Base.{
  ℕ, ◌≤◌, ◌≡◌, ap, ◌∙◌, List, ◌++◌, length, take, drop, ok, arith, length-append, take-append_at,
  drop-append_at,
}
use barrique.Io.{Reader, ReaderLaws}

module _ {R : Type 0} (r : Reader R) (rl : ReaderLaws r) where
  open rl use {remaining, read_borrow_lem, advance_lem}

  front_fits :
      (n : ℕ) (s : R) (a b : List ℕ)
      → remaining s ≡ a ++ b
      → n ≡ length a
      → n ≤ length (remaining s)
  front_fits n s a b e h = omega (arith, ap length e, length-append a b)

  pub read_front :
      (n : ℕ) (s : R) (a b : List ℕ)
      → remaining s ≡ a ++ b
      → n ≡ length a
      → (s' : R) × (r.read_borrow n s ≡ (ok a, s')) × (remaining s' ≡ a ++ b)
  read_front n s a b e h =
      let (s', call, same) = read_borrow_lem n s (front_fits n s a b e h) in
      (s', call ∙ ap (λ l. (ok l, s')) (ap (take n) e ∙ take-append_at n a b h), same ∙ e)

  pub skip_front :
      (n : ℕ) (s : R) (a b : List ℕ)
      → remaining s ≡ a ++ b
      → n ≡ length a
      → (s' : R) × (r.advance n s ≡ (ok tt, s')) × (remaining s' ≡ b)
  skip_front n s a b e h =
      let (s', call, rest) = advance_lem n s (front_fits n s a b e h) in
      (s', call, rest ∙ ap (drop n) e ∙ drop-append_at n a b h)
