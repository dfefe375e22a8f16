-- ===== src/Io/Slice.antt =====
-- `impl Reader for &[u8]` (and `&mut [u8]`) and `impl Writer for &mut [u8]`.
use barrique.Base.{
  ℕ, ◌≤◌, ◌<◌, ◌≡◌, refl, Option, none, some, List, ◌++◌, length, take, drop, ok, err, panic, Call,
  leb, if◌then◌else◌, arith,
}
use barrique.Io.{ReadError, Reader, ReaderLaws, Writer}

-- `self.get(..n)`
pub slice_read_borrow : ℕ → Call (List ℕ) ReadError (List ℕ)
slice_read_borrow n s = (if leb n (length s) then ok (take n s) else err ReadError.out_of_bounds, s)

-- `self.get(n..).expect(...)`
pub slice_advance : ℕ → Call (List ℕ) ReadError (Unit {0})
slice_advance n s = if leb n (length s) then (ok tt, drop n s) else (panic, s)

unfoldable pub slice_reader : Reader (List ℕ)
unfolding slice_read_borrow slice_advance
slice_reader = record { read_borrow = slice_read_borrow; advance = slice_advance }

pub slice_read_borrow_lem :
    (n : ℕ) (s : List ℕ)
    → n ≤ length s
    → (s' : List ℕ) × (slice_read_borrow n s ≡ (ok (take n s), s')) × (s' ≡ s)
unfolding slice_read_borrow
slice_read_borrow_lem n s h = (s, ground arith, refl)

pub slice_advance_lem :
    (n : ℕ) (s : List ℕ)
    → n ≤ length s
    → (s' : List ℕ) × (slice_advance n s ≡ (ok tt, s')) × (s' ≡ drop n s)
unfolding slice_advance
slice_advance_lem n s h = (drop n s, ground arith, refl)

unfoldable pub slice_reader_laws : ReaderLaws slice_reader
unfolding slice_reader
slice_reader_laws = record {
  remaining = λ s. s;
  read_borrow_lem = slice_read_borrow_lem;
  advance_lem = slice_advance_lem;
}

-- `&mut [u8]`: what has been passed over, and the slice.
pub record SliceTarget : Type 0 where
  pub done : List ℕ
  pub rest : List ℕ

-- `self.get_mut(n..)`
pub slice_write_mut : ℕ → SliceTarget → Option (List ℕ × (List ℕ → SliceTarget))
slice_write_mut n s =
    if leb n (length s.rest)
    then some (drop n s.rest, λ arena. record s { rest = take n s.rest ++ arena })
    else none

pub slice_assume_init : ℕ → SliceTarget → SliceTarget
slice_assume_init n s = record { done = s.done ++ take n s.rest; rest = drop n s.rest }

unfoldable pub slice_writer : Writer SliceTarget
unfolding slice_write_mut slice_assume_init
slice_writer = record {
  write_mut = slice_write_mut;
  assume_init = slice_assume_init;
  flush = λ s. (ok tt, s);
}

-- `impl Writer for &mut [MaybeUninit<u8>]`, whose two methods are written like those of `&mut [u8]`.
unfoldable pub uninit_writer : Writer SliceTarget
unfolding slice_write_mut slice_assume_init
uninit_writer = record {
  write_mut = slice_write_mut;
  assume_init = slice_assume_init;
  flush = λ s. (ok tt, s);
}

pub slice_some :
    (n : ℕ) (s : List ℕ) → n ≤ length s → slice_reader.read_borrow n s ≡ (ok (take n s), s)
unfolding slice_reader
slice_some n s h = ground arith

pub slice_none :
    (n : ℕ) (s : List ℕ)
    → length s < n
    → slice_reader.read_borrow n s ≡ (err ReadError.out_of_bounds, s)
unfolding slice_reader
slice_none n s h = ground arith

pub slice_write_none :
    (n : ℕ) (s : SliceTarget) → length s.rest < n → slice_writer.write_mut n s ≡ none
unfolding slice_writer
slice_write_none n s h = ground arith

pub slice_write_some :
    (n : ℕ) (s : SliceTarget)
    → n ≤ length s.rest
    → slice_writer.write_mut n s
      ≡ some (drop n s.rest, λ arena. record s { rest = take n s.rest ++ arena })
unfolding slice_writer
slice_write_some n s h = ground arith
