-- ===== src/Cursor.antt =====
-- src/cursor.rs: `Cursor` over a buffer in memory, and, in the children, the reader and the writer
-- over `std::io`. An `io::Error` is its code.
pub mod Delivery
pub mod Borrowed
pub mod Memory
pub mod View
pub mod Window
pub mod Reached
pub mod Carry
mod Examples
use barrique.Base.{
  ℕ, ◌+◌, Option, none, some, List, ◌++◌, length, take, drop, ok, err, Call, leb, if◌then◌else◌,
}
use barrique.Io.{ReadError, Reader, Writer}

-- `Cursor<T>`, with the bytes that `inner` gives. An addition that overflows is not modelled: the
-- numbers are those of a buffer in memory.
pub record Cursor : Type 0 where
  pub cursor : ℕ
  pub inner : List ℕ

-- `Cursor::new`
unfoldable pub new : List ℕ → Cursor
new inner = record { cursor = 0; inner = inner }

-- `Cursor::advance`
unfoldable pub advance : ℕ → Cursor → Cursor
advance n c = record c { cursor = c.cursor + n }

-- `self.inner.as_ref().get(self.cursor..self.cursor + n).ok_or(OutOfBounds)`
unfoldable pub read_borrow : ℕ → Call Cursor ReadError (List ℕ)
read_borrow n c = (
  if leb (c.cursor + n) (length c.inner)
      then ok (take n (drop c.cursor c.inner))
      else err ReadError.out_of_bounds,
  c,
)

unfoldable pub cursor_reader : Reader Cursor
unfolding read_borrow advance
cursor_reader = record { read_borrow = read_borrow; advance = λ n c. (ok tt, advance n c) }

-- `self.inner.as_mut().get_mut(n..)?`
unfoldable pub write_mut : ℕ → Cursor → Option (List ℕ × (List ℕ → Cursor))
write_mut n c =
    if leb n (length c.inner)
    then some (drop n c.inner, λ arena. record c { inner = take n c.inner ++ arena })
    else none

unfoldable pub cursor_writer : Writer Cursor
unfolding write_mut advance
cursor_writer = record { write_mut = write_mut; assume_init = advance; flush = λ c. (ok tt, c) }
