-- ===== src/Io.antt =====
-- The `Reader` and `Writer` traits of src/decode.rs and src/encode.rs with their errors, and what
-- a client may rely on. An `io::Error` is its code.
pub mod Borrowed
pub mod Reading
pub mod Writing
pub mod Slice
pub mod Buffer
pub mod Exact
use barrique.Base.{
  ℕ, ◌+◌, ◌≤◌, ◌≡◌, Option, some, List, ◌++◌, length, take, drop, Outcome, ok, panic, Call, gets,
  ◌>>=◌, ◌==◌, if◌then◌else◌,
}

pub data ReadError : Type 0 where
  out_of_bounds : ReadError
  io : ℕ → ReadError

pub data WriteError : Type 0 where
  custom io : ℕ → WriteError

-- `read_borrow` takes the state too, since an implementation may fill a buffer behind `&self`.
pub record Reader (R : Type 0) : Type 0 where
  pub read_borrow : ℕ → Call R ReadError (List ℕ)
  pub advance : ℕ → Call R ReadError (Unit {0})

-- A mutable slice is its content, with the writer that a later content of it makes.
pub record Writer (W : Type 0) : Type 0 where
  pub write_mut : ℕ → W → Option (List ℕ × (List ℕ → W))
  pub assume_init : ℕ → W → W
  pub flush : Call W WriteError (Unit {0})

-- A reader over a known sequence of bytes that are still to come.
pub record ReaderLaws {R : Type 0} (r : Reader R) : Type 1 where
  pub remaining : R → List ℕ
  pub read_borrow_lem :
      (n : ℕ) (s : R)
      → n ≤ length (remaining s)
      → (s' : R) × (Reader.read_borrow r n s ≡ (ok (take n (remaining s)), s'))
        × (remaining s' ≡ remaining s)
  pub advance_lem :
      (n : ℕ) (s : R)
      → n ≤ length (remaining s)
      → (s' : R) × (Reader.advance r n s ≡ (ok tt, s')) × (remaining s' ≡ drop n (remaining s))

-- A writer that has room for every request and keeps what was marked as written, in order.
pub record WriterLaws {W : Type 0} (w : Writer W) : Type 1 where
  pub written : W → List ℕ
  pub write_mut_lem :
      (n : ℕ) (s : W)
      → (arena : List ℕ) × (put : List ℕ → W) × (Writer.write_mut w n s ≡ some (arena, put))
        × (length arena ≡ n)
        × ((filled : List ℕ) (k : ℕ)
            → length filled ≡ n
            → k ≤ n
            → written (Writer.assume_init w k (put filled)) ≡ written s ++ take k filled)
  pub flush_lem : (s : W) → (s' : W) × (Writer.flush w s ≡ (ok tt, s')) × (written s' ≡ written s)

-- The default method `read_borrow_const`: a slice of another length makes `copy_from_slice` panic.
unfoldable pub read_borrow_const : {R : Type 0} → Reader R → ℕ → Call R ReadError (List ℕ)
read_borrow_const r n = do
  bytes ← Reader.read_borrow r n
  gets (λ _. if length bytes == n then ok bytes else panic)
