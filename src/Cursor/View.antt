-- ===== src/Cursor/View.antt =====
-- The module `view` of src/cursor.rs: `CursorWriter` over `io::Write` and `CursorReader` over
-- `io::Read`.
use barrique.Base.{
  ℕ, ◌+◌, ◌-◌, ◌*◌, ◌/◌, Bool, true, false, List, [], ◌++◌, length, take, drop, replicate, Outcome,
  ok, err, panic, Call, ltb, leb, ◌&&◌, if◌then◌else◌,
}
use mathlib.Core.Option
use barrique.Vec.{Vec, with_capacity, set_len}
use barrique.Io.{ReadError, Reader, WriteError, Writer}
use barrique.Io.Buffer.{vec_write_mut, vec_assume_init}
use barrique.Lz4.{compress_bound}

-- `std::io::Write`: an implementation of `write_all` and of `flush`, with the code of an error.
pub record Write (W : Type 0) : Type 0 where
  pub write_all : List ℕ → Call W ℕ (Unit {0})
  pub flush : Call W ℕ (Unit {0})

-- `std::io::Read`: the bytes that `read` puts at the front of a buffer with the given room.
pub record Read (R : Type 0) : Type 0 where
  pub read : ℕ → Call R ℕ (List ℕ)

pub record CursorWriter (W : Type 0) : Type 0 where
  pub writer : W
  pub buffer : Vec
  pub error : Bool

module _ {W : Type 0} (w : Write W) where
  abbrev pub new : W → CursorWriter W
  new writer = record { writer = writer; buffer = with_capacity 0; error = false }

  abbrev pub writer_with_capacity : W → ℕ → CursorWriter W
  writer_with_capacity writer capacity = record {
    writer = writer;
    buffer = with_capacity capacity;
    error = false;
  }

  -- `flush`: the buffer is emptied only if both calls succeed.
  unfoldable pub flush : Call (CursorWriter W) WriteError (Unit {0})
  flush c =
      let (r, w1) = w.write_all c.buffer.items c.writer in
      elim r [
        | ok _ ↦
            let (q, w2) = w.flush w1 in
            elim q [
              | ok _ ↦ (ok tt, record c { writer = w2; buffer = set_len 0 c.buffer })
              | err e ↦ (err (WriteError.io e), record c { writer = w2; error = true })
              | panic ↦ (panic, record c { writer = w2 })
            ]
        | err e ↦ (err (WriteError.io e), record c { writer = w1; error = true })
        | panic ↦ (panic, record c { writer = w1 })
      ]

  -- The destination that is left after `Drop`; the results of the two calls are ignored.
  unfoldable pub finish : CursorWriter W → W
  finish c = if c.error then c.writer else (w.flush (w.write_all c.buffer.items c.writer).1).1

  unfoldable pub cursor_writer : Writer (CursorWriter W)
  unfolding flush
  cursor_writer = record {
    write_mut = λ n c.
        Option.map (λ a. (a.0, λ arena. record c { buffer = a.1 arena }))
          (vec_write_mut n c.buffer);
    assume_init = λ n c. record c { buffer = vec_assume_init n c.buffer };
    flush = flush;
  }

-- `CursorReaderInner`: `buffer[start..end]` is what is buffered and not consumed.
pub record CursorReader (R : Type 0) : Type 0 where
  pub buffer : List ℕ
  pub start : ℕ
  pub end : ℕ
  pub reader : R

abbrev pub threshold : ℕ
threshold = compress_bound 65535 / 2

-- `&v[from..to]`
abbrev pub slice : {E : Type 0} → ℕ → ℕ → List ℕ → Outcome E (List ℕ)
slice from to v =
    if leb from to && leb to (length v) then ok (take (to - from) (drop from v)) else panic

-- The new buffer of `grow`, from the bytes that are kept and those that were read.
abbrev pub filled : ℕ → List ℕ → List ℕ → List ℕ
filled n kept bytes = kept ++ (bytes ++ replicate (n - length kept - length bytes) 0)

module _ {R : Type 0} (r : Read R) where
  -- A `Vec` of capacity 0, or one that has not been filled yet, holds no bytes.
  unfoldable pub reader_with_capacity : R → ℕ → CursorReader R
  reader_with_capacity reader capacity = record { buffer = []; start = 0; end = 0; reader = reader }

  unfoldable pub new_reader : R → CursorReader R
  unfolding reader_with_capacity
  new_reader reader = reader_with_capacity reader 0

  abbrev pub new_len : ℕ → ℕ
  new_len n = if ltb threshold n then n else n * 2

  -- `grow(n)`; the capacity of the new `Vec` is the one that was asked for. `end` becomes what the
  -- call of `read` returns, whatever was kept.
  unfoldable pub grow : ℕ → Call (CursorReader R) ReadError (Unit {0})
  grow n c = elim (slice {E = ReadError} c.start c.end c.buffer) [
    | ok kept ↦
        let (result, reader) = r.read (new_len n - length kept) c.reader in
        elim result [
          | ok bytes ↦ (
            ok tt,
            record {
              buffer = filled (new_len n) kept bytes;
              start = 0;
              end = length bytes;
              reader = reader;
            },
          )
          | err e ↦ (err (ReadError.io e), record c { reader = reader })
          | panic ↦ (panic, record c { reader = reader })
        ]
    | err e ↦ (err e, c)
    | panic ↦ (panic, c)
  ]

  -- `read(n)`
  unfoldable pub read : ℕ → Call (CursorReader R) ReadError (List ℕ)
  unfolding grow
  read n c =
      if ltb c.end (c.start + n)
      then (if ltb c.end (length c.buffer)
          then (err ReadError.out_of_bounds, c)
          else (let (result, d) = grow n c in
              elim result [
                | ok _ ↦ (slice d.start (d.start + n) d.buffer, d)
                | err e ↦ (err e, d)
                | panic ↦ (panic, d)
              ]))
      else (slice c.start (c.start + n) c.buffer, c)

  unfoldable pub advance : ℕ → CursorReader R → CursorReader R
  advance n c = record c { start = c.start + n }

  unfoldable pub cursor_reader : Reader (CursorReader R)
  unfolding read advance
  cursor_reader = record { read_borrow = read; advance = λ n c. (ok tt, advance n c) }
