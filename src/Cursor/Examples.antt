-- ===== src/Cursor/Examples.antt =====
-- The theorems on cursors, at a destination and a source that are lists of bytes.
use barrique.Base.{
  ℕ, ◌≡◌, ◌≤◌, refl, ok, err, false, List, [], ◌∷◌, ◌++◌, take, drop, length, arith, none,
}
use barrique.Io.{ReadError, WriteError}
use barrique.Samples.{stored}
use barrique.Region.{RegionError}
use barrique.Region.Push
use barrique.Region.Push.{Push}
use barrique.Vec.{Vec, reserve}
use barrique.Cursor.{Cursor, cursor_writer}
use barrique.Cursor.View.{
  cursor_writer as io_writer, Write, Read, CursorWriter, CursorReader, flush, finish, read,
  new_reader, advance,
}
use barrique.Io.Buffer.{vec_write_mut}
use barrique.Io.Borrowed.{ref_writer}
use barrique.Cursor.Borrowed.{pass_borrowed}
use barrique.Cursor.Delivery.{finish-flush}
use barrique.Cursor.Memory.{pass_cursor}
use barrique.Cursor.Carry.{read_after_carry, read_padded}

-- A destination that refuses everything with the code 5.
abbrev full : Write (List ℕ)
full = record { write_all = λ bytes s. (err 5, s); flush = λ s. (ok tt, s) }

abbrev source : Read (List ℕ)
source = record { read = λ n s. (ok (take n s), drop n s) }

abbrev pending : CursorWriter (List ℕ)
pending = record {
  writer = 9 ∷ [];
  buffer = record { items = 1 ∷ 2 ∷ []; spare = [] };
  error = false;
}

flush_failed : (flush full pending).0 ≡ err (WriteError.io 5)
unfolding flush
flush_failed = refl

finish-flush_example :
    (finish full (flush full pending).1 ≡ (flush full pending).1.writer)
    × ((flush full pending).1.buffer ≡ pending.buffer)
finish-flush_example = finish-flush full pending (WriteError.io 5) flush_failed

abbrev middle : Cursor
middle = record { cursor = 1; inner = 4 ∷ 5 ∷ 6 ∷ [] }

abbrev region : Vec
region = record { items = 7 ∷ 8 ∷ []; spare = [] }

abbrev into_cursor : Push stored Cursor
into_cursor = record { stream = 0; seed = none; destination = middle }

pass_cursor_example :
    Push.pass stored cursor_writer (into_cursor, region)
    ≡ (err RegionError.out_of_bounds, (into_cursor, region))
pass_cursor_example =
    pass_cursor stored into_cursor region (omega arith) (λ e. absurd (omega arith))

-- One byte of two is consumed.
abbrev reached : CursorReader (List ℕ)
reached = advance source 1 (read source 2 (new_reader source (1 ∷ 2 ∷ 3 ∷ []))).1

-- One byte is left, and two are asked for: four are in the buffer, and only three can be read.
abbrev carried : CursorReader (List ℕ)
carried = record { buffer = 1 ∷ 2 ∷ []; start = 1; end = 2; reader = 3 ∷ 4 ∷ 5 ∷ 6 ∷ [] }

read_after_carry_example :
    (d : CursorReader (List ℕ)) × (read source 2 carried ≡ (ok (take 2 d.buffer), d))
    × (d.buffer ≡ drop 1 (1 ∷ 2 ∷ []) ++ (3 ∷ 4 ∷ 5 ∷ []))
    × (4 ≤ length d.buffer)
    × (read source 4 d ≡ (err ReadError.out_of_bounds, d))
read_after_carry_example =
    read_after_carry source 2 4 carried (3 ∷ 4 ∷ 5 ∷ []) (6 ∷ []) (omega arith) refl (omega arith)
      refl refl (omega arith) (omega arith)

abbrev used_up : CursorReader (List ℕ)
used_up = record { buffer = 1 ∷ []; start = 1; end = 1; reader = 2 ∷ [] }

read_padded_example : (read source 3 used_up).0 ≡ ok ((2 ∷ []) ++ (0 ∷ 0 ∷ []))
read_padded_example =
    read_padded source 3 used_up (2 ∷ []) [] refl refl (omega arith) refl (omega arith)

abbrev sink : Write (List ℕ)
sink = record { write_all = λ bytes s. (ok tt, s ++ bytes); flush = λ s. (ok tt, s) }

abbrev into_sink : Push stored (CursorWriter (List ℕ))
into_sink = record {
  stream = 0;
  seed = none;
  destination = record { writer = []; buffer = record { items = []; spare = [] }; error = false };
}

-- The push succeeds, and nothing is delivered.
borrowed_push : (Push.pass stored (ref_writer (io_writer sink)) (into_sink, region)).0 ≡ ok tt
unfolding Push.pass ref_writer io_writer vec_write_mut reserve
borrowed_push = refl

pass_borrowed_example :
    (Push.pass stored (ref_writer (io_writer sink)) (into_sink, region)).1.0.destination.writer ≡ []
pass_borrowed_example = pass_borrowed stored sink into_sink region
