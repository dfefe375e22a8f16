-- ===== src/Io/Borrowed.antt =====
-- `Writer` for `&mut T`. It has the default `flush`, which does nothing.
use barrique.Base.{ok}
use barrique.Io.{Writer}

unfoldable pub ref_writer : {W : Type 0} → Writer W → Writer W
ref_writer w = record {
  write_mut = w.write_mut;
  assume_init = w.assume_init;
  flush = λ s. (ok tt, s);
}
