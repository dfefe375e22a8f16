-- ===== src/Cursor/Delivery.antt =====
-- A `CursorWriter` delivers what was written to the `io::Write` below it, and does so once.
use barrique.Base.{
  ℕ, ◌≤◌, ◌≡◌, refl, ap, sym, ◌∙◌, Bool, true, false, ◌∷◌, some, List, [], ◌++◌, length, take, ok,
  err, arith, append_assoc, append-nil,
}
use barrique.Vec.{reserve}
use barrique.Io.{WriteError, WriterLaws}
use barrique.Io.Buffer.{vec_put, vec_write_mut-some, vec_filled, room}
use barrique.Cursor.View.{Write, CursorWriter, flush, finish, cursor_writer}

abbrev pub flag : Bool → ℕ
flag false = 0
flag true = 1

flag-false : (b : Bool) → flag b ≡ 0 → b ≡ false
flag-false false h = refl
flag-false true h = absurd (omega arith)

-- An `io::Write` that takes everything, in order, and keeps it.
pub record WriteLaws {W : Type 0} (w : Write W) : Type 1 where
  pub delivered : W → List ℕ
  pub write_all_lem :
      (bytes : List ℕ) (s : W)
      → (s' : W) × (Write.write_all w bytes s ≡ (ok tt, s')) × (delivered s' ≡ delivered s ++ bytes)
  pub flush_lem :
      (s : W) → (s' : W) × (Write.flush w s ≡ (ok tt, s')) × (delivered s' ≡ delivered s)

module _ {W : Type 0} (w : Write W) where
  pub flush_run :
      (c : CursorWriter W) (w1 w2 : W)
      → w.write_all c.buffer.items c.writer ≡ (ok tt, w1)
      → w.flush w1 ≡ (ok tt, w2)
      → flush w c ≡ (
        ok tt,
        record c {
          writer = w2;
          buffer = record { items = []; spare = c.buffer.items ++ c.buffer.spare };
        },
      )
  unfolding flush
  flush_run c w1 w2 e1 e2 = ground arith

  finish_run :
      (c : CursorWriter W) (w1 w2 : W)
      → c.error ≡ false
      → w.write_all c.buffer.items c.writer ≡ (ok tt, w1)
      → w.flush w1 ≡ (ok tt, w2)
      → finish w c ≡ w2
  unfolding finish
  finish_run c w1 w2 e e1 e2 = ground arith

  -- A failed flush keeps the buffer, and the destructor then leaves the destination as the failed
  -- calls left it: no byte is offered a second time.
  pub finish-flush :
      (c : CursorWriter W) (e : WriteError)
      → (flush w c).0 ≡ err e
      → (finish w (flush w c).1 ≡ (flush w c).1.writer) × ((flush w c).1.buffer ≡ c.buffer)
  unfolding flush finish
  finish-flush c e h = ground arith

module _ {W : Type 0} (w : Write W) (wl : WriteLaws w) where
  open wl use {delivered, write_all_lem, flush_lem}

  -- What has been written: delivered, or still in the buffer.
  abbrev pub written : CursorWriter W → List ℕ
  written c = delivered c.writer ++ c.buffer.items

  -- The same behind a byte for `error`, which no lawful call sets.
  abbrev pub marked : CursorWriter W → List ℕ
  marked c = flag c.error ∷ written c

  pub cursor_put : ℕ → CursorWriter W → List ℕ → CursorWriter W
  cursor_put n c arena = record c { buffer = vec_put n c.buffer arena }

  pub write_mut_some :
      (n : ℕ) (c : CursorWriter W)
      → (cursor_writer w).write_mut n c ≡ some (take n (reserve n c.buffer).spare, cursor_put n c)
  unfolding cursor_writer cursor_put
  write_mut_some n c = rw (vec_write_mut-some n c.buffer) refl

  pub write_filled :
      (n : ℕ) (c : CursorWriter W) (filled : List ℕ) (k : ℕ)
      → length filled ≡ n
      → k ≤ n
      → marked ((cursor_writer w).assume_init k (cursor_put n c filled)) ≡ marked c ++ take k filled
  unfolding cursor_writer cursor_put
  write_filled n c filled k h hk =
      ap (λ l. flag c.error ∷ l)
        (ap (λ l. delivered c.writer ++ l) (vec_filled n c.buffer filled k h hk)
          ∙ sym (append_assoc (delivered c.writer) c.buffer.items (take k filled)))

  pub write_flushed :
      (c : CursorWriter W)
      → (c' : CursorWriter W) × ((cursor_writer w).flush c ≡ (ok tt, c')) × (marked c' ≡ marked c)
  unfolding cursor_writer
  write_flushed c =
      let (w1, e1, d1) = write_all_lem c.buffer.items c.writer in
      let (w2, e2, d2) = flush_lem w1 in
      (
        _,
        flush_run w c w1 w2 e1 e2,
        ap (λ l. flag c.error ∷ l) (append-nil (delivered w2) ∙ d2 ∙ d1),
      )

  -- A `CursorWriter` is a lawful writer.
  unfoldable pub cursor_writer_laws : WriterLaws (cursor_writer w)
  cursor_writer_laws = record {
    written = marked;
    write_mut_lem = λ n c. (
      take n (reserve n c.buffer).spare,
      cursor_put n c,
      write_mut_some n c,
      room n c.buffer,
      write_filled n c,
    );
    flush_lem = write_flushed;
  }

  -- When a `CursorWriter` without a failed flush is dropped, all that was written is delivered.
  pub finish-marked :
      (c : CursorWriter W) (bytes : List ℕ) → marked c ≡ 0 ∷ bytes → delivered (finish w c) ≡ bytes
  finish-marked c bytes e =
      let (w1, e1, d1) = write_all_lem c.buffer.items c.writer in
      let (w2, e2, d2) = flush_lem w1 in
      let clean : c.error ≡ false = flag-false c.error (cc) in
      ap delivered (finish_run w c w1 w2 clean e1 e2) ∙ d2 ∙ d1 ∙ (cc)

  pub marked-clean :
      (c : CursorWriter W)
      → c.error ≡ false
      → c.buffer.items ≡ []
      → marked c ≡ 0 ∷ delivered c.writer
  marked-clean c clean empty = rw (clean, empty) (ap (λ l. 0 ∷ l) (append-nil (delivered c.writer)))
