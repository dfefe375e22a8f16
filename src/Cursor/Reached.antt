-- ===== src/Cursor/Reached.antt =====
-- What a client of a `CursorReader` can reach.
use barrique.Base.{ℕ, ◌≤◌, ◌≡◌, List, ok}
use barrique.Cursor.View.{Read, CursorReader, read, advance}

module _ {R : Type 0} (r : Read R) where
  -- What a client does with a `CursorReader`: it borrows bytes, and it consumes no more of them than
  -- it has borrowed.
  pub data Step : CursorReader R → CursorReader R → Type 0 where
    borrow : {c : CursorReader R} (n : ℕ) → Step c (read r n c).1
    consume :
        {c : CursorReader R} (n m : ℕ) (bytes : List ℕ)
        → (read r n c).0 ≡ ok bytes
        → m ≤ n
        → Step c (advance r m (read r n c).1)

  pub data Reach (s : CursorReader R) : CursorReader R → Type 0 where
    here : Reach s s
    next : {c d : CursorReader R} → Reach s c → Step c d → Reach s d
