-- ===== src/Stream/Failed/Examples.antt =====
-- The theorems on failed switches, one byte into a region of two.
use barrique.Base.{ℕ, ◌≡◌, refl, some, List, [], ◌∷◌, ◌++◌, ok, err, panic, arith}
use barrique.Vec.{with_capacity}
use barrique.Io.{ReadError}
use barrique.Io.Slice.{slice_reader, slice_reader_laws}
use barrique.Samples.{stored, stored_laws}
use barrique.Region.{RegionError}
use barrique.Region.Emit.{region_bytes}
use barrique.Stream.Decoder.{StreamDecoder, read}
use barrique.Stream.Failed.{read_rejected, read_after_end}

abbrev within : List ℕ → StreamDecoder stored (List ℕ)
within source = record {
  region_buffer = record {
    buffer = record { curr = record { items = 1 ∷ 2 ∷ []; spare = [] }; prev = with_capacity 0 };
    cursor = 1;
  };
  switch = record { stream = 0; seed = some 7; source = source };
}

-- A region that was written with the seed 8.
abbrev other : List ℕ
other = region_bytes stored (some 8) 0 (5 ∷ 6 ∷ 7 ∷ [])

read_rejected_example :
    (d1 : StreamDecoder stored (List ℕ)) × (d2 : StreamDecoder stored (List ℕ)) × (read stored
        slice_reader 2
        (within (other ++ []))
      ≡ (err RegionError.invalid_hash, d1))
    × (read stored slice_reader 2 d1 ≡ (ok (6 ∷ 7 ∷ []), d2))
unfolding slice_reader_laws stored_laws
read_rejected_example =
    read_rejected stored stored_laws slice_reader slice_reader_laws (within (other ++ [])) 2 2 0
      (some 8) (5 ∷ 6 ∷ 7 ∷ []) [] (omega arith) (omega arith) refl (omega arith) (omega arith)
      (omega arith) refl (λ e. absurd (omega arith)) (omega arith)

read_after_end_example :
    (d1 : StreamDecoder stored (List ℕ)) × (read stored slice_reader 2 (within [])
      ≡ (err (RegionError.read_failure ReadError.out_of_bounds), d1))
    × ((read stored slice_reader 1 d1).0 ≡ panic)
read_after_end_example =
    read_after_end stored (within []) 2 1 (omega arith) (omega arith) (omega arith) (omega arith)
