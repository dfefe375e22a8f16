-- ===== src/Region/Examples.antt =====
-- One region that is pushed and pulled, and the theorems at it.
use barrique.Base.{ℕ, ◌≡◌, refl, ok, err, some, none, List, [], ◌∷◌, ◌++◌, take, arith}
use barrique.Vec.{Vec, with_capacity}
use barrique.Io.Slice.{SliceTarget, slice_writer, slice_reader, slice_reader_laws}
use barrique.Io.Buffer.{vec_writer, vec_writer_laws}
use barrique.Samples.{stored, stored_laws}
use barrique.Region.{RegionError}
use barrique.Region.Header.{RegionHeader, into_bytes}
use barrique.Region.Push
use barrique.Region.Push.{Push}
use barrique.Region.Pull
use barrique.Region.Pull.{Pull}
use barrique.Region.Emit.{Pushed, region_bytes, pass-Pushed}
use barrique.Region.Absorb.{Pulled, pass-Pulled}
use barrique.Region.Absorb.Reject.{pass_wrong_seed}
use barrique.Region.Absorb.Cut.{pass_truncated}
use barrique.Region.Refuse.{pass_slice}

abbrev header : RegionHeader
header = record { compressed_size = 4; alloc_size = 259; hash = 77 }

abbrev bytes : List ℕ
bytes = 5 ∷ 6 ∷ []

abbrev full : Vec
full = record { items = bytes; spare = [] }

abbrev push : Push stored Vec
push = Push.new stored vec_writer (with_capacity 0) (some 7)

pass-Pushed_example :
    (p' : Push stored Vec) × (buf' : Vec) × (Push.pass stored vec_writer (push, full)
      ≡ (ok tt, (p', buf')))
    × Pushed stored stored_laws vec_writer vec_writer_laws push bytes p' buf'
pass-Pushed_example =
    pass-Pushed stored stored_laws vec_writer vec_writer_laws push full (omega arith) (omega arith)

abbrev pull : Pull stored (List ℕ)
pull = Pull.new stored slice_reader (region_bytes stored (some 7) 0 bytes ++ (9 ∷ [])) (some 7)

pass-Pulled_example :
    (p' : Pull stored (List ℕ)) × (buf' : Vec) × (Pull.pass stored slice_reader
        (pull, with_capacity 0)
      ≡ (ok tt, (p', buf')))
    × Pulled stored stored_laws slice_reader slice_reader_laws 0 pull bytes (9 ∷ []) p' buf'
unfolding slice_reader_laws stored_laws
pass-Pulled_example =
    pass-Pulled stored stored_laws slice_reader slice_reader_laws 0 pull (with_capacity 0) bytes
      (9 ∷ []) refl (omega arith) (omega arith) (omega arith) refl

abbrev unseeded : Pull stored (List ℕ)
unseeded = Pull.new stored slice_reader (region_bytes stored (some 7) 0 bytes ++ (9 ∷ [])) none

pass_wrong_seed_example :
    (p' : Pull stored (List ℕ)) × (buf' : Vec) × (Pull.pass stored slice_reader
        (unseeded, with_capacity 0)
      ≡ (err RegionError.invalid_hash, (p', buf')))
    × (p'.source ≡ unseeded.source)
    × (buf'.items ≡ bytes)
unfolding slice_reader_laws stored_laws
pass_wrong_seed_example =
    pass_wrong_seed stored stored_laws slice_reader slice_reader_laws 0 unseeded (with_capacity 0)
      (some 7) bytes (9 ∷ []) refl (omega arith) (omega arith) (omega arith) refl
      (λ e. absurd (omega arith))

abbrev cut : Pull stored (List ℕ)
cut = Pull.new stored slice_reader (take 14 (region_bytes stored (some 7) 0 bytes)) (some 7)

pass_truncated_example :
    Pull.pass stored slice_reader (cut, with_capacity 0)
    ≡ (err RegionError.invalid_size_hint, (cut, with_capacity 0))
unfolding region_bytes into_bytes
pass_truncated_example =
    pass_truncated stored stored_laws 0 cut (with_capacity 0) (some 7) bytes 14 (omega arith)
      (omega arith) refl

abbrev slice_push : Push stored SliceTarget
slice_push = record {
  stream = 0;
  seed = none;
  destination = record { done = []; rest = 1 ∷ 2 ∷ [] };
}

pass_slice_example :
    Push.pass stored slice_writer (slice_push, full)
    ≡ (err RegionError.out_of_bounds, (slice_push, full))
pass_slice_example = pass_slice stored slice_push full (omega arith) (omega arith)
