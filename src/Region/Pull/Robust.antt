-- ===== src/Region/Pull/Robust.antt =====
-- A pull on any source at all: bytes that no encoder has written lead to an error, not to a panic.
use barrique.Base.{
  ℕ, ◌+◌, ◌-◌, ◌≤◌, ◌≡◌, refl, ap, sym, ◌∙◌, subst, some, List, [], ◌++◌, length, take, drop, All,
  Outcome, ok, err, panic, Call, Ensures, Ensures-ok, Ensures-err, Ensures-bind, Ensures-weaken,
  eq→==, le→ltb_false, All-drop, take-append, arith, Bool-cases, Option-cases, inl, inr, ◌==◌,
}
use barrique.Bytes.{IsByte}
use barrique.Vec.{Vec, items-reserve}
use barrique.Io.{Reader, ReadError}
use barrique.Io.Exact.{ExactReader}
use barrique.Lz4.{Foreign, ForeignBytes, decompress, copy_to}
use barrique.Region.{RegionError, header_size}
use barrique.Region.Header.{from_bytes}
use barrique.Region.Push.{region_hash}
use barrique.Region.Pull.{Pull, on_source, unpack, check_hash, size_error, pass}

module _ (x : Foreign) (xb : ForeignBytes x) {R : Type 0} (r : Reader R) (xr : ExactReader r) where
  open xr use {Good, Held, borrowed, advanced}

  from_source :
      {A : Type 0} {G : A → R → Type 0} (f : ReadError → RegionError) (m : Call R ReadError A)
      (p : Pull x R) (buf : Vec)
      → Ensures G (m p.source)
      → Ensures (λ a s. G a s.0.source × (s.1 ≡ buf)) (on_source x r f m (p, buf))
  unfolding on_source
  from_source {A} {G} f m p buf h = named (m p.source) h
    where
      named :
          (q : Outcome ReadError A × R)
          → Ensures G q
          → Ensures (λ a s. G a s.0.source × (s.1 ≡ buf)) (on_source x r f (λ _. q) (p, buf))
      named (ok a, s) h = Ensures-ok (h.holds, refl)
      named (err e, s) h = Ensures-err
      named (panic, s) h = absurd h.holds

  header_read :
      (bytes : List ℕ) (s : Pull x R × Vec)
      → length bytes ≡ header_size
      → Ensures (λ _ s'. s'.0.source ≡ s.0.source) (from_bytes {E = RegionError} bytes, s)
  unfolding from_bytes
  header_read bytes s h =
      rw (le→ltb_false (length bytes) header_size (omega (arith, h))) (Ensures-ok refl)

  -- What `decompress` leaves where it succeeds.
  decompressed :
      (c : Foreign.DecContext x) (bytes dst : List ℕ) (n : ℕ)
      → All IsByte bytes
      → (decompress x c bytes dst).0 ≡ some n
      → (out : List ℕ) × (n ≡ length out)
        × ((decompress x c bytes dst).1 ≡ copy_to out dst)
        × All IsByte out
  unfolding decompress
  decompressed c bytes dst n h e =
      elim (Option-cases (Foreign.decompress_safe_continue x c bytes (length dst)).0) [
        | inl nothing ↦ absurd (ground (arith, nothing, e))
        | inr (out, made) ↦ (
          out,
          ground (arith, made, e),
          ground (arith, made),
          xb.decompressed_bytes c bytes out (length dst) h made,
        )
      ]

  unpacked :
      (bytes : List ℕ) (s : Pull x R × Vec)
      → All IsByte bytes
      → s.1.items ≡ []
      → Ensures (λ _ s'. All IsByte s'.1.items × (s'.0.source ≡ s.0.source)) (unpack x r bytes s)
  unfolding unpack
  unpacked bytes (p, buf) h e = elim (Option-cases (decompress x p.stream bytes buf.spare).0) [
    | inl nothing ↦ rw (unpack, nothing) Ensures-err
    | inr (n, made) ↦
        let (out, size, body, good) = decompressed p.stream bytes buf.spare n h made in
        rw (unpack, made)
          (Ensures-ok (
            subst (All IsByte)
                (sym (
                  (λ i. take (size i) (e i ++ body i))
                  ∙ take-append out (drop (length out) buf.spare)))
                good,
            refl,
          ))
  ]

  hash_checked : (hash : ℕ) (s : Pull x R × Vec) → Ensures (λ _ s'. s' ≡ s) (check_hash x r hash s)
  unfolding check_hash
  hash_checked hash s = elim (Bool-cases (region_hash x s.0.seed s.1.items == hash)) [
    | inl same ↦ rw (check_hash, same) (Ensures-ok refl)
    | inr other ↦ rw (check_hash, other) Ensures-err
  ]

  -- What a pass ensures of the reader and of the buffer: at least a header has been consumed.
  pub record Pulled (j : ℕ) (s : Pull x R × Vec) : Type 0 where
    pub bytes : All IsByte s.1.items
    pub spent : ℕ
    pub before : R
    pub spent-ge : header_size ≤ spent
    pub before_good : Good j before
    pub before_held : Held spent before
    pub good : Good (j - spent) s.0.source

  skipped :
      (j size : ℕ) (s : Pull x R × Vec) (before : R)
      → header_size ≤ size
      → s.0.source ≡ before
      → Good j before
      → Held size before
      → All IsByte s.1.items
      → Ensures (λ _ s'. Pulled j s') (on_source x r RegionError.read_failure (r.advance size) s)
  skipped j size (p, buf) before big e g h bytes =
      Ensures-weaken
        (from_source RegionError.read_failure (r.advance size) p buf
          (advanced j size p.source (subst (Good j) (sym e) g) (subst (Held size) (sym e) h)))
        (λ _ s k. record {
          bytes = subst (λ (v : Vec). All IsByte v.items) (sym k.1) bytes;
          spent = size;
          before = before;
          spent-ge = big;
          before_good = g;
          before_held = h;
          good = k.0;
        })

  -- A pass over any source does not panic: where it does not fail, the region at hand holds bytes, and
  -- a header at least has been consumed.
  pub pass-Ensures :
      (j : ℕ) (p : Pull x R) (buf : Vec)
      → Good j p.source
      → Ensures (λ _ s. Pulled j s) (pass x r (p, buf))
  unfolding pass
  pass-Ensures j p buf g =
      Ensures-bind
        (from_source RegionError.read_failure (r.read_borrow header_size) p buf
          (borrowed j header_size p.source g))
        (λ front k. Ensures-bind (header_read front _ k.0.0) (λ header same.
          let size : ℕ = header_size + header.compressed_size in
          Ensures-bind
            (from_source (size_error x r) (r.read_borrow size) _ _
              (borrowed j size _ (subst (Good j) (sym same) k.0.2)))
            (λ bytes k'. rw (eq→== (length bytes) size k'.0.0) (
              Ensures-bind
                (unpacked (drop header_size bytes) _ (All-drop _ header_size bytes k'.0.1)
                  (items-reserve header.alloc_size _))
                (λ _ k''. Ensures-bind (hash_checked header.hash _) (λ _ same'.
                  skipped j size _ _ (omega arith)
                    (ap (λ (s : Pull x R × Vec). s.0.source) same' ∙ k''.1) k'.0.2 k'.0.3
                    (subst (λ (s : Pull x R × Vec). All IsByte s.1.items) (sym same') k''.0)))))))
