-- ===== src/Frame/Robust.antt =====
-- The metadata of a frame from arbitrary bytes.
use barrique.Base.{
  ℕ, ◌-◌, ◌≤◌, ◌≡◌, refl, sym, subst, take, not, none, some, List, [], ◌∷◌, length, ok, ok_or,
  Ensures, Ensures-ok, Ensures-err, Ensures-bind, Ensures-when, Ensures-map_err, arith, Bool-cases,
  Option-cases, inl, inr,
}
use barrique.Bytes.{from_le_bytes}
use barrique.Io.{Reader, read_borrow_const}
use barrique.Io.Exact.{ExactReader, const_borrowed}
use barrique.Frame.{FrameError}
use barrique.Frame.Label
use barrique.Frame.Label.{Label, front_byte}
use barrique.Frame.Descriptor
use barrique.Frame.Descriptor.{
  FrameDescriptor, max_len, len-le, has_flag, mask_seeded, mask_timestamp,
}
use barrique.Frame.Metadata
use barrique.Frame.Metadata.{FrameMetadata, expect, is_magic_num_bytes}

-- Nine bytes always hold a descriptor.
nine_bytes :
    (bytes : List ℕ)
    → length bytes ≡ max_len
    → (d : FrameDescriptor) × (Descriptor.from_bytes bytes ≡ ok d)
unfolding Descriptor.from_bytes
nine_bytes [] h = absurd (omega (arith, h))
nine_bytes (byte ∷ rest) h =
    let long : 8 ≤ length rest = omega (arith, h) in
    elim (Bool-cases (has_flag byte mask_timestamp)) [
      | inl flag ↦ (
        record {
          seeded = has_flag byte mask_seeded;
          timestamp = some (from_le_bytes (take 8 rest));
        },
        ground (arith, flag, long),
      )
      | inr flag ↦
          (record { seeded = has_flag byte mask_seeded; timestamp = none }, ground (arith, flag))
    ]

descriptor_made :
    {S : Type 0} (bytes : List ℕ) (s : S)
    → length bytes ≡ max_len
    → Ensures (λ _ s'. s' ≡ s) (expect {E = FrameError} (Descriptor.from_bytes bytes), s)
descriptor_made bytes s h = let (d, e) = nine_bytes bytes h in rw e (Ensures-ok refl)

label_made :
    {S : Type 0} (str : List ℕ) (s : S)
    → Ensures (λ l s'. s' ≡ s) (ok_or (Label.new str) FrameError.non_ascii_label, s)
label_made str s = elim (Option-cases (Label.new str)) [
  | inl e ↦ rw e Ensures-err
  | inr (l, e) ↦ rw e (Ensures-ok refl)
]

module _ {R : Type 0} (r : Reader R) (xr : ExactReader r) where
  open xr use {Good, Held, Held-le, borrowed, advanced}

  label_sound :
      (j : ℕ) (s : R)
      → Good j s
      → Ensures (λ _ s'. (i : ℕ) × Good i s') (Label.decode_from_reader r s)
  unfolding Label.decode_from_reader
  label_sound j s h =
      Ensures-bind (Ensures-map_err _ (read_borrow_const r 1 s) (const_borrowed r xr j 1 s h))
        (λ marker k.
          Ensures-bind (Ensures-map_err _ (r.advance 1 _) (advanced j 1 _ k.2 k.3)) (λ _ k1.
            let len : ℕ = front_byte marker in
            Ensures-bind (Ensures-map_err _ (r.read_borrow len _) (borrowed (j - 1) len _ k1))
              (λ str k2. Ensures-bind (label_made str _) (λ label same.
                Ensures-bind
                  (Ensures-map_err _ (r.advance len _) (
                    advanced (j - 1) len _ (subst (Good (j - 1)) (sym same) k2.2)
                      (subst (Held len) (sym same) k2.3)))
                  (λ _ k3. Ensures-ok (j - 1 - len, k3))))))

  -- Metadata from arbitrary bytes are read, or refused with an error.
  pub metadata_sound :
      (j : ℕ) (s : R)
      → Good j s
      → Ensures (λ _ s'. (i : ℕ) × Good i s') (Metadata.decode_from_reader r s)
  unfolding Metadata.decode_from_reader
  metadata_sound j s h =
      Ensures-bind (Ensures-map_err _ (read_borrow_const r 4 s) (const_borrowed r xr j 4 s h))
        (λ leading k.
          Ensures-bind {G = λ _ s'. Good j s' × Held 4 s'}
            (Ensures-when (not (is_magic_num_bytes leading)) _ (λ _. Ensures-err) (λ _. (k.2, k.3)))
            (λ _ k0.
              Ensures-bind (Ensures-map_err _ (r.advance 4 _) (advanced j 4 _ k0.0 k0.1)) (λ _ k1.
                Ensures-bind
                  (Ensures-map_err _ (r.read_borrow max_len _) (borrowed (j - 4) max_len _ k1))
                  (λ bytes k2. Ensures-bind (descriptor_made bytes _ k2.0) (λ descriptor same.
                    Ensures-bind
                      (Ensures-map_err _ (r.advance (Descriptor.len descriptor) _) (
                        advanced (j - 4) (Descriptor.len descriptor) _
                          (subst (Good (j - 4)) (sym same) k2.2)
                          (subst (Held (Descriptor.len descriptor)) (sym same)
                            (Held-le _ max_len _ (len-le descriptor) k2.3))))
                      (λ _ k3. Ensures-bind (label_sound _ _ k3) (λ label k4. Ensures-ok k4)))))))
