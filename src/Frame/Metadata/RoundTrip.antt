-- ===== src/Frame/Metadata/RoundTrip.antt =====
-- The metadata of a frame is read back as it was written.
use barrique.Base.{
  ℕ, ◌+◌, ◌≤◌, ◌≡◌, refl, sym, ap, ◌∙◌, some, List, ◌∷◌, ◌++◌, length, take, drop, ok, arith,
  length-append, length-drop, append_assoc, take-append_past, take-append-drop, length-take,
}
use barrique.Io.{Reader, ReaderLaws, Writer, WriterLaws}
use barrique.Io.Reading.{read_front, skip_front}
use barrique.Io.Writing.{write_whole}
use barrique.Frame.Label
use barrique.Frame.Label.{Label}
use barrique.Frame.Label.RoundTrip
use barrique.Frame.Descriptor
use barrique.Frame.Descriptor.{FrameDescriptor, into_bytes-bytes_of, from_bytes-bytes_of}
use barrique.Frame.Metadata.{
  FrameMetadata, magic_num_bytes, filled, encode_front, encode_into_writer, decode_from_reader,
}

-- The bytes of a frame header whose label is `str`.
unfoldable pub header_bytes : FrameDescriptor → List ℕ → List ℕ
header_bytes d str = magic_num_bytes ++ (Descriptor.bytes_of d ++ (length str ∷ str))

pub length-bytes_of : (d : FrameDescriptor) → length (Descriptor.bytes_of d) ≡ Descriptor.len d
unfolding Descriptor.bytes_of
length-bytes_of d = ground arith

filled_lem :
    (m : FrameMetadata) (arena : List ℕ)
    → length arena ≡ 4 + Descriptor.len m.frame_descriptor
    → filled m arena ≡ ok (magic_num_bytes ++ Descriptor.bytes_of m.frame_descriptor)
unfolding filled
filled_lem m arena h =
    ground
      (arith, into_bytes-bytes_of m.frame_descriptor (drop 4 arena) (rw length-drop (omega arith)))

module _ {W : Type 0} (w : Writer W) (wl : WriterLaws w) where
  open wl use {written}

  encode_front_lem :
      (m : FrameMetadata) (s : W)
      → (s' : W) × (encode_front w m s ≡ (ok tt, s'))
        × (written s' ≡ written s ++ (magic_num_bytes ++ Descriptor.bytes_of m.frame_descriptor))
  unfolding encode_front
  encode_front_lem m s =
      let n : ℕ = 4 + Descriptor.len m.frame_descriptor in
      let bytes : List ℕ = magic_num_bytes ++ Descriptor.bytes_of m.frame_descriptor in
      let (arena, put, c, la, law) = write_whole w wl n s in
      (
        w.assume_init n (put bytes),
        ground (arith, c, filled_lem m arena la),
        law bytes (omega (arith, length-bytes_of m.frame_descriptor)),
      )

  -- `FrameMetadata::encode_into_writer` with a label that `Label::new` made succeeds, and writes
  -- the magic number, the descriptor and the label, in this order.
  pub metadata_encode :
      (m : FrameMetadata) (str : List ℕ) (s : W)
      → Label.new str ≡ some m.label
      → (s' : W) × (encode_into_writer w m s ≡ (ok tt, s'))
        × (written s' ≡ written s ++ header_bytes m.frame_descriptor str)
  unfolding encode_into_writer header_bytes
  metadata_encode m str s h =
      let (s1, c1, q1) = encode_front_lem m s in
      let (s2, c2, q2) = RoundTrip.encode_into_writer_lem w wl str m.label s1 h in
      (
        s2,
        ground (arith, c1, c2),
        q2
            ∙ ap (λ l. l ++ (length str ∷ str)) q1
            ∙ append_assoc (written s) (magic_num_bytes ++ Descriptor.bytes_of m.frame_descriptor)
                (length str ∷ str),
      )

module _ {R : Type 0} (r : Reader R) (rl : ReaderLaws r) where
  open rl use {remaining}

  decode_run :
      (m : FrameMetadata) (bytes : List ℕ) (s s1 s2 s3 s4 s5 : R)
      → r.read_borrow 4 s ≡ (ok magic_num_bytes, s1)
      → r.advance 4 s1 ≡ (ok tt, s2)
      → r.read_borrow Descriptor.max_len s2 ≡ (ok bytes, s3)
      → Descriptor.from_bytes bytes ≡ ok m.frame_descriptor
      → r.advance (Descriptor.len m.frame_descriptor) s3 ≡ (ok tt, s4)
      → Label.decode_from_reader r s4 ≡ (ok m.label, s5)
      → decode_from_reader r s ≡ (ok m, s5)
  unfolding decode_from_reader
  decode_run m bytes s s1 s2 s3 s4 s5 e1 e2 e3 e4 e5 e6 = ground arith

  -- The nine bytes that `decode_from_reader` looks at begin with the descriptor.
  from_bytes-take :
      (d : FrameDescriptor) (rest : List ℕ)
      → Descriptor.IsValid d
      → Descriptor.from_bytes (take Descriptor.max_len (Descriptor.bytes_of d ++ rest)) ≡ ok d
  from_bytes-take d rest v =
      rw
        (take-append_past Descriptor.max_len (Descriptor.bytes_of d) rest
          (omega (arith, length-bytes_of d, Descriptor.len-le d)))
        (from_bytes-bytes_of d _ v)

  -- From a source that begins with a frame header whose label `Label::new` made and whose timestamp
  -- fits in 64 bits, `FrameMetadata::decode_from_reader` gives the descriptor and the label that
  -- were written, and leaves the source behind the header, provided that nine bytes follow the
  -- magic number.
  pub metadata_decode :
      (m : FrameMetadata) (str : List ℕ) (s : R) (rest : List ℕ)
      → Label.new str ≡ some m.label
      → Descriptor.IsValid m.frame_descriptor
      → remaining s ≡ header_bytes m.frame_descriptor str ++ rest
      → 9 ≤ Descriptor.len m.frame_descriptor + 1 + length str + length rest
      → (s' : R) × (decode_from_reader r s ≡ (ok m, s')) × (remaining s' ≡ rest)
  unfolding header_bytes
  metadata_decode m str s rest h v e room =
      let d : FrameDescriptor = m.frame_descriptor in
      let front : List ℕ = Descriptor.bytes_of d in
      let behind : List ℕ = (length str ∷ str) ++ rest in
      let whole : remaining s ≡ magic_num_bytes ++ (front ++ behind) =
        e
        ∙ append_assoc magic_num_bytes (front ++ (length str ∷ str)) rest
        ∙ ap (λ l. magic_num_bytes ++ l) (append_assoc front (length str ∷ str) rest) in
      let cut : take 9 (front ++ behind) ++ drop 9 (front ++ behind) ≡ front ++ behind =
        take-append-drop 9 (front ++ behind) in
      let enough : 9 ≡ length (take 9 (front ++ behind)) =
        rw (length-take, length-append, length-append) (omega (arith, length-bytes_of d)) in
      let (s1, c1, q1) = read_front r rl 4 s magic_num_bytes (front ++ behind) whole refl in
      let (s2, c2, q2) = skip_front r rl 4 s1 magic_num_bytes (front ++ behind) q1 refl in
      let (s3, c3, q3) =
        read_front r rl 9 s2 (take 9 (front ++ behind)) (drop 9 (front ++ behind)) (q2 ∙ sym cut)
          enough in
      let (s4, c4, q4) =
        skip_front r rl (Descriptor.len d) s3 front behind (q3 ∙ cut) (sym (length-bytes_of d)) in
      let (s5, c5, q5) = RoundTrip.decode_from_reader_lem r rl str m.label s4 rest h q4 in
      (
        s5,
        decode_run m (take 9 (front ++ behind)) s s1 s2 s3 s4 s5 c1 c2 c3
            (from_bytes-take d behind v) c4 c5,
        q5,
      )
