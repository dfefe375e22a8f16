-- ===== src/Frame/Metadata.antt =====
-- `FrameMetadata`: the magic number, the descriptor and the label.
pub mod RoundTrip
use barrique.Base.{
  ℕ, ◌+◌, ◌*◌, Bool, Option, none, some, List, [], ◌∷◌, ◌++◌, length, take, drop, Outcome, ok, err,
  panic, Call, gets, lift, map_err, when, ◌>>=◌, ◌>>◌, ltb, ◌==◌, not, if◌then◌else◌,
}
use barrique.Bytes.{to_le_bytes, from_le_bytes}
use barrique.Io.{Reader, Writer, ReadError, read_borrow_const}
use barrique.Region.Push.{write_to_uninit}
use barrique.Frame.{FrameError}
use barrique.Frame.Label
use barrique.Frame.Label.{Label, reading}
use barrique.Frame.Descriptor
use barrique.Frame.Descriptor.{FrameDescriptor}

-- `MAGIC_NUM`, a `u32`
abbrev pub magic_num : ℕ
magic_num = 0x96EBCEA9

abbrev pub magic_num_bytes : List ℕ
magic_num_bytes = to_le_bytes 4 magic_num

abbrev pub is_magic_num_bytes : List ℕ → Bool
is_magic_num_bytes bytes = from_le_bytes bytes == magic_num

pub record FrameMetadata : Type 0 where
  pub frame_descriptor : FrameDescriptor
  pub label : Label

-- `Option::expect` and `Option::unwrap`
abbrev pub expect : {E A : Type 0} → Outcome (Unit {0}) A → Outcome E A
expect (ok a) = ok a
expect (err e) = panic
expect panic = panic

unfoldable pub decode_from_reader : {R : Type 0} → Reader R → Call R FrameError FrameMetadata
unfolding Label.decode_from_reader Descriptor.from_bytes read_borrow_const
decode_from_reader r = do
  leading ← reading FrameError.metadata_error (read_borrow_const r 4)
  when (not (is_magic_num_bytes leading)) (gets (λ _. err FrameError.no_magic_number))
  reading FrameError.metadata_error (r.advance 4)
  bytes ← reading FrameError.metadata_error (r.read_borrow Descriptor.max_len)
  descriptor ← lift (expect (Descriptor.from_bytes bytes))
  reading FrameError.metadata_error (r.advance (Descriptor.len descriptor))
  label ← Label.decode_from_reader r
  gets (λ _. ok (record { frame_descriptor = descriptor; label = label }))

-- The arena of `encode_into_writer` after the magic number and the descriptor are written.
unfoldable pub filled : FrameMetadata → List ℕ → Outcome (Unit {0}) (List ℕ)
unfolding write_to_uninit Descriptor.into_bytes
filled m arena = elim (write_to_uninit {E = Unit} magic_num_bytes arena) [
  | ok marked ↦
      elim (expect {E = Unit} (Descriptor.into_bytes m.frame_descriptor (drop 4 marked))) [
        | ok rest ↦ ok (take 4 marked ++ rest)
        | err e ↦ err e
        | panic ↦ panic
      ]
  | err e ↦ err e
  | panic ↦ panic
]

encode_front : {W : Type 0} → Writer W → FrameMetadata → Call W (Unit {0}) (Unit {0})
unfolding filled
encode_front w m s =
    (let size = 4 + Descriptor.len m.frame_descriptor in
      elim (w.write_mut size s) [
        | none ↦ (err tt, s)
        | some (arena, put) ↦
            if length arena == size
            then elim (filled m arena) [
              | ok arena' ↦ (ok tt, w.assume_init size (put arena'))
              | err e ↦ (err e, put arena)
              | panic ↦ (panic, put arena)
            ]
            else (panic, put arena)
      ])

unfoldable pub encode_into_writer :
    {W : Type 0} → Writer W → FrameMetadata → Call W (Unit {0}) (Unit {0})
unfolding encode_front Label.encode_into_writer
encode_into_writer w m = do encode_front w m; Label.encode_into_writer w m.label
