-- ===== src/Frames/Robust.antt =====
-- Whole frames from arbitrary bytes.
use barrique.Base.{
  ℕ, ◌-◌, ◌≡◌, length, All, Option, Outcome, ok, err, panic, Ensures, Ensures-ok, Ensures-err,
  Ensures-weaken, Bool-cases, inl, inr,
}
use barrique.Bytes.{IsByte}
use barrique.Io.{Reader}
use barrique.Io.Exact.{ExactReader}
use barrique.Lz4.{Foreign, ForeignBytes}
use barrique.Frame.{FrameError}
use barrique.Frame.Metadata
use barrique.Frame.Metadata.{FrameMetadata}
use barrique.Frame.Robust.{metadata_sound}
use barrique.Region.{RegionError}
use barrique.Stream.Decoder.{StreamDecoder, decode_bearer}
use barrique.Stream.Decoder.Robust.{Sound, Crossed, within, across, read-Ensures, new-Ensures}
use barrique.Codec.{Decode, DecodeError, get}
use barrique.Codec.Robust.{SoundBearer, Robust}
use barrique.Frames.{Frame, decode, get_value, differs, is_some}

module _ (x : Foreign) (xb : ForeignBytes x) {R : Type 0} (r : Reader R) (xr : ExactReader r) where
  open xr use {Good}

  reads_sound :
      (n : ℕ) (d : StreamDecoder x R)
      → (j : ℕ) × Sound x xb r xr j d
      → Ensures
          (λ bytes d'. (length bytes ≡ n) × All IsByte bytes × ((i : ℕ) × Sound x xb r xr i d'))
          ((decode_bearer x r).read n d)
  unfolding decode_bearer
  reads_sound n d (j, h) = Ensures-weaken (read-Ensures x xb r xr j n d h) (λ bytes d' k. elim k.2 [
    | within s e ↦ (k.0, k.1, (j, s))
    | across c ↦ (k.0, k.1, (j - c.spent, c.sound))
  ])

  -- A decoder over a source that is free to hold anything is a sound bearer.
  unfoldable pub decoder_sound : SoundBearer (decode_bearer x r)
  unfolding reads_sound
  decoder_sound = record { IsSound = λ d. (j : ℕ) × Sound x xb r xr j d; read_sound = reads_sound }

  decode_sound :
      (j : ℕ) (src : R) (seed : Option ℕ)
      → Good j src
      → Ensures {S = Unit {0}}
          (λ (f : Frame R) _. (i : ℕ) × Good i f.base)
          (decode x r src seed, tt)
  unfolding decode
  decode_sound j src seed h =
      named (Metadata.decode_from_reader r src) (metadata_sound r xr j src h)
    where
      named :
          (q : Outcome FrameError FrameMetadata × R)
          → Ensures (λ _ s'. (i : ℕ) × Good i s') q
          → Ensures {S = Unit {0}}
              (λ (f : Frame R) _. (i : ℕ) × Good i f.base)
              (
                elim q.0 [
                  | ok metadata ↦ ok (record { metadata = metadata; seed = seed; base = q.1 })
                  | err e ↦ err e
                  | panic ↦ panic
                ],
                tt,
              )
      named (ok m, s) h = Ensures-ok h.holds
      named (err e, s) h = Ensures-err
      named (panic, s) h = absurd h.holds

  module _ {T : Type 0} (t : Decode T) {Q : T → Type 0} (rob : Robust t Q) where
    value_sound :
        (d : StreamDecoder x R) (j : ℕ)
        → Sound x xb r xr j d
        → Ensures {S = Unit {0}} (λ v _. Q v) ((get t (decode_bearer x r) d).0, tt)
    unfolding get decoder_sound
    value_sound d j h =
        named (t.decode (StreamDecoder x R) (decode_bearer x r) d)
          (rob.decoded_any (StreamDecoder x R) (decode_bearer x r) decoder_sound d (j, h))
      where
        named :
            {G : StreamDecoder x R → Type 0} (q : Outcome DecodeError T × StreamDecoder x R)
            → Ensures (λ v s'. Q v × G s') q
            → Ensures {S = Unit {0}} (λ v _. Q v) (q.0, tt)
        named (ok v, s) h = Ensures-ok h.holds.0
        named (err e, s) h = Ensures-err
        named (panic, s) h = absurd h.holds

    opened_sound :
        (o : Outcome RegionError (StreamDecoder x R)) (j : ℕ)
        → Ensures {S = Unit {0}} (λ d _. Crossed x xb r xr j d) (o, tt)
        → Ensures {S = Unit {0}}
            (λ v _. Q v)
            (
              elim o [
                | ok d ↦ (get t (decode_bearer x r) d).0
                | err e ↦ err (DecodeError.bearer_error e)
                | panic ↦ panic
              ],
              tt,
            )
    opened_sound (ok d) j h = value_sound d (j - h.holds.spent) h.holds.sound
    opened_sound (err e) j h = Ensures-err
    opened_sound panic j h = absurd h.holds

    get_value_sound :
        (j size : ℕ) (f : Frame R)
        → Good j f.base
        → Ensures {S = Unit {0}} (λ v _. Q v) (get_value x r t size f, tt)
    unfolding get_value
    get_value_sound j size f h =
        elim (Bool-cases (differs x (is_some f.seed) f.metadata.frame_descriptor.seeded)) [
          | inl e ↦ rw e Ensures-err
          | inr e ↦ rw e (opened_sound _ j (new-Ensures x xb r xr j size f.seed f.base h))
        ]

    -- Suppose that the decoder of `T`, from any bearer that returns bytes, as many as it is asked for,
    -- or an error, does not panic and returns only values with the property `Q`; that the reader
    -- returns bytes, as many as it is asked for, or an error, and lets those be consumed; and that a
    -- block decompresses to bytes or fails. Then `Frame::decode` does not panic, and neither does
    -- `get_value` on the frame that it returns, whatever bytes the reader returns, with any seed and
    -- any buffer size; and a value that comes out has the property `Q`.
    pub frame_any :
        (j size : ℕ) (seed : Option ℕ) (src : R)
        → Good j src
        → Ensures {S = Unit {0}}
            (λ f _. Ensures {S = Unit {0}} (λ v _. Q v) (get_value x r t size f, tt))
            (decode x r src seed, tt)
    frame_any j size seed src h =
        Ensures-weaken (decode_sound j src seed h) (λ f _ k. get_value_sound k.0 size f k.1)
