-- ===== src/Frame/Label.antt =====
-- `Label`: an ASCII text of at most 255 bytes, stored in place.
pub mod RoundTrip
pub mod Text
use barrique.Base.{
  ℕ, suc, ◌+◌, ◌-◌, ◌%◌, ◌<◌, Bool, true, false, ◌&&◌, ◌||◌, not, Option, none, some, List, [], ◌∷◌,
  ◌++◌, length, take, drop, replicate, Outcome, ok, err, panic, Call, gets, lift, map_err, ok_or,
  ◌>>=◌, ◌>>◌, ltb, ◌==◌, if◌then◌else◌,
}
use barrique.Io.{Reader, ReadError, Writer, read_borrow_const}
use barrique.Region.Push.{write_to_uninit}
use barrique.Frame.{FrameError}

pub record Label : Type 0 where
  pub buf : List ℕ
  pub len : ℕ

-- `str.is_ascii()`
abbrev pub is_ascii : List ℕ → Bool
is_ascii [] = true
is_ascii (b ∷ bs) = ltb b 128 && is_ascii bs

-- `Label::new`, on the bytes of the text
unfoldable pub new : List ℕ → Option Label
new str =
    if not (is_ascii str) || ltb 255 (length str)
    then none
    else some (record { buf = str ++ replicate (255 - length str) 0; len = length str % 256 })

abbrev pub as_bytes : Label → List ℕ
as_bytes l = take l.len l.buf

-- `Label::default`
abbrev pub default : Label
default = record { buf = replicate 255 0; len = 0 }

abbrev pub is_empty : Label → Bool
is_empty l = l.len == 0

-- The front byte of `read_borrow_const::<1>`.
abbrev pub front_byte : List ℕ → ℕ
front_byte [] = 0
front_byte (b ∷ bs) = b

-- A call on a reader, with its error converted.
abbrev pub reading : {R E A : Type 0} → (ReadError → E) → Call R ReadError A → Call R E A
reading f m s = let (a, s') = m s in (map_err f a, s')

unfoldable pub decode_from_reader : {R : Type 0} → Reader R → Call R FrameError Label
unfolding new read_borrow_const
decode_from_reader r = do
  marker ← reading FrameError.metadata_error (read_borrow_const r 1)
  let len = front_byte marker
  reading FrameError.metadata_error (r.advance 1)
  str ← reading (λ _. FrameError.malformed_label) (r.read_borrow len)
  label ← lift (ok_or (new str) FrameError.non_ascii_label)
  reading FrameError.metadata_error (r.advance len)
  gets (λ _. ok label)

-- What `encode_into_writer` leaves in its arena.
unfoldable pub filled : Label → List ℕ → Outcome (Unit {0}) (List ℕ)
unfolding write_to_uninit
filled l arena = elim (write_to_uninit {E = Unit} (as_bytes l) (drop 1 arena)) [
  | ok body ↦ ok (l.len ∷ body)
  | err e ↦ err e
  | panic ↦ panic
]

unfoldable pub encode_into_writer : {W : Type 0} → Writer W → Label → Call W (Unit {0}) (Unit {0})
unfolding filled
encode_into_writer w l s =
    (let size = l.len + 1 in
      elim (w.write_mut size s) [
        | none ↦ (err tt, s)
        | some (arena, put) ↦
            if length arena == size
            then elim (filled l arena) [
              | ok arena' ↦ (ok tt, w.assume_init size (put arena'))
              | err e ↦ (err e, put arena)
              | panic ↦ (panic, put arena)
            ]
            else (panic, put arena)
      ])
