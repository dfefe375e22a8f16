-- ===== src/Frame/Label/RoundTrip.antt =====
-- A label is read back as it was written.
use barrique.Base.{
  ℕ, ◌+◌, ◌≤◌, ◌≡◌, refl, ap, true, some, List, [], ◌∷◌, ◌++◌, length, drop, ok, ◌-◌, ◌%◌,
  replicate, arith, length-drop, take-append_at, eq-nil_of_length, append-nil,
}
use barrique.Io.{Reader, ReaderLaws, Writer, WriterLaws}
use barrique.Io.Reading.{read_front, skip_front}
use barrique.Io.Writing.{write_whole}
use barrique.Frame.Label.{
  Label, new, is_ascii, as_bytes, filled, encode_into_writer, decode_from_reader,
}

-- The label of a text that is short enough.
abbrev pub of_text : List ℕ → Label
of_text str = record { buf = str ++ replicate (255 - length str) 0; len = length str % 256 }

accepted :
    (str : List ℕ) (l : Label) → new str ≡ some l → (length str ≤ 255) × (is_ascii str ≡ true)
unfolding new
accepted str l h = ground arith

-- Every ASCII text of at most 255 bytes makes a label.
pub new_ok : (str : List ℕ) → length str ≤ 255 → is_ascii str ≡ true → new str ≡ some (of_text str)
unfolding new
new_ok str short ascii = ground arith

-- `Label::new` makes a label only of an ASCII text of at most 255 bytes, and the label has the
-- length of the text and keeps its bytes.
pub new-some :
    (str : List ℕ) (l : Label)
    → new str ≡ some l
    → (length str ≤ 255) × (is_ascii str ≡ true) × (l.len ≡ length str) × (as_bytes l ≡ str)
unfolding new
new-some str l h =
    let (short, ascii) = accepted str l h in
    let e : of_text str ≡ l = cc (new_ok str short ascii) in
    (
      short,
      ascii,
      rw (← e) (omega arith),
      rw (← e) (take-append_at (length str % 256) str _ (omega arith)),
    )

filled_lem :
    (l : Label) (str arena : List ℕ)
    → as_bytes l ≡ str
    → l.len ≡ length str
    → length arena ≡ length str + 1
    → filled l arena ≡ ok (length str ∷ str)
unfolding filled
filled_lem l str arena e n h =
    let room : length (drop 1 arena) ≡ length str = rw length-drop (omega arith) in
    let front : drop (length str) (drop 1 arena) ≡ [] =
      eq-nil_of_length _ (rw length-drop (omega arith)) in
    ground (arith, e, n, ap length e, room, ap (λ (k : List ℕ). str ++ k) front, append-nil str)

module _ {W : Type 0} (w : Writer W) (wl : WriterLaws w) where
  open wl use {written}

  -- A label that `Label::new` made of a text is written with success, as the length of the text in
  -- one byte and the text.
  pub encode_into_writer_lem :
      (str : List ℕ) (l : Label) (s : W)
      → new str ≡ some l
      → (s' : W) × (encode_into_writer w l s ≡ (ok tt, s'))
        × (written s' ≡ written s ++ (length str ∷ str))
  unfolding encode_into_writer
  encode_into_writer_lem str l s h =
      let (short, ascii, n, e) = new-some str l h in
      let (arena, put, c, la, law) = write_whole w wl (l.len + 1) s in
      (
        w.assume_init (l.len + 1) (put (length str ∷ str)),
        ground (arith, c, filled_lem l str arena e n (omega (arith, la))),
        law (length str ∷ str) (omega arith),
      )

module _ {R : Type 0} (r : Reader R) (rl : ReaderLaws r) where
  open rl use {remaining}

  decode_run :
      (l : Label) (b : ℕ) (str : List ℕ) (s s1 s2 s3 s4 : R)
      → r.read_borrow 1 s ≡ (ok (b ∷ []), s1)
      → r.advance 1 s1 ≡ (ok tt, s2)
      → r.read_borrow b s2 ≡ (ok str, s3)
      → new str ≡ some l
      → r.advance b s3 ≡ (ok tt, s4)
      → decode_from_reader r s ≡ (ok l, s4)
  unfolding decode_from_reader
  decode_run l b str s s1 s2 s3 s4 e1 e2 e3 e4 e5 = ground arith

  -- From a source that begins with the length of a text and the text, of which `Label::new` makes a
  -- label, that label is decoded, and the source is left behind the text.
  pub decode_from_reader_lem :
      (str : List ℕ) (l : Label) (s : R) (rest : List ℕ)
      → new str ≡ some l
      → remaining s ≡ (length str ∷ str) ++ rest
      → (s' : R) × (decode_from_reader r s ≡ (ok l, s')) × (remaining s' ≡ rest)
  decode_from_reader_lem str l s rest h e =
      let n : ℕ = length str in
      let (s1, c1, q1) = read_front r rl 1 s (n ∷ []) (str ++ rest) e refl in
      let (s2, c2, q2) = skip_front r rl 1 s1 (n ∷ []) (str ++ rest) q1 refl in
      let (s3, c3, q3) = read_front r rl n s2 str rest q2 refl in
      let (s4, c4, q4) = skip_front r rl n s3 str rest q3 refl in
      (s4, decode_run l n str s s1 s2 s3 s4 c1 c2 c3 h c4, q4)
