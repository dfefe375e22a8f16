-- ===== src/Frame/Label/Text.antt =====
-- A label as a text: `TryFrom<&str>`, `Deref`, `Display` and the accessors. A `str` is its bytes.
use barrique.Base.{
  ℕ, ◌≡◌, ap, Bool, true, false, ◌&&◌, some, List, ◌++◌, length, Outcome, ok, err, ok_or, leb,
  Bool-cases, ◌⊎◌, inl, inr, ◌≤◌, arith,
}
use barrique.Frame.Label.{Label, new, is_ascii, as_bytes}
use barrique.Frame.Label.RoundTrip.{of_text, new_ok, new-some}

-- `from_utf8_unchecked`
unfoldable pub as_str : Label → List ℕ
as_str l = as_bytes l

unfoldable pub label_len : Label → ℕ
label_len l = l.len

unfoldable pub deref : Label → List ℕ
unfolding as_str
deref l = as_str l

-- `fmt`, with what the formatter has written before.
unfoldable pub fmt : Label → List ℕ → List ℕ
unfolding deref
fmt l out = out ++ deref l

unfoldable pub try_from : List ℕ → Outcome (Unit {0}) Label
unfolding new
try_from value = ok_or (new value) tt

-- What is accepted as a label.
abbrev pub fits : List ℕ → Bool
fits text = is_ascii text && leb (length text) 255

accepted :
    (text : List ℕ)
    → fits text ≡ true
    → (l : Label) × (try_from text ≡ ok l) × (as_bytes l ≡ text) × (l.len ≡ length text)
unfolding try_from
accepted text e =
    let short : length text ≤ 255 = ground (arith, e) in
    let ascii : is_ascii text ≡ true = ground (arith, e) in
    let (l, made) = made_of text short ascii in
    let (_, _, size, same) = new-some text l made in (l, ap (λ o. ok_or o tt) made, same, size)
  where
    made_of : (t : List ℕ) → length t ≤ 255 → is_ascii t ≡ true → (l : Label) × (new t ≡ some l)
    made_of t h k = (of_text t, new_ok t h k)

refused : (text : List ℕ) → fits text ≡ false → try_from text ≡ err tt
unfolding try_from
refused text e = ground (arith, e)

-- `try_from` refuses a text that is not ASCII or has more than 255 bytes, and makes a label of any
-- other, which is displayed as that text, behind what has been written before, dereferences to it and
-- has its length.
pub try_from-fmt :
    (text out : List ℕ)
    → ((fits text ≡ false) × (try_from text ≡ err tt))
      ⊎ ((l : Label) × (fits text ≡ true)
          × (try_from text ≡ ok l)
          × (fmt l out ≡ out ++ text)
          × (deref l ≡ text)
          × (label_len l ≡ length text))
unfolding fmt label_len
try_from-fmt text out = elim (Bool-cases (fits text)) [
  | inl e ↦
      let (l, made, same, size) = accepted text e in
      inr (l, e, made, ap (λ t. out ++ t) same, same, size)
  | inr e ↦ inl (e, refused text e)
]
