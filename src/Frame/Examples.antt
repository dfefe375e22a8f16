-- ===== src/Frame/Examples.antt =====
-- The theorems on the parts of a frame header, at concrete inputs.
use barrique.Frame.Label.Text.{fits, try_from, fmt, deref, label_len, try_from-fmt}
use barrique.Base.{◌≡◌, ◌⊎◌, true, false, ok, err, [], ◌∷◌}
use barrique.Frame.Label.{Label}

try_from-fmt_example :
    ((fits (97 ∷ 98 ∷ []) ≡ false) × (try_from (97 ∷ 98 ∷ []) ≡ err tt))
    ⊎ ((l : Label) × (fits (97 ∷ 98 ∷ []) ≡ true)
        × (try_from (97 ∷ 98 ∷ []) ≡ ok l)
        × (fmt l (35 ∷ []) ≡ 35 ∷ 97 ∷ 98 ∷ [])
        × (deref l ≡ 97 ∷ 98 ∷ [])
        × (label_len l ≡ 2))
try_from-fmt_example = try_from-fmt (97 ∷ 98 ∷ []) (35 ∷ [])
