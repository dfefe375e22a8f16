-- ===== src/Stream/Regions.antt =====
-- How a sequence of writes falls into regions: the plain description of what the encoder does.
use barrique.Base.{
  ℕ, ◌+◌, ◌-◌, ◌≤◌, ◌<◌, ◌≡◌, refl, List, [], ◌∷◌, ◌++◌, length, ap, sym, ◌∙◌, eq-nil_of_length,
  ltb, if◌then◌else◌, All, arith, length-append, Bool-cases, ltb→lt, ltb_false→le, inl, inr,
  append_assoc, ◌∙◌,
}
use barrique.Region.{region_size}

-- With `used` bytes in the region at hand: the bytes that the writes add to it, and the regions
-- that they begin after it. A write that does not fit begins a region.
unfoldable pub fill : ℕ → List (List ℕ) → List ℕ × List (List ℕ)
fill used [] = ([], [])
fill used (w ∷ ws) =
    (let more = fill (used + length w) ws in
      let next = fill (length w) ws in
      if ltb (region_size - used) (length w)
      then ([], (w ++ next.0) ∷ next.1)
      else (w ++ more.0, more.1))

-- The regions of a stream: the region at hand counts if it is not empty.
abbrev pub regions_from : List ℕ → List (List ℕ) → List (List ℕ)
regions_from [] rs = rs
regions_from (b ∷ bs) rs = (b ∷ bs) ∷ rs

unfoldable pub regions : List (List ℕ) → List (List ℕ)
unfolding fill
regions ws = let (first, rest) = fill 0 ws in regions_from first rest

-- `Groups m rs ws`: the bytes `m` that are left of a region and then the regions `rs` hold the
-- chunks `ws` in order, each inside one region, and nothing else.
pub data Groups : List ℕ → List (List ℕ) → List (List ℕ) → Type 0 where
  none_left : Groups [] [] []
  same :
      (w : List ℕ) {m m' : List ℕ} {rs ws : List (List ℕ)}
      → m' ≡ w ++ m
      → Groups m rs ws
      → Groups m' rs (w ∷ ws)
  next :
      (w : List ℕ) {m r : List ℕ} {rs ws : List (List ℕ)}
      → 0 < length w
      → r ≡ w ++ m
      → Groups m rs ws
      → Groups [] (r ∷ rs) (w ∷ ws)

-- The writes fall into the regions in order.
pub fill-Groups : (used : ℕ) (ws : List (List ℕ)) → Groups (fill used ws).0 (fill used ws).1 ws
unfolding fill
fill-Groups used [] = none_left
fill-Groups used (w ∷ ws) = elim (Bool-cases (ltb (region_size - used) (length w))) [
  | inl e ↦ rw e (next w (omega (arith, ltb→lt _ _ e)) refl (fill-Groups (length w) ws))
  | inr e ↦ rw e (same w refl (fill-Groups (used + length w) ws))
]

-- A region is never longer than `region_size` and never empty.
abbrev pub IsRegion : List ℕ → Type 0
IsRegion r = (0 < length r) × (length r ≤ region_size)

pub fill_bounds :
    (used : ℕ) (ws : List (List ℕ))
    → used ≤ region_size
    → All (λ w. length w ≤ region_size) ws
    → (used + length (fill used ws).0 ≤ region_size) × All IsRegion (fill used ws).1
unfolding fill
fill_bounds used [] h hw = (omega arith, tt)
fill_bounds used (w ∷ ws) h (hw, hws) = elim (Bool-cases (ltb (region_size - used) (length w))) [
  | inl e ↦
      let (a, b) = fill_bounds (length w) ws hw hws in
      rw e (omega arith, ((rw length-append (omega (arith, ltb→lt _ _ e)), rw length-append a), b))
  | inr e ↦
      let (a, b) = fill_bounds (used + length w) ws (omega (arith, ltb_false→le _ _ e)) hws in
      rw e (rw length-append (omega (arith, a)), b)
]

-- A chunk may be read in two parts, if the first is not empty.
pub Groups-split :
    (a b : List ℕ) {m : List ℕ} {rs ws : List (List ℕ)}
    → 0 < length a
    → Groups m rs ((a ++ b) ∷ ws)
    → Groups m rs (a ∷ b ∷ ws)
Groups-split a b h (same _ {m = m} e g) = same a (e ∙ append_assoc a b m) (same b refl g)
Groups-split a b h (next _ {m = m} k e g) = next a h (e ∙ append_assoc a b m) (same b refl g)

pub Groups-nil : {m : List ℕ} {rs ws : List (List ℕ)} → Groups m rs ([] ∷ ws) → Groups m rs ws
Groups-nil (same _ e g) = rw e g
Groups-nil (next _ h e g) = absurd (omega arith)

append-eq-nil : (a b : List ℕ) → [] ≡ a ++ b → (a ≡ []) × (b ≡ [])
append-eq-nil a b e =
    let total : 0 ≡ length a + length b = ap length e ∙ length-append a b in
    (eq-nil_of_length a (omega arith), eq-nil_of_length b (omega arith))

-- At the end of a region the next one may be opened.
pub Groups-open :
    {m q : List ℕ} {rs ws : List (List ℕ)} → m ≡ [] → Groups m (q ∷ rs) ws → Groups q rs ws
Groups-open {q = q} z (same w {m = m} e g) =
    let (we, me) = append-eq-nil w m (sym z ∙ e) in same w (rw we) (Groups-open me g)
Groups-open z (next w h e g) = same w e g
