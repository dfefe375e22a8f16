-- ===== src/Base/Calls.antt =====
-- The outcome of a call: a value, an error of type `E`, or a panic.
-- A call on a mutable object takes the object's state and returns the state that it leaves, also
-- where it fails: what was written before the failure stays written.
use mathlib.Core.Bool.{Bool, true, false}
use mathlib.Core.Option.{Option, none, some}

pub data Outcome (E A : Type 0) : Type 0 where
  ok : A → Outcome E A
  err : E → Outcome E A
  panic : Outcome E A

abbrev pub Call : Type 0 → Type 0 → Type 0 → Type 0
Call S E A = S → Outcome E A × S

module _ {S E A : Type 0} where
  abbrev pub pure : A → Call S E A
  pure a s = (ok a, s)

  abbrev pub fail : E → Call S E A
  fail e s = (err e, s)

  abbrev pub lift : Outcome E A → Call S E A
  lift r s = (r, s)

  -- A computation that reads the state.
  abbrev pub gets : (S → Outcome E A) → Call S E A
  gets f s = (f s, s)

infixl 5 ◌>>=◌ ◌>>◌
abbrev pub ◌>>=◌ : {S E A B : Type 0} → Call S E A → (A → Call S E B) → Call S E B
◌>>=◌ m f s =
    let (r, s') = m s in elim r [ ok a ↦ f a s' | err e ↦ (err e, s') | panic ↦ (panic, s') ]

abbrev pub ◌>>◌ : {S E B : Type 0} → Call S E (Unit {0}) → Call S E B → Call S E B
m >> k = m >>= λ _. k

abbrev pub modify : {S E : Type 0} → (S → S) → Call S E (Unit {0})
modify f s = (ok tt, f s)

-- `if test { body?; }`
abbrev pub when : {S E : Type 0} → Bool → Call S E (Unit {0}) → Call S E (Unit {0})
when true m s = m s
when false m s = (ok tt, s)

-- `assert!(test)`
abbrev pub assert : {E : Type 0} → Bool → Outcome E (Unit {0})
assert true = ok tt
assert false = panic

-- `map_err`, and the conversion of an error by `?`.
abbrev pub map_err : {E F A : Type 0} → (E → F) → Outcome E A → Outcome F A
map_err f (ok a) = ok a
map_err f (err e) = err (f e)
map_err f panic = panic

abbrev pub ok_or : {E A : Type 0} → Option A → E → Outcome E A
ok_or (some a) e = ok a
ok_or none e = err e
