-- ===== src/Base/Promises.antt =====
-- What a call ensures: it does not panic, and where it succeeds its value and the state that it
-- leaves are as stated. An error is free to leave any state.
use mathlib.Core.Path.{◌≡◌, refl, subst}
use mathlib.Core.Logic.{◌⊎◌, inl, inr}
use mathlib.Core.Bool.{Bool, true, false}
use barrique.Base.Tests.{if◌then◌else◌}
use barrique.Base.Calls.{Outcome, ok, err, panic, Call, map_err, when}

module _ {S E A : Type 0} where
  abbrev Holds : (A → S → Type 0) → Outcome E A × S → Type 0
  Holds G (ok a, s) = G a s
  Holds G (err e, s) = Unit {0}
  Holds G (panic, s) = ⊥

  pub record Ensures (G : A → S → Type 0) (m : Outcome E A × S) : Type 0 where
    pub holds : Holds G m

  pub Ensures-ok : {G : A → S → Type 0} {a : A} {s : S} → G a s → Ensures G (ok a, s)
  Ensures-ok h = record { holds = h }

  pub Ensures-err : {G : A → S → Type 0} {e : E} {s : S} → Ensures G (err e, s)
  Ensures-err = record { holds = tt }

  pub Ensures-at :
      {G : A → S → Type 0} {m : Outcome E A × S} {a : A} {s : S}
      → Ensures G m
      → m ≡ (ok a, s)
      → G a s
  Ensures-at {G} h e = subst (λ p. Holds G p) e h.holds

  pub Ensures-no_panic : {G : A → S → Type 0} (m : Outcome E A × S) → Ensures G m → ¬ (m.0 ≡ panic)
  Ensures-no_panic (ok a, s) h e = cc
  Ensures-no_panic (err a, s) h e = cc
  Ensures-no_panic (panic, s) h e = h.holds

  pub Ensures-cases :
      {G : A → S → Type 0} (m : Outcome E A × S)
      → Ensures G m
      → ((a : A) × (s : S) × (m ≡ (ok a, s)) × G a s) ⊎ ((e : E) × (s : S) × (m ≡ (err e, s)))
  Ensures-cases (ok a, s) h = inl (a, s, refl, h.holds)
  Ensures-cases (err e, s) h = inr (e, s, refl)
  Ensures-cases (panic, s) h = absurd h.holds

  weaker :
      {G H : A → S → Type 0} (m : Outcome E A × S)
      → Holds G m
      → ((a : A) (s : S) → G a s → H a s)
      → Holds H m
  weaker (ok a, s) h k = k a s h
  weaker (err e, s) h k = tt
  weaker (panic, s) h k = h

  -- A weaker statement of the value and the state.
  pub Ensures-weaken :
      {G H : A → S → Type 0} {m : Outcome E A × S}
      → Ensures G m
      → ((a : A) (s : S) → G a s → H a s)
      → Ensures H m
  Ensures-weaken {m = m} h k = record { holds = weaker m h.holds k }

module _ {S E A B : Type 0} where
  bound :
      (G : A → S → Type 0) {H : B → S → Type 0} (m : Outcome E A × S) (f : A → Outcome E B × S)
      → Holds G m
      → ((a : A) → G a m.1 → Ensures H (f a))
      → Holds {E = E} H (elim m.0 [ ok a ↦ f a | err e ↦ (err e, m.1) | panic ↦ (panic, m.1) ])
  bound G (ok a, s) f h k = (k a h).holds
  bound G (err e, s) f h k = tt
  bound G (panic, s) f h k = h

  -- The second call may use what the first one ensures.
  pub Ensures-bind :
      {G : A → S → Type 0} {H : B → S → Type 0} {m : Outcome E A × S} {f : A → Outcome E B × S}
      → Ensures G m
      → ((a : A) → G a m.1 → Ensures H (f a))
      → Ensures {E = E} H (elim m.0 [ ok a ↦ f a | err e ↦ (err e, m.1) | panic ↦ (panic, m.1) ])
  Ensures-bind {G} {m = m} {f = f} h k = record { holds = bound G m f h.holds k }

module _ {S E F A : Type 0} where
  -- The error of a call may be converted.
  pub Ensures-map_err :
      {G : A → S → Type 0} (f : E → F) (m : Outcome E A × S)
      → Ensures G m
      → Ensures G (map_err f m.0, m.1)
  Ensures-map_err f (ok a, s) h = record { holds = h.holds }
  Ensures-map_err f (err e, s) h = record { holds = tt }
  Ensures-map_err f (panic, s) h = record { holds = h.holds }

module _ {S E : Type 0} where
  -- A call under a test.
  pub Ensures-when :
      {G : Unit {0} → S → Type 0} (b : Bool) (m : Call S E (Unit {0})) {s : S}
      → (b ≡ true → Ensures G (m s))
      → (b ≡ false → G tt s)
      → Ensures G (when b m s)
  Ensures-when true m h k = h refl
  Ensures-when false m h k = record { holds = k refl }

module _ {S T E A : Type 0} where
  -- The call of a part of the state.
  pub Ensures-map_state :
      {G : A → T → Type 0} (f : S → T) (m : Outcome E A × S)
      → Ensures (λ a s. G a (f s)) m
      → Ensures G (m.0, f m.1)
  Ensures-map_state f (ok a, s) h = record { holds = h.holds }
  Ensures-map_state f (err e, s) h = record { holds = tt }
  Ensures-map_state f (panic, s) h = record { holds = h.holds }

module _ {S E A : Type 0} where
  -- One of two outcomes, the state being what it was.
  pub Ensures-if_outcome :
      {G : A → S → Type 0} (b : Bool) {m k : Outcome E A} {s : S}
      → (b ≡ true → Ensures G (m, s))
      → (b ≡ false → Ensures G (k, s))
      → Ensures G (if b then m else k, s)
  Ensures-if_outcome true h k = h refl
  Ensures-if_outcome false h k = k refl

module _ {S E A B : Type 0} where
  -- What both calls keep of the state, whatever their outcome, they keep one after the other.
  pub keep-bind :
      (P : S → Type 0) (m : Outcome E A × S) (f : A → Outcome E B × S)
      → P m.1
      → ((a : A) → P (f a).1)
      → P
          (elim m.0 as (λ _. Outcome E B × S) [
            | ok a ↦ f a
            | err e ↦ (err e, m.1)
            | panic ↦ (panic, m.1)
          ]).1
  keep-bind P (ok a, s) f h k = k a
  keep-bind P (err e, s) f h k = h
  keep-bind P (panic, s) f h k = h
