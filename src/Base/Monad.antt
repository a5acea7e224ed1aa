-- ===== src/Base/Monad.antt =====
-- Calls that can fail and that act on the world: a Go function that returns an `error` beside its
-- result. The world comes back after an error too, since what was done stays done.
use mathlib.Core.Path.{◌≡◌, refl}
use mathlib.Core.Logic.{◌⊎◌, inl, inr}
use mathlib.Core.Option.{Option, none, some}
use mathlib.Core.List.{List, [], ◌∷◌}

pub data Result (E A : Type 0) : Type 0 where
  ok : A → Result E A
  err : E → Result E A

abbrev pub Io : Type 0 → Type 0 → Type 0 → Type 0
Io W E A = W → Result E A × W

module _ {W E : Type 0} where
  abbrev pub pure : {A : Type 0} → A → Io W E A
  pure a w = (ok a, w)

  abbrev pub raise : {A : Type 0} → E → Io W E A
  raise e w = (err e, w)

  infixl 5 ◌>>=◌ ◌>>◌
  abbrev pub ◌>>=◌ : {A B : Type 0} → Io W E A → (A → Io W E B) → Io W E B
  ◌>>=◌ m f w = let (r, w') = m w in elim r [ ok a ↦ f a w' | err e ↦ (err e, w') ]

  abbrev pub ◌>>◌ : {A B : Type 0} → Io W E A → Io W E B → Io W E B
  ◌>>◌ m k = m >>= λ _. k

  -- `nil` is the error that is none.
  abbrev pub return_error : Option E → Io W E (Unit {0})
  return_error none = pure tt
  return_error (some e) = raise e

  -- A value with an error beside it, of a call that touches nothing outside.
  abbrev pub lift : {A : Type 0} → Result E A → Io W E A
  lift r w = (r, w)

  -- The outcome as a value, for code that looks at the error before it returns.
  abbrev pub attempt : {A : Type 0} → Io W E A → Io W E (Result E A)
  attempt m w = let (r, w') = m w in (ok r, w')

  -- `filter(call())` for a call that returns an error alone.
  abbrev pub filtered : {A : Type 0} → (E → Option E) → Io W E A → Io W E (Unit {0})
  filtered p m w =
      let (r, w') = m w in elim r [ ok _ ↦ (ok tt, w') | err e ↦ return_error (p e) w' ]

  -- `for _, x := range xs { ...; ys[i] = y }`: the first error ends the loop.
  unfoldable pub for_each : {A B : Type 0} → (A → Io W E B) → List A → Io W E (List B)
  for_each f [] = pure []
  for_each f (x ∷ xs) = do y ← f x; ys ← for_each f xs; pure (y ∷ ys)

pub Result-cases :
    {E A : Type 0} (r : Result E A) → ((a : A) × (r ≡ ok a)) ⊎ ((e : E) × (r ≡ err e))
Result-cases (ok a) = inl (a, refl)
Result-cases (err e) = inr (e, refl)
