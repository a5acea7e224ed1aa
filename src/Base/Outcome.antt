-- ===== src/Base/Outcome.antt =====
-- What holds after a call that can fail: one thing if it returns, another if it fails.
use mathlib.Core.Path.{◌≡◌, subst}
use mathlib.Core.List.{List, [], ◌∷◌}
use boshv.Base.Monad.{Result, ok, err, Io, pure, ◌>>=◌, for_each}
use native.Mathlib.Omega.{arith}

ok_injective : {E A : Type 0} {a b : A} → ◌≡◌ {A = Result E A} (ok a) (ok b) → a ≡ b
ok_injective e = cc

module _ {W E : Type 0} where
  -- Of the value and the world after a return, and of the world after a failure.
  abbrev pub Ensures : {A : Type 0} → (A → W → Type 0) → (W → Type 0) → Result E A × W → Type 0
  Ensures P Q (ok a, w) = P a w
  Ensures P Q (err e, w) = Q w

  pub after_bind :
      {A B : Type 0} (P : A → W → Type 0) (P' : B → W → Type 0) (Q Q' : W → Type 0) (m : Io W E A)
      (f : A → Io W E B) (w : W)
      → Ensures P Q (m w)
      → ((w' : W) → Q w' → Q' w')
      → ((a : A) (w' : W) → P a w' → Ensures P' Q' (f a w'))
      → Ensures P' Q' ((m >>= f) w)
  after_bind {A} {B} P P' Q Q' m f w h weaken next = go (m w) h
    where
      go :
          (r : Result E A × W)
          → Ensures P Q r
          → Ensures {A = B} P' Q' (elim (r.0) [ ok a ↦ f a (r.1) | err e ↦ (err e, r.1) ])
      go (ok a, w') h = next a w' h
      go (err e, w') h = weaken w' h

  pub after_return :
      {A : Type 0} (P : A → W → Type 0) (Q : W → Type 0) (r : Result E A × W) {a : A}
      → Ensures P Q r
      → r.0 ≡ ok a
      → P a r.1
  after_return P Q (ok b, w) h e = subst (λ x. P x w) (ok_injective e) h
  after_return P Q (err b, w) h e = ground arith

  pub after_failure :
      {A : Type 0} (P : A → W → Type 0) (Q : W → Type 0) (r : Result E A × W) {e : E}
      → Ensures P Q r
      → r.0 ≡ err e
      → Q r.1
  after_failure P Q (ok b, w) h e = ground arith
  after_failure P Q (err b, w) h e = h

  pub always :
      {A : Type 0} (P : A → W → Type 0) (Q R : W → Type 0) (r : Result E A × W)
      → Ensures P Q r
      → ((a : A) (w : W) → P a w → R w)
      → ((w : W) → Q w → R w)
      → R r.1
  always P Q R (ok b, w) h f g = f b w h
  always P Q R (err b, w) h f g = g w h

  pub weaken :
      {A : Type 0} (P P' : A → W → Type 0) (Q Q' : W → Type 0) (r : Result E A × W)
      → Ensures P Q r
      → ((a : A) (w : W) → P a w → P' a w)
      → ((w : W) → Q w → Q' w)
      → Ensures P' Q' r
  weaken P P' Q Q' (ok b, w) h f g = f b w h
  weaken P P' Q Q' (err b, w) h f g = g w h

  pub both :
      {A : Type 0} (P P' : A → W → Type 0) (Q Q' : W → Type 0) (r : Result E A × W)
      → Ensures P Q r
      → Ensures P' Q' r
      → Ensures (λ a w. P a w × P' a w) (λ w. Q w × Q' w) r
  both P P' Q Q' (ok a, w) h k = (h, k)
  both P P' Q Q' (err e, w) h k = (h, k)

  -- Calls that keep to a preorder on the worlds, whether they return or fail.
  module _ (R : W → W → Type 0) (R_refl : (w : W) → R w w)
      (R_trans : (w w' w'' : W) → R w w' → R w' w'' → R w w'') where
    abbrev pub Keeps : {A : Type 0} → Io W E A → Type 0
    Keeps m = (w : W) → Ensures (λ _. R w) (R w) (m w)

    pub Keeps-bind :
        {A B : Type 0} (m : Io W E A) (f : A → Io W E B)
        → Keeps m
        → ((a : A) → Keeps (f a))
        → Keeps (m >>= f)
    Keeps-bind m f h k w =
        after_bind (λ _. R w) (λ _. R w) (R w) (R w) m f w (h w) (λ w' r. r)
          λ a w' r.
            weaken (λ _. R w') (λ _. R w) (R w') (R w) (f a w') (k a w')
              (λ _ w'' r'. R_trans w w' w'' r r') (λ w'' r'. R_trans w w' w'' r r')

    pub Keeps-for_each :
        {A B : Type 0} (f : A → Io W E B) (xs : List A)
        → ((x : A) → Keeps (f x))
        → Keeps (for_each f xs)
    unfolding for_each
    Keeps-for_each f [] h w = R_refl w
    Keeps-for_each f (x ∷ xs) h w =
        Keeps-bind (f x) (λ y. for_each f xs >>= λ ys. pure (y ∷ ys)) (h x)
          (λ y.
            Keeps-bind (for_each f xs) (λ ys. pure (y ∷ ys)) (Keeps-for_each f xs h)
              λ ys w. R_refl w)
          w
