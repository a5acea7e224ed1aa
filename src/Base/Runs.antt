-- ===== src/Base/Runs.antt =====
-- Calls that relate the world before to the one after: in one way if they return, in another if they
-- fail.
use boshv.Base.Monad.{Io, ◌>>=◌}
use boshv.Base.Outcome.{Ensures, after_bind, weaken}

-- That a call does nothing is one way to return, and calls can be chained.
pub record Chains {W : Type 0} (R F : W → W → Type 0) : Type 0 where
  pub still : (w : W) → R w w
  pub both_return : (w w' w'' : W) → R w w' → R w' w'' → R w w''
  pub then_fails : (w w' w'' : W) → R w w' → F w' w'' → F w w''

abbrev pub Any : {A : Type 0} → A → Type 0
Any _ = Unit

module _ {W E : Type 0} (R F : W → W → Type 0) where
  -- A call whose result is good.
  abbrev pub Runs : {A : Type 0} → (A → Type 0) → Io W E A → Type 0
  Runs Good m = (w : W) → Ensures (λ a w'. Good a × R w w') (F w) (m w)

  module _ (chains : Chains R F) where
    pub Runs-bind :
        {A B : Type 0} (Good : A → Type 0) (Good' : B → Type 0) (m : Io W E A) (f : A → Io W E B)
        → Runs Good m
        → ((a : A) → Good a → Runs Good' (f a))
        → Runs Good' (m >>= f)
    Runs-bind Good Good' m f h next w =
        after_bind (λ a w'. Good a × R w w') (λ b w'. Good' b × R w w') (F w) (F w) m f w (h w)
          (λ w' k. k)
          λ a w1 k.
            weaken (λ b w'. Good' b × R w1 w') (λ b w'. Good' b × R w w') (F w1) (F w) (f a w1)
              (next a k.0 w1) (λ b w' l. (l.0, chains.both_return w w1 w' k.1 l.1))
              (λ w' l. chains.then_fails w w1 w' k.1 l)

pub Runs-weaken :
    {W E A : Type 0} (R F R' F' : W → W → Type 0) (Good : A → Type 0) (m : Io W E A)
    → ((w w' : W) → R w w' → R' w w')
    → ((w w' : W) → F w w' → F' w w')
    → Runs R F Good m
    → Runs R' F' Good m
Runs-weaken R F R' F' Good m f g h w =
    weaken (λ a w'. Good a × R w w') (λ a w'. Good a × R' w w') (F w) (F' w) (m w) (h w)
      (λ a w' k. (k.0, f w w' k.1)) (λ w' k. g w w' k)
