-- ===== src/Controllers/Reconcilers/Retrying.antt =====
-- A call that is made again after an error, as the manager of controller-runtime hands a request out
-- again.
use boshv.Base.{ℕ, zero, suc, ◌≤◌, ◌<◌, ◌≡◌, refl, Result, ok, err, Io, arith}
use boshv.Base.Runs.{Chains, Runs}
use boshv.Base.Outcome.{Ensures}

-- At most `n` more runs after a first one that fails.
pub retrying : {W E : Type 0} → ℕ → Io W E (Unit {0}) → Io W E (Unit {0})
retrying zero m = m
retrying (suc n) m =
    λ w. let (r, w') = m w in elim r [ ok _ ↦ (ok tt, w') | err _ ↦ retrying n m w' ]

-- A call that fails and changes nothing never gets further.
pub retrying-fails :
    {W E : Type 0} (n : ℕ) (m : Io W E (Unit {0})) (e : E) (w : W)
    → m w ≡ (err e, w)
    → retrying n m w ≡ (err e, w)
unfolding retrying
retrying-fails zero m e w h = h
retrying-fails (suc n) m e w h = let later = retrying-fails n m e w h in ground (arith, h, later)

pub spending :
    {W : Type 0} (faults : W → ℕ)
    → Chains (λ w w'. faults w' ≤ faults w) (λ w w'. faults w' < faults w)
spending faults = record {
  still = λ w. omega arith;
  both_return = λ w w' w'' l l'. omega (arith, l, l');
  then_fails = λ w w' w'' l l'. omega (arith, l, l');
}

module _ {W E : Type 0} (faults : W → ℕ) where
  -- A call that fails uses up one of the faults that are yet to come, and no call adds any.
  abbrev pub Spends : {A : Type 0} → (A → Type 0) → Io W E A → Type 0
  Spends = Runs (λ w w'. faults w' ≤ faults w) (λ w w'. faults w' < faults w)

  -- If every run keeps `Safe` and, when it fails, has used up a fault, enough runs end well.
  pub retrying-ends :
      (Safe Done : W → Type 0) (m : Io W E (Unit {0}))
      → ((w : W) → Safe w → Ensures (λ _. Done) (λ w'. Safe w' × (faults w' < faults w)) (m w))
      → (n : ℕ) (w : W) → Safe w
      → faults w ≤ n
      → ((retrying n m w).0 ≡ ok tt) × Done (retrying n m w).1
  unfolding retrying
  retrying-ends Safe Done m h zero w safe l = go (m w) (h w safe)
    where
      go :
          (r : Result E (Unit {0}) × W)
          → Ensures (λ _. Done) (λ w'. Safe w' × (faults w' < faults w)) r
          → (r.0 ≡ ok tt) × Done r.1
      go (ok _, w') k = (refl, k)
      go (err e, w') k = let bad : ⊥ = omega (arith, k.1, l) in elim bad [ ]
  retrying-ends Safe Done m h (suc n) w safe l =
      go (m w) (h w safe) (λ w' s k. retrying-ends Safe Done m h n w' s k)
    where
      go :
          (r : Result E (Unit {0}) × W)
          → Ensures (λ _. Done) (λ w'. Safe w' × (faults w' < faults w)) r
          → ((w' : W)
              → Safe w'
              → faults w' ≤ n
              → ((retrying n m w').0 ≡ ok tt) × Done (retrying n m w').1)
          → let x : Result E (Unit {0}) × W = elim (r.0) [
            | ok _ ↦ (ok tt, r.1)
            | err _ ↦ retrying n m r.1
          ] in
            (x.0 ≡ ok tt) × Done x.1
      go (ok _, w') k again = (refl, k)
      go (err e, w') k again = again w' k.0 (omega (arith, k.1, l))
