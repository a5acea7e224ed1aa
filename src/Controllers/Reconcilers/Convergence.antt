-- ===== src/Controllers/Reconcilers/Convergence.antt =====
-- A controller that is handed its request again after an error.
use boshv.Base.{
  ℕ, ◌≤◌, ◌<◌, Bool, true, false, not, ◌&&◌, ◌||◌, if◌then◌else◌, ◌≡◌, refl, sym, ◌∙◌, ◌⊎◌, inl,
  inr, Result, ok, err, Str, Io, return_error, none, some, arith,
}
use boshv.Base.Outcome.{Ensures, after_bind, both, weaken}
use boshv.Api.Types.{Team}
use boshv.Kube.{Store}
use boshv.Remote.BoshClient.{BoshClient}
use boshv.Controllers.Platform.{Platform, Request, ignore_does_not_exist}
use boshv.Controllers.Clients.{bosh_client_for_namespace}
use boshv.Controllers.Bosh.{BoshArtifact, reconcile_with_bosh}
use boshv.Controllers.Bosh.Watching.{Watch, Belongs, Faithful}
use boshv.Controllers.Bosh.Safety.{reconcile-Applied, reconcile-Finalized}
use boshv.Controllers.Reconcilers.{fetched, reconcile_for_team}
use boshv.Controllers.Reconcilers.Safety.{Reads, client-Quiet, controller_no_orphan}
use boshv.Controllers.Reconcilers.Retrying.{retrying, retrying-ends}
use boshv.Controllers.Reconcilers.Spending.{Answers, Transient, for_team-Spends}

from_return :
    {W E A : Type 0} (P : W → Type 0) (r : Result E A × W)
    → ((a : A) → r.0 ≡ ok a → P r.1)
    → Ensures (λ _. P) (λ _. Unit) r
from_return P (ok a, w) h = h a refl
from_return P (err e, w) h = tt

and_failing :
    {W E A : Type 0} (P Q R : W → Type 0) (r : Result E A × W)
    → Ensures (λ _. P) Q r
    → R r.1
    → Ensures (λ _. P) (λ w. R w × Q w) r
and_failing P Q R (ok a, w) h k = h
and_failing P Q R (err e, w) h k = (k, h)

-- What reconciling brings about: of an object that is being deleted, that the artifact and the
-- finalizer are gone, of any other that they are there and that the status says so.
abbrev pub Settled : {W K : Type 0} → Watch W K → Bool → W → Type 0
Settled v true w = (v.exists w ≡ false) × (v.guarded w ≡ false)
Settled v false w = (v.exists w ≡ true) × (v.guarded w ≡ true) × (v.reported w ≡ true)

module _ {W E K : Type 0} (p : Platform W E) (bosh_system_namespace : Str)
    (art : BoshArtifact W E K) (store : Store W E K) (v : Watch W K) (belongs : Belongs W K)
    (req : Request) (faults : W → ℕ) (dying : Bool)
    (reads : Reads p bosh_system_namespace art store v belongs req) (team : Team)
    (law : Transient p bosh_system_namespace art store v belongs req faults dying team) where
  abbrev Opened : W → BoshClient W E → W → Type 0
  Opened w bc w' =
      Faithful art store bc v belongs
      × (v.guarded w' ≡ v.guarded w)
      × (v.exists w' ≡ v.exists w)
      × ((o : K) → belongs.Mine o w → belongs.Mine o w')

  reconcile-Settled :
      (bc : BoshClient W E) (o : K) (w : W) (b : Bool)
      → Faithful art store bc v belongs
      → belongs.Mine o w
      → v.has_finalizer o ≡ v.guarded w
      → (v.exists w && not (v.guarded w)) ≡ false
      → art.being_deleted o ≡ b
      → Ensures (λ _. Settled v b) (λ _. Unit) (reconcile_with_bosh art store bc o w)
  reconcile-Settled bc o w false fits m h safe live =
      from_return (Settled v false) (reconcile_with_bosh art store bc o w)
        λ _ e. reconcile-Applied art store bc v belongs fits o w m h safe live e
  reconcile-Settled bc o w true fits m h safe dead =
      from_return (Settled v true) (reconcile_with_bosh art store bc o w) λ _ e.
        elim (reconcile-Finalized art store bc v belongs fits o w m h safe dead) [
          | inl done ↦ (done.1, done.2)
          | inr failed ↦ cc (e, failed.1)
        ]

  for_team-Settled :
      (o : K) (w : W)
      → belongs.Mine o w
      → v.has_finalizer o ≡ v.guarded w
      → art.being_deleted o ≡ dying
      → (v.exists w && not (v.guarded w)) ≡ false
      → Ensures
          (λ _. Settled v dying)
          (λ _. Unit)
          (reconcile_for_team p bosh_system_namespace art store req o w)
  unfolding reconcile_for_team
  for_team-Settled o w m h d safe =
      after_bind (Opened w) (λ _. Settled v dying) (λ _. Unit) (λ _. Unit)
        (bosh_client_for_namespace p bosh_system_namespace req.namespace)
        (λ bc. reconcile_with_bosh art store bc o) w
        (weaken _ (Opened w) _ (λ _. Unit) _
          (client-Quiet p bosh_system_namespace art store v belongs req reads w)
          (λ bc w' k. (k.0, k.1.0, k.1.1, k.1.2)) (λ w' k. tt))
        (λ w' u. u)
        λ bc w' k. reconcile-Settled bc o w' dying k.0 (k.3 o m) (h ∙ sym k.1) (ground arith) d

  abbrev Spent : W → W → Type 0
  Spent w w' = faults w' < faults w

  abbrev Untouched : W → W → Type 0
  Untouched w w' =
      (v.guarded w' ≡ v.guarded w)
      × (v.exists w' ≡ v.exists w)
      × ((o : K) → belongs.Mine o w → belongs.Mine o w')

  -- What is got is the stored object.
  abbrev Got : W → K → W → Type 0
  Got w o w' = (belongs.Mine o w' × (v.has_finalizer o ≡ v.guarded w')) × Untouched w w'

  gone :
      (d : Bool) (w : W)
      → d ≡ true
      → v.guarded w ≡ false
      → (v.exists w && not (v.guarded w)) ≡ false
      → Settled v d w
  gone true w e h safe = (ground arith, h)
  gone false w e h safe = cc

  run_once :
      (w : W)
      → (v.exists w && not (v.guarded w)) ≡ false
      → Ensures
          (λ _. Settled v dying)
          (Spent w)
          (fetched p bosh_system_namespace store req
            (reconcile_for_team p bosh_system_namespace art store req)
            w)
  unfolding fetched ignore_does_not_exist
  run_once w safe = go (store.get req.namespace req.name w) (reads.gets w) (law.gets w)
    where
      missing :
          (e : E) (b : Bool) (w' : W)
          → Untouched w w'
          → ((b ≡ true) × (dying ≡ true) × (v.guarded w ≡ false)) ⊎ ((b ≡ false) × Spent w w')
          → Ensures {E = E} {A = Unit {0}}
              (λ _. Settled v dying)
              (Spent w)
              (return_error {W = W} (if b then none else some e) w')
      missing e true w' u (inl h) = gone dying w' h.1 (u.0 ∙ h.2) (ground arith)
      missing e true w' u (inr h) = cc
      missing e false w' u (inl h) = cc
      missing e false w' u (inr h) = h.1

      go :
          (x : Result E K × W)
          → Ensures (λ o w'. Got w o w') (λ w'. Untouched w w') x
          → Answers p bosh_system_namespace art store v belongs req faults dying w x
          → Ensures {E = E} {A = Unit {0}}
              (λ _. Settled v dying)
              (Spent w)
              ((elim x.0 as (λ _. Io W E (Unit {0})) [
                | ok o ↦ reconcile_for_team p bosh_system_namespace art store req o
                | err e ↦ return_error (ignore_does_not_exist p.errors e)
              ])
                x.1)
      go (ok o, w') k a =
          weaken (λ _ w''. Settled v dying w'' × (Unit × (faults w'' ≤ faults w')))
            (λ _. Settled v dying) (λ w''. Unit × Spent w' w'') (Spent w)
            (reconcile_for_team p bosh_system_namespace art store req o w')
            (both _ _ _ _ (reconcile_for_team p bosh_system_namespace art store req o w')
              (for_team-Settled o w' k.0.0 k.0.1 a.0 (ground arith))
              (for_team-Spends p bosh_system_namespace art store v belongs req faults dying team law
                o w'))
            (λ _ w'' s. s.0) (λ w'' l. omega (arith, l.1, a.1))
      go (err e, w') k a = missing e (p.errors.is_not_found e || p.errors.is_gone e) w' k a

  -- By `Reads` and `Transient`: if the object of the request is being deleted, or is not, throughout,
  -- and its namespace has one team, then its controller, run again after each error and at least as
  -- often as there are faults, returns in the end. If the object is being deleted, neither the artifact
  -- nor the finalizer is then there; if not, the artifact exists in BOSH, the stored object has the
  -- finalizer, and its status says that the artifact is available. At first there is no artifact
  -- without the finalizer.
  pub controller_converges :
      (n : ℕ) (w : W)
      → (v.exists w && not (v.guarded w)) ≡ false
      → faults w ≤ n
      → let (r, w') =
          retrying n
            (fetched p bosh_system_namespace store req
              (reconcile_for_team p bosh_system_namespace art store req))
            w in
        (r ≡ ok tt) × Settled v dying w'
  controller_converges n w safe enough =
      retrying-ends faults (λ w. (v.exists w && not (v.guarded w)) ≡ false) (Settled v dying)
        (fetched p bosh_system_namespace store req
          (reconcile_for_team p bosh_system_namespace art store req))
        (λ w safe.
          and_failing (Settled v dying) (Spent w) (λ w. (v.exists w && not (v.guarded w)) ≡ false) _
            (run_once w safe)
            (controller_no_orphan p bosh_system_namespace art store v belongs req reads w safe))
        n w safe enough
