-- ===== src/Controllers/Reconcilers/Spending.antt =====
-- The calls that a controller of a kind that belongs to a namespace's team makes, and the faults they
-- use up.
use boshv.Base.{
  ℕ, ◌≤◌, ◌<◌, ◌⊎◌, Result, ok, Bool, true, false, ◌||◌, ◌≡◌, err, List, [], ◌∷◌, Str, arith,
}
use boshv.Api.Types.{Team}
use boshv.Base.Runs.{Any, Runs-bind}
use boshv.Controllers.Clients.Calls.{Opens, client-Runs}
use boshv.Controllers.Bosh.Calls.{Acts, reconcile-Runs}
use boshv.Kube.{Store}
use boshv.Remote.BoshClient.{BoshClient, bosh_client_impl}
use boshv.Controllers.Platform.{Platform, Request}
use boshv.Controllers.Clients.{only_team, bosh_client_for_namespace}
use boshv.Controllers.Bosh.{BoshArtifact, reconcile_with_bosh}
use boshv.Controllers.Bosh.Watching.{Watch, Belongs}
use boshv.Controllers.Reconcilers.{reconcile_for_team}
use boshv.Controllers.Reconcilers.Retrying.{Spends, spending}

module _ {W E K : Type 0} (p : Platform W E) (bosh_system_namespace : Str)
    (art : BoshArtifact W E K) (store : Store W E K) (v : Watch W K) (belongs : Belongs W K)
    (req : Request) (faults : W → ℕ) (dying : Bool) where
  abbrev pub absent : E → Bool
  absent e = p.errors.is_not_found e || p.errors.is_gone e

  -- What is answered when the object is asked for. It is being deleted or not, as `dying` says; it is
  -- gone only if it is being deleted and has no finalizer; and any other error uses up a fault.
  abbrev pub Answers : W → Result E K × W → Type 0
  Answers w (ok o, w') = (art.being_deleted o ≡ dying) × (faults w' ≤ faults w)
  Answers w (err e, w') =
      ((absent e ≡ true) × (dying ≡ true) × (v.guarded w ≡ false))
      ⊎ ((absent e ≡ false) × (faults w' < faults w))

  -- What a client of BOSH is for.
  abbrev pub Serves : BoshClient W E → Type 0
  Serves bc =
      (o : K)
      → Spends faults Any (art.create_unless_exists bc o)
        × Spends faults Any (art.delete_if_exists bc o)

  -- The namespace of the request has one team, and every call that fails uses up a fault.
  pub record Transient (team : Team) : Type 0 where
    pub gets : (w : W) → Answers w (store.get req.namespace req.name w)
    pub lists_team : Spends faults (λ teams. teams ≡ team ∷ []) (p.kube.list_teams req.namespace)
    pub gets_secret : (namespace name : Str) → Spends faults Any (p.kube.secrets.get namespace name)
    pub gets_director :
        (namespace name : Str) → Spends faults Any (p.kube.directors.get namespace name)
    pub parses_uaa : (url : Str) → Spends faults Any (p.bosh.uaa_config_from_url url)
    pub makes_uaa : (c : p.bosh.UaaConfig) → Spends faults Any (p.bosh.new_uaa c)
    pub parses_director : (url : Str) → Spends faults Any (p.bosh.director_config_from_url url)
    pub makes_director :
        (c : p.bosh.DirectorConfig)
        → Spends faults (λ api. Serves (bosh_client_impl api)) (p.bosh.new_director c)
    pub updates : (o : K) → Spends faults Any (store.update o)
    pub updates_status : (o : K) → Spends faults Any (store.update_status o)

  -- A call that only fails by using up a fault runs well.
  abbrev Keep : W → W → Type 0
  Keep w w' = faults w' ≤ faults w

  abbrev Spend : W → W → Type 0
  Spend w w' = faults w' < faults w

  module _ (team : Team) (law : Transient team) where
    only_team-Spends :
        (teams : List Team)
        → teams ≡ team ∷ []
        → Spends faults Any (only_team p bosh_system_namespace teams)
    unfolding only_team
    only_team-Spends [] e w = ground arith
    only_team-Spends (t ∷ []) e w = (tt, omega arith)
    only_team-Spends (t ∷ u ∷ rest) e w = ground arith

    opens :
        Opens p bosh_system_namespace req.namespace Keep Spend (λ teams. teams ≡ team ∷ []) Serves
    opens = record {
      lists_teams = law.lists_team;
      chooses = only_team-Spends;
      gets_secret = law.gets_secret;
      gets_director = law.gets_director;
      parses_uaa = law.parses_uaa;
      makes_uaa = law.makes_uaa;
      parses_director = law.parses_director;
      makes_director = law.makes_director;
    }

    acts : (bc : BoshClient W E) → Serves bc → Acts art store bc Keep Spend Any
    acts bc serves = record {
      updates = λ o _. law.updates o;
      updates_status = λ o _. law.updates_status o;
      creates = λ o _. (serves o).0;
      deletes = λ o _. (serves o).1;
      prepares = λ o _. tt;
      guards = λ o _. tt;
      unguards = λ o _. tt;
    }

    pub for_team-Spends :
        (o : K) → Spends faults Any (reconcile_for_team p bosh_system_namespace art store req o)
    unfolding reconcile_for_team
    for_team-Spends o =
        Runs-bind Keep Spend (spending faults) Serves Any
          (bosh_client_for_namespace p bosh_system_namespace req.namespace)
          (λ bc. reconcile_with_bosh art store bc o)
          (client-Runs p bosh_system_namespace req.namespace Keep Spend (λ teams. teams ≡ team ∷ [])
            Serves (spending faults) opens)
          λ bc serves.
            reconcile-Runs art store bc Keep Spend Any (spending faults) (acts bc serves) o tt
