-- ===== src/Controllers/Reconcilers/Safety.antt =====
-- A controller of a kind that belongs to a namespace's team, as a whole: it asks for the object, finds
-- the director and the credentials, and reconciles.
use boshv.Base.{
  ◌>>=◌, sym, false, not, ◌&&◌, Result, ◌≡◌, refl, ◌∙◌, List, [], ◌∷◌, Str, Io, ok, err, arith,
}
use boshv.Base.Outcome.{Ensures, after_bind, weaken}
use boshv.Api.Types.{Team}
use boshv.Base.Runs.{Chains, Any, Runs}
use boshv.Controllers.Clients.Calls.{Opens, client-Runs}
use boshv.Kube.{Store}
use boshv.Remote.BoshClient.{BoshClient, bosh_client_impl}
use boshv.Controllers.Platform.{Platform, Request}
use boshv.Controllers.Clients.{only_team, bosh_client_for_namespace}
use boshv.Controllers.Bosh.{BoshArtifact, reconcile_with_bosh}
use boshv.Controllers.Bosh.Watching.{Watch, Belongs, Faithful}
use boshv.Controllers.Bosh.Safety.{no_orphan}
use boshv.Controllers.Reconcilers.Fetching.{fetched_always}
use boshv.Controllers.Reconcilers.{fetched, reconcile_for_team}

module _ {W E K : Type 0} (p : Platform W E) (bosh_system_namespace : Str)
    (art : BoshArtifact W E K) (store : Store W E K) (v : Watch W K) (belongs : Belongs W K)
    (req : Request) where
  abbrev pub Untouched : W → W → Type 0
  Untouched w w' =
      (v.guarded w' ≡ v.guarded w)
      × (v.exists w' ≡ v.exists w)
      × ((o : K) → belongs.Mine o w → belongs.Mine o w')

  -- A call that leaves what is watched alone, and whose result is good.
  abbrev pub Quiet : {A : Type 0} → (A → Type 0) → Io W E A → Type 0
  Quiet = Runs Untouched Untouched

  -- What a controller reads leaves the object and its artifact alone, the object that it gets is the
  -- stored one, and a director's API that it is given does what the artifact needs.
  pub record Reads : Type 1 where
    pub gets :
        (w : W)
        → Ensures
            (λ o w'. (belongs.Mine o w' × (v.has_finalizer o ≡ v.guarded w')) × Untouched w w')
            (Untouched w)
            (store.get req.namespace req.name w)
    pub lists_teams : (namespace : Str) → Quiet Any (p.kube.list_teams namespace)
    pub gets_secret : (namespace name : Str) → Quiet Any (p.kube.secrets.get namespace name)
    pub gets_director : (namespace name : Str) → Quiet Any (p.kube.directors.get namespace name)
    pub parses_uaa : (url : Str) → Quiet Any (p.bosh.uaa_config_from_url url)
    pub makes_uaa : (c : p.bosh.UaaConfig) → Quiet Any (p.bosh.new_uaa c)
    pub parses_director : (url : Str) → Quiet Any (p.bosh.director_config_from_url url)
    pub makes_director :
        (c : p.bosh.DirectorConfig)
        → Quiet (λ api. Faithful art store (bosh_client_impl api) v belongs) (p.bosh.new_director c)

  pub quiet : Chains Untouched Untouched
  quiet = record {
    still = λ w. (refl, refl, λ o m. m);
    both_return = λ w w' w'' u u'. (u'.0 ∙ u.0, u'.1 ∙ u.1, λ o m. u'.2 o (u.2 o m));
    then_fails = λ w w' w'' u u'. (u'.0 ∙ u.0, u'.1 ∙ u.1, λ o m. u'.2 o (u.2 o m));
  }

  only_team-Quiet : (teams : List Team) → Quiet Any (only_team p bosh_system_namespace teams)
  unfolding only_team
  only_team-Quiet [] w = (refl, refl, λ o m. m)
  only_team-Quiet (team ∷ []) w = (tt, (refl, refl, λ o m. m))
  only_team-Quiet (team ∷ other ∷ rest) w = (refl, refl, λ o m. m)

  abbrev pub Fits : BoshClient W E → Type 0
  Fits bc = Faithful art store bc v belongs

  pub opens : Reads → Opens p bosh_system_namespace req.namespace Untouched Untouched Any Fits
  opens r = record {
    lists_teams = r.lists_teams req.namespace;
    chooses = λ teams _. only_team-Quiet teams;
    gets_secret = r.gets_secret;
    gets_director = r.gets_director;
    parses_uaa = r.parses_uaa;
    makes_uaa = r.makes_uaa;
    parses_director = r.parses_director;
    makes_director = r.makes_director;
  }

  pub client-Quiet :
      Reads → Quiet Fits (bosh_client_for_namespace p bosh_system_namespace req.namespace)
  client-Quiet r =
      client-Runs p bosh_system_namespace req.namespace Untouched Untouched Any Fits quiet (opens r)

  abbrev pub Safe : W → Type 0
  Safe w = (v.exists w && not (v.guarded w)) ≡ false

  everywhere : (r : Result E (Unit {0}) × W) → Safe r.1 → Ensures {A = Unit {0}} (λ _. Safe) Safe r
  everywhere (ok _, w) h = h
  everywhere (err _, w) h = h

  pub nowhere : {A : Type 0} (r : Result E A × W) → Ensures {A = A} (λ _. Safe) Safe r → Safe r.1
  nowhere (ok _, w) h = h
  nowhere (err _, w) h = h

  -- Reconciling through any client that fits.
  pub client-Safe :
      (client : Io W E (BoshClient W E)) (o : K) (w : W)
      → Quiet Fits client
      → belongs.Mine o w
      → v.has_finalizer o ≡ v.guarded w
      → Safe w
      → Ensures (λ _. Safe) Safe ((client >>= λ bc. reconcile_with_bosh art store bc o) w)
  client-Safe client o w q m h safe =
      after_bind (λ bc w'. Fits bc × Untouched w w') (λ _. Safe) (Untouched w) Safe client
        (λ bc. reconcile_with_bosh art store bc o) w (q w) (λ w' u. ground arith)
        λ bc w' k.
          everywhere (reconcile_with_bosh art store bc o w')
            (no_orphan art store bc v belongs k.0 o w' (k.1.2 o m) (h ∙ sym k.1.0) (ground arith))

  pub for_team-Safe :
      Reads
      → (o : K) (w : W) → belongs.Mine o w
      → v.has_finalizer o ≡ v.guarded w
      → Safe w
      → Ensures (λ _. Safe) Safe (reconcile_for_team p bosh_system_namespace art store req o w)
  unfolding reconcile_for_team
  for_team-Safe r o w m h safe =
      client-Safe (bosh_client_for_namespace p bosh_system_namespace req.namespace) o w
        (client-Quiet r) m h safe

  -- The object is asked for, and then reconciled through a client that fits.
  pub run_no_orphan :
      ((w : W)
        → Ensures
            (λ o w'. (belongs.Mine o w' × (v.has_finalizer o ≡ v.guarded w')) × Untouched w w')
            (Untouched w)
            (store.get req.namespace req.name w))
      → Quiet Fits (bosh_client_for_namespace p bosh_system_namespace req.namespace)
      → (w : W) → Safe w
      → Safe
          (fetched p bosh_system_namespace store req
            (reconcile_for_team p bosh_system_namespace art store req)
            w).1
  unfolding reconcile_for_team
  run_no_orphan gets client w safe =
      fetched_always p bosh_system_namespace store req
        (reconcile_for_team p bosh_system_namespace art store req) Safe w
        (weaken _ _ _ _ (store.get req.namespace req.name w) (gets w)
          (λ o w' k. nowhere _ (
            client-Safe (bosh_client_for_namespace p bosh_system_namespace req.namespace) o w'
              client k.0.0 k.0.1 (ground arith)))
          (λ w' u. ground arith))

  -- By `Reads`: however a controller's whole run on a request ends, it leaves no artifact in BOSH
  -- without the finalizer on the stored object, if there was none before.
  pub controller_no_orphan :
      Reads
      → (w : W) → (v.exists w && not (v.guarded w)) ≡ false
      → let w' =
          (fetched p bosh_system_namespace store req
            (reconcile_for_team p bosh_system_namespace art store req)
            w).1 in
        (v.exists w' && not (v.guarded w')) ≡ false
  controller_no_orphan r w safe = run_no_orphan r.gets (client-Quiet r) w safe
