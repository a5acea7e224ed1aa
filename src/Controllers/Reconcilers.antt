-- ===== src/Controllers/Reconcilers.antt =====
-- The method `Reconcile` of each controller: controllers/*_controller.go. The log calls are left out.
pub mod Requests
pub mod Directors
pub mod Fetching
pub mod Safety
pub mod Retrying
pub mod Preparing
pub mod Deploying
pub mod Compiling
pub mod Spending
pub mod Convergence
use boshv.Base.{
  Bool, false, Str, str, ok, err, Io, pure, raise, return_error, attempt, filtered, ◌>>=◌, ◌!=◌,
  if◌then◌else◌,
}
use boshv.Api.Types.{Deployment, Director}
use boshv.Api.Compilation as ApiCompilation
use boshv.Api.Team as ApiTeam
use boshv.Api.Director as ApiDirector
use boshv.Kube.{Store}
use boshv.Controllers.Platform.{Platform, Request, ignore_does_not_exist, ignore_already_exists}
use boshv.Controllers.Clients.{
  bosh_client_for_namespace, bosh_client_for_director, uaa_admin_for_director,
}
use boshv.Controllers.Bosh.{BoshArtifact, save_if, reconcile_with_bosh}
use boshv.Controllers.Uaa.{reconcile_with_uaa}
use boshv.Controllers.Artifacts.{
  az_artifact, extension_artifact, network_artifact, compilation_artifact, release_artifact,
  base_image_artifact, deployment_artifact, team_entity,
}

module _ {W E : Type 0} (p : Platform W E) (bosh_system_namespace : Str) where
  -- The object of the request, if there is one: that it is gone is no error.
  unfoldable pub fetched :
      {K : Type 0} → Store W E K → Request → (K → Io W E (Unit {0})) → Io W E (Unit {0})
  unfolding ignore_does_not_exist
  fetched store req go = do
    r ← attempt (store.get req.namespace req.name)
    elim r [ ok o ↦ go o | err e ↦ return_error (ignore_does_not_exist p.errors e) ]

  -- What the controllers of the kinds that belong to a namespace's team share.
  unfoldable pub reconcile_for_team :
      {K : Type 0} → BoshArtifact W E K → Store W E K → Request → K → Io W E (Unit {0})
  reconcile_for_team art store req o = do
    bc ← bosh_client_for_namespace p bosh_system_namespace req.namespace
    reconcile_with_bosh art store bc o

  unfoldable pub reconcile_az : Request → Io W E (Unit {0})
  unfolding fetched reconcile_for_team
  reconcile_az req =
      fetched p.kube.azs req (reconcile_for_team (az_artifact p.raw_string) p.kube.azs req)

  unfoldable pub reconcile_extension : Request → Io W E (Unit {0})
  unfolding fetched reconcile_for_team
  reconcile_extension req =
      fetched p.kube.extensions req
        (reconcile_for_team (extension_artifact p.raw_string) p.kube.extensions req)

  unfoldable pub reconcile_network : Request → Io W E (Unit {0})
  unfolding fetched reconcile_for_team
  reconcile_network req =
      fetched p.kube.networks req
        (reconcile_for_team (network_artifact p.raw_string p.kube) p.kube.networks req)

  unfoldable pub reconcile_release : Request → Io W E (Unit {0})
  unfolding fetched reconcile_for_team
  reconcile_release req =
      fetched p.kube.releases req (reconcile_for_team release_artifact p.kube.releases req)

  unfoldable pub reconcile_base_image : Request → Io W E (Unit {0})
  unfolding fetched reconcile_for_team
  reconcile_base_image req =
      fetched p.kube.base_images req (reconcile_for_team base_image_artifact p.kube.base_images req)

  unfoldable pub reset_force_reconciliation : Deployment → Bool × Deployment
  reset_force_reconciliation d = (
    d.spec.force_reconciliation,
    record d { spec = record d.spec { force_reconciliation = false } },
  )

  unfoldable pub reconcile_deployment : Request → Io W E (Unit {0})
  unfolding fetched reconcile_for_team reset_force_reconciliation
  reconcile_deployment req = fetched p.kube.deployments req λ d. do
    reset ← save_if p.kube.deployments.update (reset_force_reconciliation d)
    reconcile_for_team (deployment_artifact p.range_releases p.kube) p.kube.deployments req reset

  unfoldable pub reconcile_compilation : Request → Io W E (Unit {0})
  unfolding fetched
  reconcile_compilation req =
      if req.namespace != bosh_system_namespace
      then raise
          (p.errors.new_error (str "cannot create compilation outside BOSH system namespace"))
      else fetched p.kube.compilations req λ c. do
        prepared ← save_if p.kube.compilations.update_status (ApiCompilation.prepare_to_save c)
        bc ← bosh_client_for_director p bosh_system_namespace prepared.status.original_director
        reconcile_with_bosh compilation_artifact p.kube.compilations bc prepared

  unfoldable pub reconcile_team : Request → Io W E (Unit {0})
  unfolding fetched
  reconcile_team req = fetched p.kube.teams req λ t. do
    prepared ← save_if p.kube.teams.update_status (ApiTeam.prepare_to_save bosh_system_namespace t)
    uc ← uaa_admin_for_director p bosh_system_namespace prepared.status.original_director
    reconcile_with_uaa p.errors p.kube.secrets p.rand_read team_entity p.kube.teams uc prepared

  -- The director's own team goes with it.
  unfoldable pub finalize_director : Director → Io W E (Unit {0})
  unfolding ignore_does_not_exist
  finalize_director director = do
    _ ← filtered (ignore_does_not_exist p.errors) (p.kube.teams.delete (ApiDirector.team director))
    _ ← save_if p.kube.directors.update (ApiDirector.ensure_no_finalizer director)
    pure tt

  unfoldable pub apply_director : Director → Io W E (Unit {0})
  unfolding ignore_already_exists
  apply_director director = do
    _ ← save_if p.kube.directors.update (ApiDirector.ensure_finalizer director)
    filtered (ignore_already_exists p.errors) (p.kube.teams.create (ApiDirector.team director))

  unfoldable pub reconcile_director : Request → Io W E (Unit {0})
  unfolding fetched finalize_director apply_director
  reconcile_director req =
      if req.namespace != bosh_system_namespace
      then raise (p.errors.new_error (str "cannot create director outside BOSH system namespace"))
      else fetched p.kube.directors req λ director.
        if ApiDirector.being_deleted director
        then finalize_director director
        else apply_director director
