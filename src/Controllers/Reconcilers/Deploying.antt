-- ===== src/Controllers/Reconcilers/Deploying.antt =====
-- The run of `Reconcile` of controllers/deployment_controller.go as a whole.
use boshv.Base.{false, not, ◌&&◌, ◌≡◌, Option, Str, str}
use boshv.Api.Types.{Deployment, DeploymentStatus}
use boshv.Api.Helpers.{contains_string}
use boshv.Api.Helpers.Names.{dashed}
use boshv.Api.Deployment as ApiDeployment
use boshv.Controllers.Platform.{Platform, Request}
use boshv.Controllers.Bosh.{save_if}
use boshv.Controllers.Bosh.Watching.{Watch, fixed}
use boshv.Controllers.Bosh.Views.{Stored, Named, StoreLaws, is_some, watch}
use boshv.Controllers.Artifacts.{deployment_artifact}
use boshv.Controllers.Reconcilers.{
  reconcile_for_team, reset_force_reconciliation, reconcile_deployment,
}
use boshv.Controllers.Reconcilers.Safety.{Reads, for_team-Safe}
use boshv.Controllers.Reconcilers.Preparing.{saved, prepared_run}

module _ {W E : Type 0} (p : Platform W E) (bosh_system_namespace : Str)
    (configs : W → Str → Option Str) (ns nm : Str) where
  abbrev request : Request
  request = record { namespace = ns; name = nm }

  module _ (stored : W → Stored DeploymentStatus)
      (store_laws : StoreLaws p.kube.deployments configs stored ns nm) where
    abbrev deployment_seen : Watch W Deployment
    deployment_seen =
        watch configs stored ApiDeployment.deployment_finalizer (dashed (str "deployment") ns nm)
          (λ s. s.available)

    -- By `Reads` and `StoreLaws`: however the run of the deployment controller on the deployment of a
    -- namespace and name ends, the write included that takes the force off the reconciliation, it
    -- leaves no deployment of its internal name in BOSH without the finalizer on the stored object, if
    -- there was none before.
    pub deployment_run_no_orphan :
        Reads p bosh_system_namespace
          (deployment_artifact p.range_releases p.kube)
          p.kube.deployments
          deployment_seen
          (fixed (Named ns nm))
          request
        → (w : W)
        → (is_some (configs w (dashed (str "deployment") ns nm))
            && not (contains_string (stored w).0 ApiDeployment.deployment_finalizer))
          ≡ false
        → let w' = (reconcile_deployment p bosh_system_namespace request w).1 in
          (is_some (configs w' (dashed (str "deployment") ns nm))
            && not (contains_string (stored w').0 ApiDeployment.deployment_finalizer))
          ≡ false
    unfolding reconcile_deployment reset_force_reconciliation
    deployment_run_no_orphan reads w safe =
        prepared_run p.kube.deployments configs stored ApiDeployment.deployment_finalizer
          (dashed (str "deployment") ns nm) ns nm (λ s. s.available) store_laws p
          bosh_system_namespace (deployment_artifact p.range_releases p.kube)
          (λ d.
            save_if p.kube.deployments.update
              (reset_force_reconciliation p bosh_system_namespace d))
          (reconcile_for_team p bosh_system_namespace (deployment_artifact p.range_releases p.kube)
            p.kube.deployments request)
          reads
          (λ d.
            saved p.kube.deployments configs stored ApiDeployment.deployment_finalizer
              (dashed (str "deployment") ns nm) ns nm (λ s. s.available) store_laws
              (reset_force_reconciliation p bosh_system_namespace d))
          (λ d w c.
            for_team-Safe p bosh_system_namespace (deployment_artifact p.range_releases p.kube)
              p.kube.deployments deployment_seen (fixed (Named ns nm)) request reads d w c.0 c.1
              c.2)
          w safe
