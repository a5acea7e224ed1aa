-- ===== src/Controllers/Deployments.antt =====
-- Deployments: the artifact of api/v1/deployment_types.go over `boshClientImpl`. Its references are
-- looked up before anything is written.
pub mod Reading
use boshv.Base.{
  Bool, true, false, not, ◌&&◌, ap, ◌≡◌, refl, ◌∙◌, Option, none, some, List, Str, str, Result, ok,
  err, Io, pure, lift, ◌>>=◌, arith,
}
use boshv.Base.Outcome.{Ensures, after_bind, weaken}
use boshv.Api.Types.{Deployment, DeploymentStatus, finalizers, set_status}
use boshv.Api.Helpers.{contains_string}
use boshv.Api.Helpers.Names.{dashed}
use boshv.Api.Deployment as ApiDeployment
use boshv.Api.Deployment.Manifest as Manifest
use boshv.Api.Deployment.Manifest.Jobs as Jobs
use boshv.Kube.{Kube, Store}
use boshv.Remote.Config
use boshv.Remote.BoshClient.{DirectorApi, bosh_client_impl}
use boshv.Remote.BoshClient.CloudConfigs.{Same, write}
use boshv.Remote.BoshClient.Deployments.{KeepsDeployments, Deployed, created, removed}
use boshv.Controllers.Bosh.{reconcile_with_bosh}
use boshv.Controllers.Bosh.Watching.{Faithful, fixed}
use boshv.Controllers.Bosh.Safety.{no_orphan}
use boshv.Controllers.Bosh.Views.{
  Stored, is_some, Named, StoreLaws, watch, stores, stores_status, deletes_config, contains-added,
  contains-removed,
}
use boshv.Controllers.Artifacts.{deployment_artifact}
use Reading.{ReadsKube, resolve_references-Reads}

module _ {W E : Type 0} (range_releases : List Config.Release → List Config.Release)
    (api : DirectorApi W E) (kube : Kube W E) (store : Store W E Deployment)
    (deployments : W → Str → Option Str) (stored : W → Stored DeploymentStatus)
    (deployment_laws : KeepsDeployments api deployments stored) (ns nm : Str)
    (store_laws : StoreLaws store deployments stored ns nm) where
  abbrev key : Str
  key = dashed (str "deployment") ns nm

  internal_name-key : (o : Deployment) → Named ns nm o → Jobs.internal_name o ≡ key
  unfolding Jobs.internal_name
  internal_name-key o m = cc (m.0, m.1)

  pub Same-trans :
      (w w' w'' : W)
      → Same api deployments stored w w'
      → Same api deployments stored w' w''
      → Same api deployments stored w w''
  Same-trans w w' w'' s t = (t.0 ∙ s.0, t.1 ∙ s.1)

  -- To look up an object changes neither the deployments nor what is stored of this one.
  abbrev pub ReadsOnly : Type 0
  ReadsOnly = ReadsKube kube (Same api deployments stored) (λ w. (refl, refl)) Same-trans

  abbrev guards : Stored DeploymentStatus → Bool
  guards s = contains_string s.0 ApiDeployment.deployment_finalizer

  abbrev guarded : W → Bool
  guarded w = guards (stored w)

  Created : W → Deployment → W → Type 0
  Created w o' w' =
      Named ns nm o'
      × (guarded w' ≡ guarded w)
      × (is_some (deployments w' key) ≡ true)
      × (o'.status.available ≡ true)

  -- What follows the lookups.
  abbrev written : Deployment → Config.Deployment → Io W E Deployment
  written o manifest = do
    _ ← (bosh_client_impl api).create_deployment (Jobs.internal_name o) manifest
    pure (set_status o (record o.status { available = true }))

  deployed : (c : Str → Option Str) (b : Str) → is_some (write c key (some b) key) ≡ true
  deployed c b = ground arith

  written-Created :
      (o : Deployment) (manifest : Config.Deployment) (w : W)
      → Named ns nm o
      → Ensures (Created w) (λ w'. guarded w' ≡ guarded w) (written o manifest w)
  unfolding Created
  written-Created o manifest w m =
      after_bind (λ _. Deployed api deployments stored deployment_laws w (Jobs.internal_name o))
        (Created w) (λ w'. stored w' ≡ stored w) (λ w'. guarded w' ≡ guarded w)
        ((bosh_client_impl api).create_deployment (Jobs.internal_name o) manifest)
        (λ _. pure (set_status o (record o.status { available = true }))) w
        (created api deployments stored deployment_laws (Jobs.internal_name o) manifest w)
        (λ w' s. ap guards s)
        (λ _ w' u. (
          m,
          ap guards u.1.1,
          ap (λ c. is_some (c key)) u.1.0
              ∙ ap (λ n. is_some (write (deployments w) n (some u.0) key)) (internal_name-key o m)
              ∙ deployed (deployments w) u.0,
          refl,
        ))

  module _ (reads : ReadsOnly) where
    pub deployment-Faithful :
        Faithful
          (deployment_artifact range_releases kube)
          store
          (bosh_client_impl api)
          (watch deployments stored ApiDeployment.deployment_finalizer key (λ s. s.available))
          (fixed (Named ns nm))
    unfolding ApiDeployment.ensure_finalizer ApiDeployment.ensure_no_finalizer
        ApiDeployment.prepare_to_save ApiDeployment.create_unless_exists
        ApiDeployment.delete_if_exists Created
    deployment-Faithful = record {
      updates =
          stores api store deployments stored ApiDeployment.deployment_finalizer key ns nm
            (λ s. s.available) store_laws;
      updates_status =
          stores_status api store deployments stored ApiDeployment.deployment_finalizer key ns nm
            (λ s. s.available) store_laws;
      creates = λ o w m.
          after_bind (λ _. Same api deployments stored w) (Created w)
            (Same api deployments stored w) (λ w'. guarded w' ≡ guarded w)
            (Manifest.resolve_references kube range_releases o) (written o) w
            (resolve_references-Reads kube (Same api deployments stored) (λ w. (refl, refl))
              Same-trans reads range_releases o w)
            (λ w' s. ap guards s.1)
            λ manifest w1 s.
              weaken _ (Created w) _ (λ w'. guarded w' ≡ guarded w) (written o manifest w1)
                (written-Created o manifest w1 m) (λ o' w' u. (u.0, u.1 ∙ ap guards s.1, u.2, u.3))
                (λ w' u. u ∙ ap guards s.1);
      deletes = λ o w m.
          deletes_config api store deployments stored ApiDeployment.deployment_finalizer key ns nm
            (λ s. s.available) o (Jobs.internal_name o)
            ((bosh_client_impl api).delete_deployment (Jobs.internal_name o)) w
            (internal_name-key o m) m
            (removed api deployments stored deployment_laws (Jobs.internal_name o) w);
      readies = λ o w m. m;
      settles = λ o w m e. m;
      dies = λ o w m dying. m;
      keeps = λ o w m. (m, m);
      ensures = λ o. contains-added (finalizers o) ApiDeployment.deployment_finalizer;
      ensures_report = λ o. refl;
      removes = λ o. contains-removed (finalizers o) ApiDeployment.deployment_finalizer;
      removes_report = λ o. refl;
      prepares = λ o. refl;
    }

    -- By `KeepsDeployments`, `StoreLaws` and `ReadsOnly`: reconciling the deployment of a namespace and
    -- name, as the API server holds it, leaves no deployment of its internal name in BOSH while the
    -- stored one has no finalizer, however it ends, a reference that is missing or a manifest that BOSH
    -- refuses included, if there was none before.
    pub deployment_no_orphan :
        (o : Deployment) (w : W)
        → Named ns nm o
        → contains_string (finalizers o) ApiDeployment.deployment_finalizer
          ≡ contains_string (stored w).0 ApiDeployment.deployment_finalizer
        → (is_some (deployments w key)
            && not (contains_string (stored w).0 ApiDeployment.deployment_finalizer))
          ≡ false
        → let w' =
            (reconcile_with_bosh
              (deployment_artifact range_releases kube)
              store
              (bosh_client_impl api)
              o
              w).1 in
          (is_some (deployments w' key)
            && not (contains_string (stored w').0 ApiDeployment.deployment_finalizer))
          ≡ false
    deployment_no_orphan o w m h safe =
        no_orphan (deployment_artifact range_releases kube) store (bosh_client_impl api)
          (watch deployments stored ApiDeployment.deployment_finalizer key (λ s. s.available))
          (fixed (Named ns nm)) deployment-Faithful o w m h safe
