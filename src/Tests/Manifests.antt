-- ===== src/Tests/Manifests.antt =====
-- A deployment over `boshClientImpl`, with objects to refer to.
use boshv.Base.{
  for_each, false, not, ◌&&◌, ◌≡◌, refl, none, some, [], ◌∷◌, Str, str, join, ok, pure,
}
use boshv.Base.Outcome.{Ensures}
use boshv.Api.Deployment.Manifest.{resolve_references}
use boshv.Api.Deployment.Manifest.Jobs.{internal_name}
use boshv.Api.Deployment.Manifest.References.{manifest_refers}
use boshv.Remote.Config
use boshv.Tests.Kinds.{extension}
use boshv.Api.Types.{Deployment, DeploymentStatus}
use boshv.Api.Helpers.{contains_string}
use boshv.Api.Deployment.{deployment_finalizer}
use boshv.Kube.{Kube}
use boshv.Remote.BoshClient.{DirectorApi, bosh_client_impl}
use boshv.Remote.BoshClient.CloudConfigs.{write}
use boshv.Remote.BoshClient.Deployments.{KeepsDeployments}
use boshv.Controllers.Artifacts.{deployment_artifact}
use boshv.Controllers.Bosh.{reconcile_with_bosh}
use boshv.Controllers.Bosh.Views.{is_some}
use boshv.Controllers.Deployments.{ReadsOnly, deployment_no_orphan}
use boshv.Tests.World.{
  World, configs, stored, director_api, store, store-StoreLaws, meta, no_configs,
}
use boshv.Tests.Bosh.{new_az}
use boshv.Tests.Names.{deployment, release, base_image}
use boshv.Tests.Deployments.{role, container}
use boshv.Tests.Networks.{network}
use boshv.Tests.Controllers as Platforms

-- The configs of the world stand for the deployments.
abbrev pub api : DirectorApi (World DeploymentStatus) Str
api = record director_api {
  find_deployment = λ name. pure (record {
    update = λ bytes w. (ok tt, record w { configs = write w.configs name (some bytes) });
    delete = λ _ w. (ok tt, record w { configs = write w.configs name none });
  });
}

pub law : KeepsDeployments api configs stored
law name w =
    (record { updates = λ bytes w. (refl, refl); deletes = λ force w. (refl, refl) }, (refl, refl))

abbrev pub kube : Kube (World DeploymentStatus) Str
kube = record Platforms.kube {
  azs = record Platforms.nothing { get = λ _ _. pure new_az };
  networks = record Platforms.nothing { get = λ _ _. pure network };
  releases = record Platforms.nothing { get = λ _ _. pure release };
  base_images = record Platforms.nothing { get = λ _ _. pure base_image };
  roles = record Platforms.nothing { get = λ _ _. pure role };
}

abbrev pub with_container : Deployment
with_container = record deployment { spec = record deployment.spec { containers = container ∷ [] } }

abbrev pub start : World DeploymentStatus
start = record { configs = no_configs; stored = ([], deployment.status); faults = 0 }

reads : ReadsOnly (λ rs. rs) api kube store configs stored law (str "ns") (str "d") store-StoreLaws
reads = record {
  azs = λ _ _ w. (refl, refl);
  extensions = λ _ _ w. (refl, refl);
  networks = λ _ _ w. (refl, refl);
  releases = λ _ _ w. (refl, refl);
  base_images = λ _ _ w. (refl, refl);
  roles = λ _ _ w. (refl, refl);
  deployments = λ _ _ w. (refl, refl);
}

deployment_no_orphan_example :
    let w =
      (reconcile_with_bosh
        (deployment_artifact (λ rs. rs) kube)
        store
        (bosh_client_impl api)
        with_container
        start).1 in
    (is_some (w.configs (str "deployment-ns-d"))
      && not (contains_string w.stored.0 deployment_finalizer))
    ≡ false
unfolding contains_string str join
deployment_no_orphan_example =
    deployment_no_orphan (λ rs. rs) api kube store configs stored law (str "ns") (str "d")
      store-StoreLaws reads with_container start (refl, refl) refl refl

-- Every AZ, extension and network that is asked for is there.
abbrev stocked : Kube (World DeploymentStatus) Str
stocked = record kube {
  azs = record Platforms.nothing {
    get = λ ns nm. pure (record new_az { metadata = meta ns nm [] });
  };
  extensions = record Platforms.nothing {
    get = λ ns nm. pure (record extension { metadata = meta ns nm [] });
  };
  networks = record Platforms.nothing {
    get = λ ns nm. pure (record network { metadata = meta ns nm [] });
  };
}

manifest_refers_example :
    Ensures
      (λ m _.
        (m.name ≡ str "deployment-ns-d")
        × (ig : Config.InstanceGroup) × (m.instance_groups ≡ ig ∷ [])
        × (ig.azs ≡ str "az-ns-z1" ∷ [])
        × (ig.vm_extensions ≡ [])
        × (ig.networks ≡ record { name = str "network-ns-n" } ∷ []))
      (λ _. Unit)
      (resolve_references stocked (λ rs. rs) with_container start)
unfolding str join internal_name
manifest_refers_example =
    manifest_refers stocked (λ ns nm w. (refl, refl)) (λ ns nm w. (refl, refl))
      (λ ns nm w. (refl, refl)) with_container (λ rs. rs) start

-- It does resolve.
resolves :
    (m : Config.Deployment) × ((resolve_references stocked (λ rs. rs) with_container start).0
      ≡ ok m)
unfolding resolve_references for_each
resolves = (_, refl)
