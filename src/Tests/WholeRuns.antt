-- ===== src/Tests/WholeRuns.antt =====
-- Whole runs of the controllers of deployments and compilations.
use boshv.Base.{true, false, not, ◌&&◌, ◌≡◌, refl, [], Str, str, join, ok, pure}
use boshv.Api.Types.{Deployment, DeploymentStatus, Compilation, CompilationStatus, set_finalizers}
use boshv.Api.Helpers.{contains_string}
use boshv.Api.Deployment.{deployment_finalizer}
use boshv.Api.Compilation.{compilation_finalizer}
use boshv.Kube.{Kube, Store}
use boshv.Remote.BoshClient.{BoshLibrary}
use boshv.Controllers.Platform.{Platform}
use boshv.Controllers.Bosh.Watching.{fixed}
use boshv.Controllers.Bosh.Views.{Named, StoreLaws, is_some, watch}
use boshv.Controllers.Artifacts.{deployment_artifact, compilation_artifact}
use boshv.Controllers.Deployments.{ReadsOnly, deployment-Faithful}
use boshv.Controllers.CloudKinds.Compilations.{compilation-Faithful}
use boshv.Controllers.Reconcilers.{reconcile_deployment, reconcile_compilation}
use boshv.Controllers.Reconcilers.Safety.{Reads}
use boshv.Controllers.Reconcilers.Deploying.{deployment_run_no_orphan}
use boshv.Controllers.Reconcilers.Compiling.{compilation_run_no_orphan}
use boshv.Tests.World.{
  World, configs, stored, director_api, director_api-KeepsConfigs, store, no_configs,
}
use boshv.Tests.Names.{director}
use boshv.Tests.Uaa.{team}
use boshv.Tests.Kinds.{compilation}
use boshv.Tests.Manifests.{api, law, with_container, start}
use boshv.Tests.Manifests as Manifests
use boshv.Tests.Controllers.{platform, bosh_library, nothing}
use boshv.Tests.Controllers as Platforms

-- The force is on at first.
abbrev forced : Deployment
forced = record with_container { spec = record with_container.spec { force_reconciliation = true } }

abbrev deployments : Store (World DeploymentStatus) Str Deployment
deployments = record store {
  get = λ _ _ w. (ok (set_finalizers (record forced { status = w.stored.1 }) w.stored.0), w);
}

abbrev deployment_kube : Kube (World DeploymentStatus) Str
deployment_kube = record Manifests.kube {
  deployments = deployments;
  directors = record nothing { get = λ _ _. pure director };
}

abbrev deployment_library : BoshLibrary (World DeploymentStatus) Str
deployment_library = record {
  UaaConfig = Str;
  Uaa = Str;
  DirectorConfig = Str;
  uaa_config_from_url = λ url. pure url;
  set_uaa_config = λ c _ _ _. c;
  new_uaa = λ c. pure c;
  director_config_from_url = λ url. pure url;
  set_director_config = λ c _ _. c;
  new_director = λ _. pure api;
}

abbrev deployment_platform : Platform (World DeploymentStatus) Str
deployment_platform = record (platform deployment_kube) { bosh = deployment_library }

deployments-StoreLaws : StoreLaws deployments configs stored (str "ns") (str "d")
deployments-StoreLaws = record {
  updates = λ _ _ m. (m, refl, refl, refl);
  updates_status = λ _ _ m. (m, refl, refl, refl);
}

looks_up :
    ReadsOnly
      (λ rs. rs)
      api
      deployment_kube
      deployments
      configs
      stored
      law
      (str "ns")
      (str "d")
      deployments-StoreLaws
looks_up = record {
  azs = λ _ _ w. (refl, refl);
  extensions = λ _ _ w. (refl, refl);
  networks = λ _ _ w. (refl, refl);
  releases = λ _ _ w. (refl, refl);
  base_images = λ _ _ w. (refl, refl);
  roles = λ _ _ w. (refl, refl);
  deployments = λ _ _ w. (refl, refl);
}

deployment_reads :
    Reads deployment_platform
      (str "system")
      (deployment_artifact (λ rs. rs) deployment_kube)
      deployments
      (watch configs stored deployment_finalizer (str "deployment-ns-d") (λ s. s.available))
      (fixed (Named (str "ns") (str "d")))
      (record { namespace = str "ns"; name = str "d" })
unfolding contains_string str join
deployment_reads = record {
  gets = λ w. (((refl, refl), refl), (refl, refl, λ o m. m));
  lists_teams = λ _ w. (tt, (refl, refl, λ o m. m));
  gets_secret = λ _ _ w. (tt, (refl, refl, λ o m. m));
  gets_director = λ _ _ w. (tt, (refl, refl, λ o m. m));
  parses_uaa = λ _ w. (tt, (refl, refl, λ o m. m));
  makes_uaa = λ _ w. (tt, (refl, refl, λ o m. m));
  parses_director = λ _ w. (tt, (refl, refl, λ o m. m));
  makes_director = λ _ w. (
    deployment-Faithful (λ rs. rs) api deployment_kube deployments configs stored law (str "ns")
        (str "d") deployments-StoreLaws looks_up,
    (refl, refl, λ o m. m),
  );
}

deployment_run_no_orphan_example :
    let w =
      (reconcile_deployment deployment_platform
        (str "system")
        (record { namespace = str "ns"; name = str "d" })
        start).1 in
    (is_some (w.configs (str "deployment-ns-d"))
      && not (contains_string w.stored.0 deployment_finalizer))
    ≡ false
unfolding contains_string str join
deployment_run_no_orphan_example =
    deployment_run_no_orphan deployment_platform (str "system") configs (str "ns") (str "d") stored
      deployments-StoreLaws deployment_reads start refl

abbrev compilations : Store (World CompilationStatus) Str Compilation
compilations = record store {
  get = λ _ _ w. (ok (set_finalizers (record compilation { status = w.stored.1 }) w.stored.0), w);
}

abbrev compilation_platform : Platform (World CompilationStatus) Str
compilation_platform = platform (record Platforms.kube {
  compilations = compilations;
  directors = record nothing { get = λ _ _. pure director };
  teams = record nothing { get = λ _ _. pure team };
})

compilations-StoreLaws : StoreLaws compilations configs stored (str "system") (str "k")
compilations-StoreLaws = record {
  updates = λ _ _ m. (m, refl, refl, refl);
  updates_status = λ _ _ m. (m, refl, refl, refl);
}

compilation_reads :
    Reads compilation_platform
      (str "system")
      compilation_artifact
      compilations
      (watch configs stored compilation_finalizer (str "compilation-system-k") (λ s. s.available))
      (fixed (Named (str "system") (str "k")))
      (record { namespace = str "system"; name = str "k" })
unfolding contains_string str join
compilation_reads = record {
  gets = λ w. (((refl, refl), refl), (refl, refl, λ o m. m));
  lists_teams = λ _ w. (tt, (refl, refl, λ o m. m));
  gets_secret = λ _ _ w. (tt, (refl, refl, λ o m. m));
  gets_director = λ _ _ w. (tt, (refl, refl, λ o m. m));
  parses_uaa = λ _ w. (tt, (refl, refl, λ o m. m));
  makes_uaa = λ _ w. (tt, (refl, refl, λ o m. m));
  parses_director = λ _ w. (tt, (refl, refl, λ o m. m));
  makes_director = λ _ w. (
    compilation-Faithful director_api compilations configs stored director_api-KeepsConfigs
        (str "system") (str "k") compilations-StoreLaws,
    (refl, refl, λ o m. m),
  );
}

abbrev bare : World CompilationStatus
bare = record { configs = no_configs; stored = ([], compilation.status); faults = 0 }

compilation_run_no_orphan_example :
    let w =
      (reconcile_compilation compilation_platform
        (str "system")
        (record { namespace = str "system"; name = str "k" })
        bare).1 in
    (is_some (w.configs (str "compilation-system-k"))
      && not (contains_string w.stored.0 compilation_finalizer))
    ≡ false
unfolding contains_string str join
compilation_run_no_orphan_example =
    compilation_run_no_orphan compilation_platform (str "system") configs (str "system") (str "k")
      stored compilations-StoreLaws compilation_reads (λ _ _ w. (tt, (refl, refl, λ o m. m))) bare
      refl
