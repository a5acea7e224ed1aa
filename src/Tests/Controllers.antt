-- ===== src/Tests/Controllers.antt =====
-- Whole runs of the controllers on a platform in memory.
use boshv.Base.{
  false, not, ◌&&◌, ◌≡◌, refl, none, [], ◌∷◌, List, Str, str, str_discrete, join, ◌==◌, ok, err,
  raise, pure,
}
use boshv.Api.Types.{Az, AzStatus, Object, set_finalizers}
use boshv.Api.Helpers.{contains_string}
use boshv.Controllers.Bosh.Watching.{Faithful, fixed}
use boshv.Controllers.Bosh.Views.{StoreLaws}
use boshv.Controllers.CloudKinds.Azs.{az-Faithful}
use boshv.Kube.{Kube, Store, Errors}
use boshv.Remote.BoshClient.{BoshLibrary, bosh_client_impl}
use boshv.Remote.UaaClient.{UaaLibrary}
use boshv.Controllers.Platform.{Platform, Request}
use boshv.Controllers.Reconcilers.{
  fetched, reconcile_for_team, reconcile_az, reconcile_extension, reconcile_network,
  reconcile_release, reconcile_base_image, reconcile_deployment, reconcile_compilation,
  reconcile_team, reconcile_director,
}
use boshv.Controllers.Reconcilers.Requests.{lookup_failures}
use boshv.Controllers.Reconcilers.Safety.{Reads, controller_no_orphan}
use boshv.Tests.World.{Site, World, configs, stored, store, director_api, director_api-KeepsConfigs}
use boshv.Tests.Bosh.{raw_string, new_az, artifact, view, Mine, start}
use boshv.Tests.Names.{director}
use boshv.Tests.Uaa.{team}

abbrev pub not_found : Str
not_found = str "not found"

abbrev pub errors : Errors Str
errors = record {
  new_error = λ s. s;
  is_not_found = λ e. e == not_found;
  is_gone = λ e. false;
  is_already_exists = λ e. false;
}

abbrev pub az_store : Store (World AzStatus) Str Az
az_store = record store {
  get = λ _ _ w. (ok (set_finalizers (record new_az { status = w.stored.1 }) w.stored.0), w);
}

module _ {W : Type 0} where
  abbrev pub nothing : {S T : Type 0} → Store W Str (Object S T)
  nothing = record {
    get = λ _ _. raise not_found;
    create = λ o. pure o;
    update = λ o. pure o;
    update_status = λ o. pure o;
    delete = λ _. pure tt;
  }

  abbrev pub kube : Kube W Str
  kube = record {
    azs = nothing;
    extensions = nothing;
    networks = nothing;
    compilations = nothing;
    releases = nothing;
    base_images = nothing;
    roles = nothing;
    deployments = nothing;
    teams = nothing;
    directors = nothing;
    secrets = record {
      get =
          λ namespace name. pure (record { name = name; namespace = namespace; secret = str "s" });
      create = λ s. pure s;
      delete = λ _ _. pure tt;
    };
    list_teams = λ _. pure (team ∷ []);
  }

  abbrev pub uaa_library : UaaLibrary W Str
  uaa_library = record {
    TargetUrl = Str;
    CertPool = List Str;
    Api = Str;
    system_cert_pool = λ _. none;
    new_cert_pool = [];
    append_certs = λ pool cert. cert ∷ pool;
    build_target_url = λ url. pure url;
    with_credentials = λ url _ _ _. url;
    validate = λ _. raise (str "no UAA");
  }

abbrev pub bosh_library : {V : Type 0} → BoshLibrary (Site V) Str
bosh_library = record {
  UaaConfig = Str;
  Uaa = Str;
  DirectorConfig = Str;
  uaa_config_from_url = λ url. pure url;
  set_uaa_config = λ c _ _ _. c;
  new_uaa = λ c. pure c;
  director_config_from_url = λ url. pure url;
  set_director_config = λ c _ _. c;
  new_director = λ _. pure director_api;
}

abbrev pub platform : {V : Type 0} → Kube (Site V) Str → Platform (Site V) Str
platform k = record {
  kube = k;
  errors = errors;
  bosh = bosh_library;
  uaa = uaa_library;
  rand_read = λ _. pure [];
  raw_string = raw_string;
  range_releases = λ rs. rs;
}

abbrev pub az_kube : Kube (World AzStatus) Str
az_kube = record kube { azs = az_store; directors = record nothing { get = λ _ _. pure director } }

abbrev pub request : Request
request = record { namespace = str "ns"; name = str "z1" }

az_store-StoreLaws : {ns nm : Str} → StoreLaws az_store configs stored ns nm
az_store-StoreLaws = record {
  updates = λ _ _ m. (m, refl, refl, refl);
  updates_status = λ _ _ m. (m, refl, refl, refl);
}

law : Faithful artifact az_store (bosh_client_impl director_api) view (fixed Mine)
unfolding str join
law =
    az-Faithful raw_string director_api az_store configs stored director_api-KeepsConfigs (str "ns")
      (str "z1") az_store-StoreLaws

reads : Reads (platform az_kube) (str "system") artifact az_store view (fixed Mine) request
unfolding contains_string
reads = record {
  gets = λ w. (((refl, refl), refl), (refl, refl, λ o m. m));
  lists_teams = λ _ w. (tt, (refl, refl, λ o m. m));
  gets_secret = λ _ _ w. (tt, (refl, refl, λ o m. m));
  gets_director = λ _ _ w. (tt, (refl, refl, λ o m. m));
  parses_uaa = λ _ w. (tt, (refl, refl, λ o m. m));
  makes_uaa = λ _ w. (tt, (refl, refl, λ o m. m));
  parses_director = λ _ w. (tt, (refl, refl, λ o m. m));
  makes_director = λ _ w. (law, (refl, refl, λ o m. m));
}

controller_no_orphan_example :
    let w =
      (fetched
        (platform az_kube)
        (str "system")
        az_store
        request
        (reconcile_for_team (platform az_kube) (str "system") artifact az_store request)
        start).1 in
    (view.exists w && not (view.guarded w)) ≡ false
unfolding str str_discrete join contains_string
controller_no_orphan_example =
    controller_no_orphan (platform az_kube) (str "system") artifact az_store view (fixed Mine)
      request reads start refl

lookup_failures_example :
    let p = platform kube in
    (reconcile_az p (str "system") request start ≡ (ok tt, start))
    × (reconcile_extension p (str "system") request start ≡ (ok tt, start))
    × (reconcile_network p (str "system") request start ≡ (ok tt, start))
    × (reconcile_release p (str "system") request start ≡ (ok tt, start))
    × (reconcile_base_image p (str "system") request start ≡ (ok tt, start))
    × (reconcile_deployment p (str "system") request start ≡ (ok tt, start))
    × (reconcile_team p (str "system") request start ≡ (ok tt, start))
    × (reconcile_compilation p (str "system") request start
        ≡ (err (str "cannot create compilation outside BOSH system namespace"), start))
    × (reconcile_director p (str "system") request start
        ≡ (err (str "cannot create director outside BOSH system namespace"), start))
unfolding str str_discrete
lookup_failures_example = lookup_failures (platform kube) (str "system") request start
