-- ===== src/Tests/Names.antt =====
-- Names in BOSH and UAA, and finalizers, at small objects of every kind.
use boshv.Base.{false, ◌≡◌, ◌≢◌, refl, inl, [], ◌∷◌, str, arith}
use boshv.Base.Int.{pos}
use boshv.Api.Types.{Network, Release, BaseImage, Deployment, Director, name, namespace}
use boshv.Api.Helpers.Finalizers.{Lifecycle}
use boshv.Api.InternalNames.{
  placed, internal_name_scope, internal_name_injective, client_name_injective,
}
use boshv.Api.FinalizerLaws.{finalizer-Lifecycle}
use boshv.Api.Az as ApiAz
use boshv.Api.Extension as ApiExtension
use boshv.Api.Network as ApiNetwork
use boshv.Api.Compilation as ApiCompilation
use boshv.Api.Release as ApiRelease
use boshv.Api.BaseImage as ApiBaseImage
use boshv.Api.Deployment as ApiDeployment
use boshv.Api.Deployment.Manifest.Jobs as ApiJobs
use boshv.Api.Team as ApiTeam
use boshv.Api.Director as ApiDirector
use boshv.Tests.World.{meta}
use boshv.Tests.Bosh.{new_az as az}
use boshv.Tests.Kinds.{extension, compilation}
use boshv.Tests.Uaa.{team}

abbrev network : Network
network = record {
  metadata = meta (str "ns") (str "n") [];
  spec = record { type = str "dynamic"; subnets = [] };
  status = record {
    warning = [];
    original_spec = record { type = []; subnets = [] };
    available = false;
  };
}

abbrev pub release : Release
release = record {
  metadata = meta (str "ns") (str "r") [];
  spec = record {
    release_name = str "zookeeper";
    version = str "0.0.9";
    url = str "https://r";
    sha1 = str "f4";
  };
  status = record {
    warning = [];
    original_spec = record { release_name = []; version = []; url = []; sha1 = [] };
    available = false;
  };
}

abbrev pub base_image : BaseImage
base_image = record {
  metadata = meta (str "ns") (str "b") [];
  spec = record {
    base_image_name = str "xenial";
    version = str "315.41";
    url = str "https://b";
    sha1 = str "f5";
  };
  status = record {
    warning = [];
    original_spec = record { base_image_name = []; version = []; url = []; sha1 = [] };
    available = false;
  };
}

abbrev pub deployment : Deployment
deployment = record {
  metadata = meta (str "ns") (str "d") [];
  spec = record {
    azs = str "z1" ∷ [];
    replicas = pos 3;
    containers = [];
    extensions = [];
    base_image = str "b";
    network = str "n";
    update_strategy = record {
      min_ready_seconds = pos 5;
      max_ready_seconds = pos 60;
      max_unavailable_percent = [];
      max_unavailable_replicas = pos 1;
      type = str "serial";
    };
    force_reconciliation = false;
  };
  status = record { available = false };
}

abbrev pub director : Director
director = record {
  metadata = meta (str "system") (str "d") [];
  spec = record {
    url = str "https://10.0.0.6";
    ca_cert = str "cert";
    uaa_url = str "https://10.0.0.6:8443";
    uaa_ca_cert = str "cert";
    uaa_client = str "admin";
    uaa_client_secret = str "secret";
  };
  status = tt;
}

internal_name_scope_example :
    ((ApiAz.internal_name (placed az (str "a-b") (str "c"))
        ≡ ApiAz.internal_name (placed az (str "a") (str "b-c")))
      × (ApiExtension.internal_name (placed extension (str "a-b") (str "c"))
          ≡ ApiExtension.internal_name (placed extension (str "a") (str "b-c")))
      × (ApiNetwork.internal_name (placed network (str "a-b") (str "c"))
          ≡ ApiNetwork.internal_name (placed network (str "a") (str "b-c")))
      × (ApiCompilation.internal_name (placed compilation (str "a-b") (str "c"))
          ≡ ApiCompilation.internal_name (placed compilation (str "a") (str "b-c")))
      × (ApiJobs.internal_name (placed deployment (str "a-b") (str "c"))
          ≡ ApiJobs.internal_name (placed deployment (str "a") (str "b-c"))))
    × (ApiAz.internal_name az ≢ ApiExtension.internal_name extension)
    × (ApiAz.internal_name az ≢ ApiNetwork.internal_name network)
    × (ApiAz.internal_name az ≢ ApiCompilation.internal_name compilation)
    × (ApiExtension.internal_name extension ≢ ApiNetwork.internal_name network)
    × (ApiExtension.internal_name extension ≢ ApiCompilation.internal_name compilation)
    × (ApiNetwork.internal_name network ≢ ApiCompilation.internal_name compilation)
unfolding str
internal_name_scope_example =
    internal_name_scope az extension network compilation deployment (str "a") (str "b") (str "c")

internal_name_injective_example : (str "ns" ≡ str "ns") × (str "z-1" ≡ str "z-1")
unfolding str
internal_name_injective_example =
    internal_name_injective az az extension extension network network compilation compilation
      deployment deployment (str "ns") (str "z-1") (str "ns") (str "z-1") (ground arith)
      (ground arith) (inl refl)

client_name_injective_example : (name team ≡ name team) × (namespace team ≡ namespace team)
unfolding str
client_name_injective_example =
    client_name_injective team team (ground arith) (ground arith) (ground arith) (ground arith)
      (ground arith) (ground arith) refl

finalizer-Lifecycle_example :
    Lifecycle ApiAz.az_finalizer ApiAz.ensure_finalizer ApiAz.ensure_no_finalizer az (str "g")
    × Lifecycle ApiExtension.extension_finalizer ApiExtension.ensure_finalizer
        ApiExtension.ensure_no_finalizer extension
        (str "g")
    × Lifecycle ApiNetwork.network_finalizer ApiNetwork.ensure_finalizer
        ApiNetwork.ensure_no_finalizer network
        (str "g")
    × Lifecycle ApiCompilation.compilation_finalizer ApiCompilation.ensure_finalizer
        ApiCompilation.ensure_no_finalizer compilation
        (str "g")
    × Lifecycle ApiRelease.release_finalizer ApiRelease.ensure_finalizer
        ApiRelease.ensure_no_finalizer release
        (str "g")
    × Lifecycle ApiBaseImage.base_image_finalizer ApiBaseImage.ensure_finalizer
        ApiBaseImage.ensure_no_finalizer base_image
        (str "g")
    × Lifecycle ApiDeployment.deployment_finalizer ApiDeployment.ensure_finalizer
        ApiDeployment.ensure_no_finalizer deployment
        (str "g")
    × Lifecycle ApiTeam.team_finalizer ApiTeam.ensure_finalizer ApiTeam.ensure_no_finalizer team
        (str "g")
    × Lifecycle ApiDirector.director_finalizer ApiDirector.ensure_finalizer
        ApiDirector.ensure_no_finalizer director
        (str "g")
finalizer-Lifecycle_example =
    finalizer-Lifecycle az extension network compilation release base_image deployment team director
      (str "g")
