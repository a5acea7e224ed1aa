-- ===== src/Tests/Networks.antt =====
-- A network over `boshClientImpl`, with one AZ to refer to.
use boshv.Base.{false, not, ◌&&◌, ◌≡◌, refl, none, [], ◌∷◌, Str, str, join, pure}
use boshv.Api.Types.{Network, NetworkStatus}
use boshv.Api.Helpers.{contains_string}
use boshv.Api.Network.{network_finalizer}
use boshv.Kube.{Kube}
use boshv.Remote.BoshClient.{bosh_client_impl}
use boshv.Controllers.Artifacts.{network_artifact}
use boshv.Controllers.Bosh.{reconcile_with_bosh}
use boshv.Controllers.Bosh.Views.{is_some}
use boshv.Controllers.CloudKinds.Networks.{ReadsAzs, network_no_orphan}
use boshv.Tests.World.{
  World, configs, stored, director_api, director_api-KeepsConfigs, store, store-StoreLaws, meta,
  no_configs,
}
use boshv.Tests.Bosh.{raw_string, new_az}
use boshv.Tests.Controllers as Platforms

abbrev pub network : Network
network = record {
  metadata = meta (str "ns") (str "w") [];
  spec = record {
    type = str "manual";
    subnets =
        record {
          azs = str "z1" ∷ [];
          dns = [];
          gateway = str "10.0.0.1";
          range = str "10.0.0.0/24";
          reserved = [];
          static = [];
          cloud_properties = none;
        }
        ∷ [];
  };
  status = record {
    warning = [];
    original_spec = record { type = []; subnets = [] };
    available = false;
  };
}

abbrev start : World NetworkStatus
start = record { configs = no_configs; stored = ([], network.status); faults = 0 }

abbrev kube : Kube (World NetworkStatus) Str
kube = record Platforms.kube { azs = record Platforms.nothing { get = λ _ _. pure new_az } }

reads :
    ReadsAzs raw_string director_api kube store configs stored director_api-KeepsConfigs
      (str "ns")
      (str "w")
      store-StoreLaws
reads namespace name w = (refl, refl)

network_no_orphan_example :
    let w =
      (reconcile_with_bosh
        (network_artifact raw_string kube)
        store
        (bosh_client_impl director_api)
        network
        start).1 in
    (is_some (w.configs (str "network-ns-w")) && not (contains_string w.stored.0 network_finalizer))
    ≡ false
unfolding contains_string str join
network_no_orphan_example =
    network_no_orphan raw_string director_api kube store configs stored director_api-KeepsConfigs
      (str "ns") (str "w") store-StoreLaws reads network start (refl, refl) refl refl
