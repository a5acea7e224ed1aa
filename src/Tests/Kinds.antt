-- ===== src/Tests/Kinds.antt =====
-- An extension and a compilation over `boshClientImpl`, and the client's own calls.
use boshv.Base.{false, not, ◌&&◌, ◌≡◌, refl, none, some, [], ◌∷◌, Str, str, join}
use boshv.Base.Int.{pos}
use boshv.Base.Outcome.{Ensures}
use boshv.Api.Types.{Extension, ExtensionStatus, Compilation, CompilationStatus, RawPtr}
use boshv.Api.Helpers.{contains_string}
use boshv.Api.Extension.{extension_finalizer}
use boshv.Api.Compilation.{compilation_finalizer}
use boshv.Remote.Config
use boshv.Remote.BoshClient.{bosh_client_impl, empty_config}
use boshv.Remote.BoshClient.CloudConfigs.{Holds, Same, Becomes, client_configs}
use boshv.Controllers.Artifacts.{extension_artifact, compilation_artifact}
use boshv.Controllers.Bosh.{reconcile_with_bosh}
use boshv.Controllers.Bosh.Views.{is_some}
use boshv.Controllers.CloudKinds.Extensions.{extension_no_orphan}
use boshv.Controllers.CloudKinds.Compilations.{compilation_no_orphan}
use boshv.Tests.World.{
  World, configs, stored, director_api, director_api-KeepsConfigs, store, store-StoreLaws, meta,
  no_configs,
}

abbrev raw_string : RawPtr → Str
raw_string none = str "nil"
raw_string (some r) = r.raw

abbrev pub extension : Extension
extension = record {
  metadata = meta (str "ns") (str "x") [];
  spec = record { cloud_properties = some (record { raw = str "{}" }) };
  status = record { warning = []; original_cloud_properties = none; available = false };
}

abbrev no_extension : World ExtensionStatus
no_extension = record { configs = no_configs; stored = ([], extension.status); faults = 0 }

extension_no_orphan_example :
    let w =
      (reconcile_with_bosh
        (extension_artifact raw_string)
        store
        (bosh_client_impl director_api)
        extension
        no_extension).1 in
    (is_some (w.configs (str "extension-ns-x"))
      && not (contains_string w.stored.0 extension_finalizer))
    ≡ false
unfolding contains_string str join
extension_no_orphan_example =
    extension_no_orphan raw_string director_api store configs stored director_api-KeepsConfigs
      (str "ns") (str "x") store-StoreLaws extension no_extension (refl, refl) refl refl

abbrev pub compilation : Compilation
compilation = record {
  metadata = meta (str "system") (str "k") [];
  spec = record {
    replicas = pos 2;
    az_cloud_properties = none;
    cpu = pos 1;
    ram = pos 1024;
    ephemeral_disk_size = pos 1000;
    cloud_properties = none;
    network_type = str "manual";
    subnet_range = str "10.0.0.0/24";
    subnet_gateway = str "10.0.0.1";
    subnet_dns = str "8.8.8.8" ∷ [];
    subnet_reserved = [];
    subnet_cloud_properties = none;
    director = str "d";
  };
  status = record { warning = []; original_director = []; available = false };
}

abbrev no_compilation : World CompilationStatus
no_compilation = record { configs = no_configs; stored = ([], compilation.status); faults = 0 }

compilation_no_orphan_example :
    let w =
      (reconcile_with_bosh compilation_artifact store
        (bosh_client_impl director_api)
        compilation
        no_compilation).1 in
    (is_some (w.configs (str "compilation-system-k"))
      && not (contains_string w.stored.0 compilation_finalizer))
    ≡ false
unfolding contains_string str join
compilation_no_orphan_example =
    compilation_no_orphan director_api store configs stored director_api-KeepsConfigs (str "system")
      (str "k") store-StoreLaws compilation no_compilation (refl, refl) refl refl

abbrev az : Config.Az
az = record { name = str "n"; cloud_properties = none }

abbrev vm_extension : Config.VmExtension
vm_extension = record { name = str "n"; cloud_properties = none }

abbrev network : Config.Network
network = record { name = str "n"; type = str "dynamic"; subnets = [] }

abbrev workers : Config.Compilation
workers = record {
  workers = pos 2;
  az = str "n";
  orphan_workers = false;
  vm_resources = record { cpu = pos 1; ram = pos 1024; ephemeral_disk_size = pos 1000 };
  cloud_properties = none;
  network = str "n";
  reuse_compilation_vms = false;
}

client_configs_example :
    let bc = bosh_client_impl director_api in
    let holds = Holds director_api configs stored no_extension (str "n") in
    let same = Same director_api configs stored no_extension in
    let gone = Becomes director_api configs stored no_extension (str "n") none in
    Ensures
      (λ _. holds (record empty_config { azs = az ∷ [] }))
      same
      (bc.create_az (str "n") az no_extension)
    × Ensures
        (λ _. holds (record empty_config { vm_extensions = vm_extension ∷ [] }))
        same
        (bc.create_vm_extension (str "n") vm_extension no_extension)
    × Ensures
        (λ _. holds (record empty_config { networks = network ∷ [] }))
        same
        (bc.create_network (str "n") network no_extension)
    × Ensures
        (λ _. holds (record empty_config {
          networks = network ∷ [];
          azs = az ∷ [];
          compilation = some workers;
        }))
        same
        (bc.create_compilation (str "n") network az workers no_extension)
    × Ensures (λ _. gone) same (bc.delete_az (str "n") no_extension)
    × Ensures (λ _. gone) same (bc.delete_vm_extension (str "n") no_extension)
    × Ensures (λ _. gone) same (bc.delete_network (str "n") no_extension)
    × Ensures (λ _. gone) same (bc.delete_compilation (str "n") no_extension)
client_configs_example =
    client_configs director_api configs stored director_api-KeepsConfigs (str "n") az vm_extension
      network workers no_extension
