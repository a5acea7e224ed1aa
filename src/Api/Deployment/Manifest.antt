-- ===== src/Api/Deployment/Manifest.antt =====
-- `resolveReferences` of api/v1/deployment_types.go, with what it calls: the names in a deployment's
-- spec are looked up in its namespace and become a BOSH manifest.
pub mod Jobs
pub mod Releases
pub mod Steps
pub mod References
pub mod Links
pub mod Coverage
use boshv.Base.{[], ◌∷◌, List, Str, str, join, false, Io, pure, ◌>>=◌, for_each, ite}
use boshv.Base.Int.{pos}
use boshv.Api.Types.{Deployment, Container, name, namespace}
use boshv.Api.Az
use boshv.Api.Extension
use boshv.Api.Network
use boshv.Api.Deployment.Totals.{
  ram, cpu, ephemeral_disk_size, persistent_disk_size, max_unavailable, watch_time, vm_strategy,
}
use boshv.Kube.{Kube}
use boshv.Remote.Config
use Jobs.{internal_name, release_of, resolve_job}
pub use Jobs.{internal_name}

abbrev pub stemcell_alias : Str
stemcell_alias = str "stemcell"

-- `uniqueReleases[r] = struct{}{}`: the keys of the map, in the order in which they came in.
unfoldable pub add_release : Config.Release → List Config.Release → List Config.Release
add_release r [] = r ∷ []
add_release r (s ∷ rs) = ite (Config.Release-discrete r s) (s ∷ rs) (s ∷ add_release r rs)

module _ {W E : Type 0} (c : Kube W E) where
  -- The loop over the containers, with the set of the releases met so far.
  unfoldable pub collect_releases :
      Deployment → List Config.Release → List Container → Io W E (List Config.Release)
  unfolding add_release release_of
  collect_releases d unique [] = pure unique
  collect_releases d unique (container ∷ rest) = do
    (_, release) ← release_of c d container
    collect_releases d
        (add_release
          (record {
            name = release.status.original_spec.release_name;
            version = release.status.original_spec.version;
          })
          unique)
        rest

  unfoldable pub releases :
      (List Config.Release → List Config.Release) → Deployment → Io W E (List Config.Release)
  unfolding collect_releases
  releases range_releases d = do
    unique ← collect_releases d [] d.spec.containers
    pure (range_releases unique)

  unfoldable pub stemcell : Deployment → Io W E Config.Stemcell
  stemcell d = do
    base_image ← c.base_images.get (namespace d) d.spec.base_image
    pure (record {
      alias = stemcell_alias;
      name = base_image.status.original_spec.base_image_name;
      version = base_image.status.original_spec.version;
    })

  unfoldable pub resolve_az : Deployment → Str → Io W E Str
  resolve_az d az_name = do az ← c.azs.get (namespace d) az_name; pure (Az.internal_name az)

  unfoldable pub resolve_extension : Deployment → Str → Io W E Str
  resolve_extension d extension_name = do
    extension ← c.extensions.get (namespace d) extension_name
    pure (Extension.internal_name extension)

  unfoldable pub instance_group : Deployment → Io W E Config.InstanceGroup
  unfolding resolve_az resolve_job resolve_extension
  instance_group d = do
    azs ← for_each (resolve_az d) d.spec.azs
    jobs ← for_each (resolve_job c d) d.spec.containers
    vm_extensions ← for_each (resolve_extension d) d.spec.extensions
    network ← c.networks.get (namespace d) d.spec.network
    pure (record {
      name = internal_name d;
      azs = azs;
      instances = d.spec.replicas;
      jobs = jobs;
      vm_extensions = vm_extensions;
      vm_resources = record {
        cpu = cpu d;
        ram = ram d;
        ephemeral_disk_size = ephemeral_disk_size d;
      };
      stemcell = stemcell_alias;
      persistent_disk_size = persistent_disk_size d;
      networks = record { name = Network.internal_name network } ∷ [];
    })

  unfoldable pub resolve_references :
      (List Config.Release → List Config.Release) → Deployment → Io W E Config.Deployment
  unfolding releases stemcell instance_group
  resolve_references range_releases d = do
    rs ← releases range_releases d
    s ← stemcell d
    ig ← instance_group d
    pure (record {
      name = internal_name d;
      update = record {
        canaries = pos 0;
        max_in_flight = max_unavailable d;
        canary_watch_time = watch_time d;
        update_watch_time = watch_time d;
        serial = false;
        vm_strategy = vm_strategy d;
      };
      releases = rs;
      stemcells = s ∷ [];
      instance_groups = ig ∷ [];
    })
