-- ===== src/Api/Deployment/Manifest/Steps.antt =====
-- The rest of `resolveReferences` and of `instanceGroup` of api/v1/deployment_types.go after each
-- lookup.
use boshv.Base.{false, List, [], ◌∷◌, Str, Io, pure, ◌>>=◌, for_each}
use boshv.Base.Int.{pos}
use boshv.Api.Types.{Deployment, namespace}
use boshv.Api.Network as ApiNetwork
use boshv.Api.Deployment.Totals.{
  ram, cpu, ephemeral_disk_size, persistent_disk_size, max_unavailable, watch_time, vm_strategy,
}
use boshv.Api.Deployment.Manifest.{stemcell, resolve_extension, instance_group, stemcell_alias}
use boshv.Api.Deployment.Manifest.Jobs.{internal_name, resolve_job}
use boshv.Kube.{Kube}
use boshv.Remote.Config

-- The instance group and the manifest, of what has been looked up.
abbrev pub group : Deployment → List Str → List Config.Job → List Str → Str → Config.InstanceGroup
group d azs jobs extensions network = record {
  name = internal_name d;
  azs = azs;
  instances = d.spec.replicas;
  jobs = jobs;
  vm_extensions = extensions;
  vm_resources = record { cpu = cpu d; ram = ram d; ephemeral_disk_size = ephemeral_disk_size d };
  stemcell = stemcell_alias;
  persistent_disk_size = persistent_disk_size d;
  networks = record { name = network } ∷ [];
}

abbrev pub manifest :
    Deployment → List Config.Release → Config.Stemcell → Config.InstanceGroup → Config.Deployment
manifest d rs s ig = record {
  name = internal_name d;
  update = record {
    canaries = pos 0;
    max_in_flight = max_unavailable d;
    canary_watch_time = watch_time d;
    update_watch_time = watch_time d;
    serial = false;
    vm_strategy = vm_strategy d;
  };
  releases = rs;
  stemcells = s ∷ [];
  instance_groups = ig ∷ [];
}

module _ {W E : Type 0} (kube : Kube W E) where
  -- The rest of `instanceGroup` after each of its lookups.
  abbrev pub with_extensions :
      Deployment → List Str → List Config.Job → List Str → Io W E Config.InstanceGroup
  with_extensions d azs jobs extensions = do
    network ← kube.networks.get (namespace d) d.spec.network
    pure (group d azs jobs extensions (ApiNetwork.internal_name network))

  abbrev pub with_jobs : Deployment → List Str → List Config.Job → Io W E Config.InstanceGroup
  with_jobs d azs jobs = do
    extensions ← for_each (resolve_extension kube d) d.spec.extensions
    with_extensions d azs jobs extensions

  abbrev pub with_azs : Deployment → List Str → Io W E Config.InstanceGroup
  with_azs d azs = do jobs ← for_each (resolve_job kube d) d.spec.containers; with_jobs d azs jobs

  abbrev pub with_stemcell :
      Deployment → List Config.Release → Config.Stemcell → Io W E Config.Deployment
  with_stemcell d rs s = do ig ← instance_group kube d; pure (manifest d rs s ig)

  abbrev pub with_releases : Deployment → List Config.Release → Io W E Config.Deployment
  with_releases d rs = do s ← stemcell kube d; with_stemcell d rs s
