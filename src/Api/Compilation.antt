-- ===== src/Api/Compilation.antt =====
-- api/v1/compilation_types.go
pub mod Laws
use boshv.Base.{
  Bool, true, false, not, ◌&&◌, [], ◌∷◌, ◌++◌, Str, str, join, ◌==◌, ◌!=◌, if◌then◌else◌, Io, pure,
  ◌>>=◌,
}
use boshv.Api.Types.{Compilation, name, namespace, finalizers, set_finalizers, set_status}
use boshv.Api.Helpers.{contains_string, remove_string, finalizer_base, resource_mutation_warning}
use boshv.Remote.BoshClient.{BoshClient}
use boshv.Remote.Config

unfoldable pub being_deleted : Compilation → Bool
being_deleted c = not c.metadata.deletion_timestamp_is_zero

abbrev pub compilation_finalizer : Str
compilation_finalizer = join (str ".") (str "compilation" ∷ finalizer_base ∷ [])

unfoldable pub has_finalizer : Compilation → Bool
unfolding contains_string
has_finalizer c = contains_string (finalizers c) compilation_finalizer

unfoldable pub ensure_finalizer : Compilation → Bool × Compilation
unfolding has_finalizer
ensure_finalizer c =
    let changed = not (has_finalizer c) in
    (changed, set_finalizers c (finalizers c ++ compilation_finalizer ∷ []))

unfoldable pub ensure_no_finalizer : Compilation → Bool × Compilation
unfolding has_finalizer remove_string
ensure_no_finalizer c =
    let changed = has_finalizer c in
    (changed, set_finalizers c (remove_string (finalizers c) compilation_finalizer))

unfoldable pub prepare_to_save : Compilation → Bool × Compilation
prepare_to_save c =
    let original_director = c.status.original_director in
    if original_director == []
    then (true, set_status c (record c.status { original_director = c.spec.director }))
    else let mutated = original_director != c.spec.director in
      if mutated && c.status.warning == []
      then (true, set_status c (record c.status { warning = resource_mutation_warning }))
      else if not mutated && c.status.warning != []
      then (true, set_status c (record c.status { warning = [] }))
      else (false, c)

unfoldable pub internal_name : Compilation → Str
internal_name c = join (str "-") (str "compilation" ∷ namespace c ∷ name c ∷ [])

unfoldable pub bosh_client_az : Compilation → Config.Az
bosh_client_az c = record { name = internal_name c; cloud_properties = c.spec.az_cloud_properties }

unfoldable pub bosh_client_network : Compilation → Config.Network
bosh_client_network c = record {
  name = internal_name c;
  type = c.spec.network_type;
  subnets = subnet ∷ [];
}
  where
    subnet : Config.Subnet
    subnet = record {
      range = c.spec.subnet_range;
      gateway = c.spec.subnet_gateway;
      dns = c.spec.subnet_dns;
      reserved = c.spec.subnet_reserved;
      static = [];
      azs = internal_name c ∷ [];
      cloud_properties = c.spec.subnet_cloud_properties;
    }

unfoldable pub bosh_client_compilation : Compilation → Config.Compilation
bosh_client_compilation c = record {
  workers = c.spec.replicas;
  az = internal_name c;
  orphan_workers = true;
  vm_resources = record {
    cpu = c.spec.cpu;
    ram = c.spec.ram;
    ephemeral_disk_size = c.spec.ephemeral_disk_size;
  };
  cloud_properties = c.spec.cloud_properties;
  network = internal_name c;
  reuse_compilation_vms = true;
}

module _ {W E : Type 0} (bc : BoshClient W E) where
  unfoldable pub create_unless_exists : Compilation → Io W E Compilation
  create_unless_exists c = do
    _ ←
        bc.create_compilation (internal_name c) (bosh_client_network c) (bosh_client_az c)
          (bosh_client_compilation c)
    pure (set_status c (record c.status { available = true }))

  unfoldable pub delete_if_exists : Compilation → Io W E (Unit {0})
  delete_if_exists c = bc.delete_network (internal_name c)
