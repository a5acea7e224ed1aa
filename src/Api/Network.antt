-- ===== src/Api/Network.antt =====
-- api/v1/network_types.go
pub mod Match
pub mod Same
pub mod Laws
pub mod Shuffling
pub mod Freezing
use boshv.Base.{
  Bool, true, false, not, ◌&&◌, List, [], ◌∷◌, ◌++◌, Str, str, join, ◌==◌, ◌!=◌, if◌then◌else◌, Io,
  pure, ◌>>=◌, for_each, map,
}
use boshv.Api.Types.{
  Network, RawPtr, Subnet, NetworkSpec, name, namespace, finalizers, set_finalizers, set_status,
}
use boshv.Api.Helpers.{contains_string, remove_string, finalizer_base, resource_mutation_warning}
use boshv.Api.Az
use boshv.Kube.{Kube}
use boshv.Remote.BoshClient.{BoshClient}
use boshv.Remote.Config
use Match.{spec_match}

unfoldable pub being_deleted : Network → Bool
being_deleted n = not n.metadata.deletion_timestamp_is_zero

abbrev pub network_finalizer : Str
network_finalizer = join (str ".") (str "network" ∷ finalizer_base ∷ [])

unfoldable pub has_finalizer : Network → Bool
unfolding contains_string
has_finalizer n = contains_string (finalizers n) network_finalizer

unfoldable pub ensure_finalizer : Network → Bool × Network
unfolding has_finalizer
ensure_finalizer n =
    let changed = not (has_finalizer n) in
    (changed, set_finalizers n (finalizers n ++ network_finalizer ∷ []))

unfoldable pub ensure_no_finalizer : Network → Bool × Network
unfolding has_finalizer remove_string
ensure_no_finalizer n =
    let changed = has_finalizer n in
    (changed, set_finalizers n (remove_string (finalizers n) network_finalizer))

-- `match` sorts the lists of strings that it compares, in place: after it the object holds them in
-- order. `raw_string` is the method `String` of a pointer to a `runtime.RawExtension`.
unfoldable pub prepare_to_save : (RawPtr → Str) → Network → Bool × Network
prepare_to_save raw_string n =
    if n.status.original_spec.type == []
    then (true, set_status n (record n.status { original_spec = n.spec }))
    else check (spec_match raw_string n.status.original_spec n.spec)
  where
    check : Bool × NetworkSpec × NetworkSpec → Bool × Network
    check (matched, original_spec, spec) =
        let m : Network = record n {
          spec = spec;
          status = record n.status { original_spec = original_spec };
        } in
        if not matched && n.status.warning == []
        then (true, set_status m (record m.status { warning = resource_mutation_warning }))
        else if not (not matched) && n.status.warning != []
        then (true, set_status m (record m.status { warning = [] }))
        else (false, m)

unfoldable pub internal_name : Network → Str
internal_name n = join (str "-") (str "network" ∷ namespace n ∷ name n ∷ [])

module _ {W E : Type 0} (c : Kube W E) where
  unfoldable pub resolve_az : Network → Str → Io W E Str
  resolve_az n a = do az ← c.azs.get (namespace n) a; pure (Az.internal_name az)

  unfoldable pub resolve_subnet : Network → Subnet → Io W E Config.Subnet
  resolve_subnet n s = do
    azs ← for_each (resolve_az n) s.azs
    pure (record {
      range = s.range;
      gateway = s.gateway;
      dns = s.dns;
      reserved = s.reserved;
      static = s.static;
      azs = azs;
      cloud_properties = s.cloud_properties;
    })

  unfoldable pub resolve_references : Network → Io W E Config.Network
  resolve_references n = do
    let spec = n.status.original_spec
    subnets ← for_each (resolve_subnet n) spec.subnets
    pure (record { name = internal_name n; type = spec.type; subnets = subnets })

module _ {W E : Type 0} (bc : BoshClient W E) where
  unfoldable pub create_unless_exists : Kube W E → Network → Io W E Network
  create_unless_exists c n = do
    network ← resolve_references c n
    _ ← bc.create_network (internal_name n) network
    pure (set_status n (record n.status { available = true }))

  unfoldable pub delete_if_exists : Network → Io W E (Unit {0})
  delete_if_exists n = bc.delete_network (internal_name n)
