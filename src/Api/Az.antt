-- ===== src/Api/Az.antt =====
-- api/v1/az_types.go
pub mod Laws
use boshv.Base.{
  Bool, true, false, not, ◌&&◌, [], ◌∷◌, ◌++◌, Str, str, join, ◌==◌, ◌!=◌, if◌then◌else◌, Io, pure,
  ◌>>=◌,
}
use boshv.Api.Types.{Az, RawPtr, AzStatus, name, namespace, finalizers, set_finalizers, set_status}
use boshv.Api.Helpers.{contains_string, remove_string, finalizer_base, resource_mutation_warning}
use boshv.Remote.BoshClient.{BoshClient}

unfoldable pub being_deleted : Az → Bool
being_deleted a = not a.metadata.deletion_timestamp_is_zero

abbrev pub az_finalizer : Str
az_finalizer = join (str ".") (str "az" ∷ finalizer_base ∷ [])

unfoldable pub has_finalizer : Az → Bool
unfolding contains_string
has_finalizer a = contains_string (finalizers a) az_finalizer

unfoldable pub ensure_finalizer : Az → Bool × Az
unfolding has_finalizer
ensure_finalizer a =
    let changed = not (has_finalizer a) in
    (changed, set_finalizers a (finalizers a ++ az_finalizer ∷ []))

unfoldable pub ensure_no_finalizer : Az → Bool × Az
unfolding has_finalizer remove_string
ensure_no_finalizer a =
    let changed = has_finalizer a in
    (changed, set_finalizers a (remove_string (finalizers a) az_finalizer))

-- `raw_string` is the method `String` of a pointer to a `runtime.RawExtension`.
unfoldable pub prepare_to_save : (RawPtr → Str) → Az → Bool × Az
prepare_to_save raw_string a =
    if not a.status.immutable_fields_frozen
    then (true, set_status a frozen)
    else let mutated =
        raw_string a.spec.cloud_properties != raw_string a.status.original_cloud_properties in
      if mutated && a.status.warning == []
      then (true, set_status a (record a.status { warning = resource_mutation_warning }))
      else if not mutated && a.status.warning != []
      then (true, set_status a (record a.status { warning = [] }))
      else (false, a)
  where
    frozen : AzStatus
    frozen = record a.status {
      immutable_fields_frozen = true;
      original_cloud_properties = a.spec.cloud_properties;
    }

unfoldable pub internal_name : Az → Str
internal_name a = join (str "-") (str "az" ∷ namespace a ∷ name a ∷ [])

module _ {W E : Type 0} (bc : BoshClient W E) where
  unfoldable pub create_unless_exists : Az → Io W E Az
  create_unless_exists a = do
    _ ←
        bc.create_az (internal_name a)
          (record { name = internal_name a; cloud_properties = a.status.original_cloud_properties })
    pure (set_status a (record a.status { available = true }))

  unfoldable pub delete_if_exists : Az → Io W E (Unit {0})
  delete_if_exists a = bc.delete_az (internal_name a)
