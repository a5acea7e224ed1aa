-- ===== src/Api/Extension.antt =====
-- api/v1/extension_types.go
pub mod Laws
use boshv.Base.{
  Bool, true, false, not, ◌&&◌, some, none, [], ◌∷◌, ◌++◌, Str, str, join, ◌==◌, ◌!=◌,
  if◌then◌else◌, Io, pure, ◌>>=◌,
}
use boshv.Api.Types.{Extension, RawPtr, name, namespace, finalizers, set_finalizers, set_status}
use boshv.Api.Helpers.{contains_string, remove_string, finalizer_base, resource_mutation_warning}
use boshv.Remote.BoshClient.{BoshClient}

unfoldable pub being_deleted : Extension → Bool
being_deleted x = not x.metadata.deletion_timestamp_is_zero

abbrev pub extension_finalizer : Str
extension_finalizer = join (str ".") (str "extension" ∷ finalizer_base ∷ [])

unfoldable pub has_finalizer : Extension → Bool
unfolding contains_string
has_finalizer x = contains_string (finalizers x) extension_finalizer

unfoldable pub ensure_finalizer : Extension → Bool × Extension
unfolding has_finalizer
ensure_finalizer x =
    let changed = not (has_finalizer x) in
    (changed, set_finalizers x (finalizers x ++ extension_finalizer ∷ []))

unfoldable pub ensure_no_finalizer : Extension → Bool × Extension
unfolding has_finalizer remove_string
ensure_no_finalizer x =
    let changed = has_finalizer x in
    (changed, set_finalizers x (remove_string (finalizers x) extension_finalizer))

-- `raw_string` is the method `String` of a pointer to a `runtime.RawExtension`.
unfoldable pub prepare_to_save : (RawPtr → Str) → Extension → Bool × Extension
prepare_to_save raw_string x = elim x.status.original_cloud_properties [
  | none ↦
      (true, set_status x (record x.status { original_cloud_properties = x.spec.cloud_properties }))
  | some original ↦
      let mutated = raw_string x.spec.cloud_properties != raw_string (some original) in
      if mutated && x.status.warning == []
      then (true, set_status x (record x.status { warning = resource_mutation_warning }))
      else if not mutated && x.status.warning != []
      then (true, set_status x (record x.status { warning = [] }))
      else (false, x)
]

unfoldable pub internal_name : Extension → Str
internal_name x = join (str "-") (str "extension" ∷ namespace x ∷ name x ∷ [])

module _ {W E : Type 0} (bc : BoshClient W E) where
  unfoldable pub create_unless_exists : Extension → Io W E Extension
  create_unless_exists x = do
    _ ←
        bc.create_vm_extension (internal_name x)
          (record { name = internal_name x; cloud_properties = x.status.original_cloud_properties })
    pure (set_status x (record x.status { available = true }))

  unfoldable pub delete_if_exists : Extension → Io W E (Unit {0})
  delete_if_exists x = bc.delete_vm_extension (internal_name x)
