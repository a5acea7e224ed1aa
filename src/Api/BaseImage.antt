-- ===== src/Api/BaseImage.antt =====
-- api/v1/base_image_types.go
pub mod Laws
use boshv.Base.{
  Bool, true, false, not, ◌&&◌, ◌||◌, [], ◌∷◌, ◌++◌, Str, str, join, ◌==◌, ◌!=◌, if◌then◌else◌, Io,
  pure, ◌>>=◌,
}
use boshv.Api.Types.{BaseImage, finalizers, set_finalizers, set_status}
use boshv.Api.Helpers.{contains_string, remove_string, finalizer_base, resource_mutation_warning}
use boshv.Remote.BoshClient.{BoshClient}

unfoldable pub being_deleted : BaseImage → Bool
being_deleted s = not s.metadata.deletion_timestamp_is_zero

abbrev pub base_image_finalizer : Str
base_image_finalizer = join (str ".") (str "base-image" ∷ finalizer_base ∷ [])

unfoldable pub has_finalizer : BaseImage → Bool
unfolding contains_string
has_finalizer s = contains_string (finalizers s) base_image_finalizer

unfoldable pub ensure_finalizer : BaseImage → Bool × BaseImage
unfolding has_finalizer
ensure_finalizer s =
    let changed = not (has_finalizer s) in
    (changed, set_finalizers s (finalizers s ++ base_image_finalizer ∷ []))

unfoldable pub ensure_no_finalizer : BaseImage → Bool × BaseImage
unfolding has_finalizer remove_string
ensure_no_finalizer s =
    let changed = has_finalizer s in
    (changed, set_finalizers s (remove_string (finalizers s) base_image_finalizer))

unfoldable pub prepare_to_save : BaseImage → Bool × BaseImage
prepare_to_save s =
    let original_spec = s.status.original_spec in
    if original_spec.base_image_name == []
    then (true, set_status s (record s.status { original_spec = s.spec }))
    else let mutated =
        s.spec.base_image_name != original_spec.base_image_name
        || s.spec.version != original_spec.version
        || s.spec.url != original_spec.url
        || s.spec.sha1 != original_spec.sha1 in
      if mutated && s.status.warning == []
      then (true, set_status s (record s.status { warning = resource_mutation_warning }))
      else if not mutated && s.status.warning != []
      then (true, set_status s (record s.status { warning = [] }))
      else (false, s)

module _ {W E : Type 0} (bc : BoshClient W E) where
  unfoldable pub create_unless_exists : BaseImage → Io W E BaseImage
  create_unless_exists s = do
    let base_image_spec = s.status.original_spec
    present ← bc.has_base_image base_image_spec.base_image_name base_image_spec.version
    _ ←
        (if not present
          then bc.upload_base_image base_image_spec.url base_image_spec.sha1
          else pure tt)
    pure (set_status s (record s.status { available = true }))

  unfoldable pub delete_if_exists : BaseImage → Io W E (Unit {0})
  delete_if_exists s = do
    let base_image_spec = s.status.original_spec
    present ← bc.has_base_image base_image_spec.base_image_name base_image_spec.version
    if present
        then bc.delete_base_image base_image_spec.base_image_name base_image_spec.version
        else pure tt
