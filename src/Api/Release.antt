-- ===== src/Api/Release.antt =====
-- api/v1/release_types.go
pub mod Laws
use boshv.Base.{
  Bool, true, false, not, ◌&&◌, ◌||◌, [], ◌∷◌, ◌++◌, Str, str, join, ◌==◌, ◌!=◌, if◌then◌else◌, Io,
  pure, ◌>>=◌,
}
use boshv.Api.Types.{Release, finalizers, set_finalizers, set_status}
use boshv.Api.Helpers.{contains_string, remove_string, finalizer_base, resource_mutation_warning}
use boshv.Remote.BoshClient.{BoshClient}

unfoldable pub being_deleted : Release → Bool
being_deleted r = not r.metadata.deletion_timestamp_is_zero

abbrev pub release_finalizer : Str
release_finalizer = join (str ".") (str "release" ∷ finalizer_base ∷ [])

unfoldable pub has_finalizer : Release → Bool
unfolding contains_string
has_finalizer r = contains_string (finalizers r) release_finalizer

unfoldable pub ensure_finalizer : Release → Bool × Release
unfolding has_finalizer
ensure_finalizer r =
    let changed = not (has_finalizer r) in
    (changed, set_finalizers r (finalizers r ++ release_finalizer ∷ []))

unfoldable pub ensure_no_finalizer : Release → Bool × Release
unfolding has_finalizer remove_string
ensure_no_finalizer r =
    let changed = has_finalizer r in
    (changed, set_finalizers r (remove_string (finalizers r) release_finalizer))

unfoldable pub prepare_to_save : Release → Bool × Release
prepare_to_save r =
    let original_spec = r.status.original_spec in
    if original_spec.release_name == []
    then (true, set_status r (record r.status { original_spec = r.spec }))
    else let mutated =
        r.spec.release_name != original_spec.release_name
        || r.spec.version != original_spec.version
        || r.spec.url != original_spec.url
        || r.spec.sha1 != original_spec.sha1 in
      if mutated && r.status.warning == []
      then (true, set_status r (record r.status { warning = resource_mutation_warning }))
      else if not mutated && r.status.warning != []
      then (true, set_status r (record r.status { warning = [] }))
      else (false, r)

module _ {W E : Type 0} (bc : BoshClient W E) where
  unfoldable pub create_unless_exists : Release → Io W E Release
  create_unless_exists r = do
    let release_spec = r.status.original_spec
    present ← bc.has_release release_spec.release_name release_spec.version
    _ ← (if not present then bc.upload_release release_spec.url release_spec.sha1 else pure tt)
    pure (set_status r (record r.status { available = true }))

  unfoldable pub delete_if_exists : Release → Io W E (Unit {0})
  delete_if_exists r = do
    let release_spec = r.status.original_spec
    present ← bc.has_release release_spec.release_name release_spec.version
    if present then bc.delete_release release_spec.release_name release_spec.version else pure tt
