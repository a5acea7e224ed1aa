-- ===== src/Api/Deployment.antt =====
-- api/v1/deployment_types.go: the kind itself. Its children resolve it into a BOSH manifest.
pub mod Manifest
pub mod Totals
use boshv.Base.{Bool, true, false, not, [], ◌∷◌, ◌++◌, Str, str, join, List, Io, pure, ◌>>=◌}
use boshv.Api.Types.{Deployment, finalizers, set_finalizers, set_status}
use boshv.Api.Helpers.{contains_string, remove_string, finalizer_base}
use boshv.Kube.{Kube}
use boshv.Remote.BoshClient.{BoshClient}
use boshv.Remote.Config
use Manifest.{internal_name, resolve_references}

unfoldable pub being_deleted : Deployment → Bool
being_deleted d = not d.metadata.deletion_timestamp_is_zero

abbrev pub deployment_finalizer : Str
deployment_finalizer = join (str ".") (str "deployment" ∷ finalizer_base ∷ [])

unfoldable pub has_finalizer : Deployment → Bool
unfolding contains_string
has_finalizer d = contains_string (finalizers d) deployment_finalizer

unfoldable pub ensure_finalizer : Deployment → Bool × Deployment
unfolding has_finalizer
ensure_finalizer d =
    let changed = not (has_finalizer d) in
    (changed, set_finalizers d (finalizers d ++ deployment_finalizer ∷ []))

unfoldable pub ensure_no_finalizer : Deployment → Bool × Deployment
unfolding has_finalizer remove_string
ensure_no_finalizer d =
    let changed = has_finalizer d in
    (changed, set_finalizers d (remove_string (finalizers d) deployment_finalizer))

unfoldable pub prepare_to_save : Deployment → Bool × Deployment
prepare_to_save d = (false, d)

module _ {W E : Type 0} (bc : BoshClient W E) where
  -- `range_releases` is the order in which a `range` over the set of releases meets them.
  unfoldable pub create_unless_exists :
      (List Config.Release → List Config.Release) → Kube W E → Deployment → Io W E Deployment
  create_unless_exists range_releases c d = do
    deployment ← resolve_references c range_releases d
    _ ← bc.create_deployment (internal_name d) deployment
    pure (set_status d (record d.status { available = true }))

  unfoldable pub delete_if_exists : Deployment → Io W E (Unit {0})
  delete_if_exists d = bc.delete_deployment (internal_name d)
