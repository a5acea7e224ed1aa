-- ===== src/Api/Team.antt =====
-- api/v1/team_types.go
pub mod Laws
use boshv.Base.{
  Bool, true, false, not, ◌&&◌, ◌||◌, List, [], ◌∷◌, ◌++◌, Str, str, join, ◌==◌, ◌!=◌,
  if◌then◌else◌, Io, pure, ◌>>=◌,
}
use boshv.Api.Types.{Team, name, namespace, finalizers, set_finalizers, set_status}
use boshv.Api.Helpers.{
  contains_string, remove_string, finalizer_base, resource_mutation_warning, standard_name,
}
use boshv.Remote.UaaClient.{UaaClient}

unfoldable pub being_deleted : Team → Bool
being_deleted t = not t.metadata.deletion_timestamp_is_zero

abbrev pub team_finalizer : Str
team_finalizer = join (str ".") (str "team" ∷ finalizer_base ∷ [])

unfoldable pub has_finalizer : Team → Bool
unfolding contains_string
has_finalizer t = contains_string (finalizers t) team_finalizer

unfoldable pub ensure_finalizer : Team → Bool × Team
unfolding has_finalizer
ensure_finalizer t =
    let changed = not (has_finalizer t) in
    (changed, set_finalizers t (finalizers t ++ team_finalizer ∷ []))

unfoldable pub ensure_no_finalizer : Team → Bool × Team
unfolding has_finalizer remove_string
ensure_no_finalizer t =
    let changed = has_finalizer t in
    (changed, set_finalizers t (remove_string (finalizers t) team_finalizer))

unfoldable pub prepare_to_save : Str → Team → Bool × Team
prepare_to_save secret_namespace t =
    let original_director = t.status.original_director in
    if original_director == [] || t.status.secret_namespace == []
    then (
      true,
      set_status t (record t.status {
        original_director = t.spec.director;
        secret_namespace = secret_namespace;
      }),
    )
    else if t.spec.director != original_director && t.status.warning == []
    then (true, set_status t (record t.status { warning = resource_mutation_warning }))
    else if t.spec.director == original_director && t.status.warning != []
    then (true, set_status t (record t.status { warning = [] }))
    else (false, t)

-- The two arguments stand the other way round than the parameters of `standard_name` are named.
unfoldable pub client_name : Team → Str
client_name t = standard_name (name t) (namespace t)

unfoldable pub secret_name : Team → Str
secret_name t = standard_name (name t) (namespace t)

unfoldable pub secret_namespace : Team → Str
secret_namespace t = t.status.secret_namespace

module _ {W E : Type 0} (uc : UaaClient W E) where
  unfoldable pub create_unless_exists : Team → Str → Io W E Team
  create_unless_exists t secret_data = do
    present ← uc.has_client (client_name t)
    _ ←
        (if not present
          then uc.create_client (client_name t) secret_data (str "bosh.admin" ∷ [])
          else pure tt)
    pure (set_status t (record t.status { available = true }))

  unfoldable pub delete_if_exists : Team → Io W E (Unit {0})
  delete_if_exists t = do
    present ← uc.has_client (client_name t)
    if present then uc.delete_client (client_name t) else pure tt
