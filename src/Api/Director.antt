-- ===== src/Api/Director.antt =====
-- api/v1/director_types.go
use boshv.Base.{Bool, true, false, not, [], ◌∷◌, ◌++◌, Str, str, join}
use boshv.Api.Types.{Director, Team, name, namespace, finalizers, set_finalizers}
use boshv.Api.Helpers.{contains_string, remove_string, finalizer_base}

unfoldable pub team_name : Director → Str
team_name d = join (str "-") (str "director" ∷ name d ∷ str "team" ∷ [])

-- What the literal leaves out has Go's zero value.
unfoldable pub team : Director → Team
unfolding team_name
team d = record {
  metadata = record {
    name = team_name d;
    namespace = namespace d;
    finalizers = [];
    deletion_timestamp_is_zero = true;
    resource_version = [];
  };
  spec = record { director = name d };
  status = record {
    warning = [];
    original_director = [];
    secret_namespace = [];
    available = false;
  };
}

unfoldable pub being_deleted : Director → Bool
being_deleted d = not d.metadata.deletion_timestamp_is_zero

abbrev pub director_finalizer : Str
director_finalizer = join (str ".") (str "director" ∷ finalizer_base ∷ [])

unfoldable pub has_finalizer : Director → Bool
unfolding contains_string
has_finalizer d = contains_string (finalizers d) director_finalizer

unfoldable pub ensure_finalizer : Director → Bool × Director
unfolding has_finalizer
ensure_finalizer d =
    let changed = not (has_finalizer d) in
    (changed, set_finalizers d (finalizers d ++ director_finalizer ∷ []))

unfoldable pub ensure_no_finalizer : Director → Bool × Director
unfolding has_finalizer remove_string
ensure_no_finalizer d =
    let changed = has_finalizer d in
    (changed, set_finalizers d (remove_string (finalizers d) director_finalizer))
