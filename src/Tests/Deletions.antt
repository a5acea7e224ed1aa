-- ===== src/Tests/Deletions.antt =====
-- A team over stores in memory: its finalizers, its secret and its client.
use boshv.Base.{
  ℕ, Bool, true, false, ◌≡◌, ◌⊎◌, refl, Option, none, some, List, [], ◌∷◌, Str, str, str_discrete,
  join, ◌==◌, ok, err, raise, pure, Io, Result, arith,
}
use boshv.Api.Types.{Team, finalizers}
use boshv.Api.Helpers.{contains_string}
use boshv.Api.Team.{
  team_finalizer, being_deleted, create_unless_exists, delete_if_exists, ensure_finalizer,
  ensure_no_finalizer,
}
use boshv.Kube.{Store, SecretStore, Secret, Errors}
use boshv.Remote.UaaClient.{UaaClient}
use boshv.Controllers.Artifacts.{team_entity}
use boshv.Controllers.Uaa.{reconcile_with_uaa}
use boshv.Controllers.Uaa.Watching.{Watch, Guards, orphaned}
use boshv.Controllers.Uaa.Deletion.{team_no_orphan, reconcile-Deleted}
use boshv.Controllers.Bosh.Views.{contains-added, contains-removed}
use boshv.Tests.Uaa.{team}

pub record Places : Type 0 where
  pub stored : List Str
  pub kept : Option Str
  pub checked : Option Str

abbrev has : Option Str → Bool
has none = false
has (some _) = true

abbrev missing : Str
missing = str "not found"

abbrev errors : Errors Str
errors = record {
  new_error = λ s. s;
  is_not_found = λ e. e == missing;
  is_gone = λ e. false;
  is_already_exists = λ e. e == str "exists";
}

abbrev put : Option Str → Secret → Io Places Str Secret
put none s w = (ok s, record w { kept = some s.secret })
put (some _) s w = (err (str "exists"), w)

abbrev drop : Option Str → Io Places Str (Unit {0})
drop none w = (err missing, w)
drop (some _) w = (ok tt, record w { kept = none })

abbrev secrets : SecretStore Places Str
secrets = record {
  get = λ _ _. raise missing;
  create = λ s w. put w.kept s w;
  delete = λ _ _ w. drop w.kept w;
}

abbrev uc : UaaClient Places Str
uc = record {
  has_client = λ _ w. (ok (has w.checked), w);
  create_client = λ _ secret _ w. (ok tt, record w { checked = some secret });
  delete_client = λ _ w. (ok tt, record w { checked = none });
}

abbrev store : Store Places Str Team
store = record {
  get = λ _ _. raise missing;
  create = λ o. pure o;
  update = λ o w. (ok o, record w { stored = finalizers o });
  update_status = λ o. pure o;
  delete = λ _. pure tt;
}

abbrev rand_read : ℕ → Io Places Str Str
rand_read _ = pure []

abbrev watch : Watch Places Team
watch = record {
  guarded = λ w. contains_string w.stored team_finalizer;
  has_secret = λ w. has w.kept;
  has_client = λ w. has w.checked;
  has_finalizer = λ o. contains_string (finalizers o) team_finalizer;
}

abbrev Any : Team → Type 0
Any _ = Unit

law : Guards errors secrets rand_read team_entity store uc watch Any
unfolding create_unless_exists delete_if_exists str_discrete str ensure_finalizer
    ensure_no_finalizer
law = record {
  updates = λ o w m. (tt, refl, refl, refl);
  updates_status = λ o w m. (refl, refl, refl);
  randoms = λ n w. (refl, refl, refl);
  creates_secret = λ o data_text w m. ground arith;
  deletes_secret = λ o w m. ground arith;
  misses_secret = λ o w e m h k. ground arith;
  creates_client = λ o data_text w m. ground arith;
  deletes_client = λ o w m. ground arith;
  keeps = λ o m. (tt, tt);
  ensures = λ o. contains-added (finalizers o) team_finalizer;
  ensures_report = λ o. refl;
  removes = λ o. contains-removed (finalizers o) team_finalizer;
  removes_report = λ o. refl;
}

-- The secret is gone already.
abbrev half : Places
half = record { stored = team_finalizer ∷ []; kept = none; checked = some (str "s") }

abbrev dying : Team
dying = record team {
  metadata = record team.metadata {
    finalizers = team_finalizer ∷ [];
    deletion_timestamp_is_zero = false;
  };
}

abbrev reconciled : Result Str Unit × Places
reconciled = reconcile_with_uaa errors secrets rand_read team_entity store uc dying half

team_no_orphan_example : orphaned watch reconciled.1 ≡ false
unfolding contains_string str_discrete str join
team_no_orphan_example =
    team_no_orphan errors secrets rand_read team_entity store uc watch Any law dying half tt refl
      refl

reconcile-Deleted_example :
    ((reconciled.0 ≡ ok tt)
      × (has reconciled.1.kept ≡ false)
      × (has reconciled.1.checked ≡ false)
      × (contains_string reconciled.1.stored team_finalizer ≡ false))
    ⊎ ((e : Str) × (reconciled.0 ≡ err e)
        × (contains_string reconciled.1.stored team_finalizer
            ≡ contains_string half.stored team_finalizer))
unfolding contains_string str_discrete str join being_deleted
reconcile-Deleted_example =
    reconcile-Deleted errors secrets rand_read team_entity store uc watch Any law dying half tt refl
      refl refl
