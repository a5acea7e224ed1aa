-- ===== src/Tests/Uaa.antt =====
-- `reconcileWithUAA` at a team, and the UAA client of remote-clients/uaa_client.go at one registry.
use boshv.Base.{
  zero, suc, ℕ, Bool, true, false, ◌≡◌, ◌≢◌, refl, Option, none, some, [], ◌∷◌, map, Str, str,
  str_discrete, ◌==◌, Result, ok, err, raise, pure, Io, arith,
}
use boshv.Base.Lists.{length, All}
use boshv.Base.Outcome.{Ensures}
use boshv.Api.Types.{Team}
use boshv.Api.Team.{being_deleted, create_unless_exists, ensure_finalizer}
use boshv.Kube.{Store, SecretStore, Secret, Errors}
use boshv.Remote.UaaClient.{UaaClient}
use boshv.Controllers.Artifacts.{team_entity}
use boshv.Controllers.Secrets.{secret_char, generate_secret}
use boshv.Controllers.Secrets.Laws.{is_alphanumeric, generate_secret-shape}
use boshv.Controllers.Uaa.{reconcile_with_uaa}
use boshv.Controllers.Uaa.Places.{Places, Faithful}
use boshv.Controllers.Uaa.Credentials.{first_credentials, stale_secret_locks_out}
use boshv.Tests.World.{meta}

pub record Secrets : Type 0 where
  pub kept : Option Str
  pub checked : Option Str

abbrev zeros : ℕ → Str
zeros zero = []
zeros (suc n) = 0 ∷ zeros n

abbrev rand_read : ℕ → Io Secrets Str Str
rand_read n = pure (zeros n)

abbrev exists : Str
exists = str "exists"

abbrev errors : Errors Str
errors = record {
  new_error = λ s. s;
  is_not_found = λ e. false;
  is_gone = λ e. false;
  is_already_exists = λ e. e == exists;
}

abbrev put : Option Str → Secret → Io Secrets Str Secret
put none s w = (ok s, record w { kept = some s.secret })
put (some _) s w = (err exists, w)

abbrev secrets : SecretStore Secrets Str
secrets = record {
  get = λ _ _. raise (str "not found");
  create = λ s w. put w.kept s w;
  delete = λ _ _ w. (ok tt, record w { kept = none });
}

abbrev has : Option Str → Bool
has none = false
has (some _) = true

abbrev uc : UaaClient Secrets Str
uc = record {
  has_client = λ _ w. (ok (has w.checked), w);
  create_client = λ _ secret _ w. (ok tt, record w { checked = some secret });
  delete_client = λ _ w. (ok tt, record w { checked = none });
}

abbrev store : Store Secrets Str Team
store = record {
  get = λ _ _. raise (str "not found");
  create = λ o. pure o;
  update = λ o. pure o;
  update_status = λ o. pure o;
  delete = λ _. pure tt;
}

abbrev places : Places Secrets
places = record { kept = λ w. w.kept; checked = λ w. w.checked }

abbrev Mine : Team → Type 0
Mine _ = Unit

abbrev fresh : Str
fresh = map secret_char (zeros 20)

abbrev Fresh : Str → Type 0
Fresh s = s ≡ fresh

abbrev pub team : Team
team = record {
  metadata = meta (str "ns") (str "t") [];
  spec = record { director = str "d" };
  status = record {
    warning = [];
    original_director = str "d";
    secret_namespace = str "system";
    available = false;
  };
}

law : Faithful errors secrets rand_read team_entity store uc places Mine Fresh
unfolding create_unless_exists str_discrete str
law = record {
  updates = λ o w m. (m, (refl, refl));
  updates_status = λ o w m. (refl, refl);
  randoms = λ w. (refl, (refl, refl));
  creates_secret = λ o data_text w m. ground arith;
  refuses_secret = λ o data_text w e m h k. ground arith;
  creates_client = λ o data_text w m. ground arith;
  ensures = λ o m. tt;
}

abbrev nothing : Secrets
nothing = record { kept = none; checked = none }

abbrev half : Secrets
half = record { kept = some (str "old"); checked = none }

abbrev reconciled : Secrets → Result Str Unit × Secrets
reconciled = reconcile_with_uaa errors secrets rand_read team_entity store uc team

first_credentials_example :
    let w = (reconciled nothing).1 in (s : Str) × Fresh s × (w.kept ≡ some s) × (w.checked ≡ some s)
unfolding reconcile_with_uaa being_deleted create_unless_exists generate_secret str_discrete str
    ensure_finalizer
first_credentials_example =
    first_credentials errors secrets rand_read team_entity store uc places Mine Fresh law team
      nothing tt refl refl refl refl

old_is_stale : ¬ Fresh (str "old")
unfolding secret_char str
old_is_stale e = ground arith

stale_secret_locks_out_example :
    let w = (reconciled half).1 in
    (w.kept ≡ some (str "old")) × (w.checked ≢ none) × (w.checked ≢ w.kept)
unfolding reconcile_with_uaa being_deleted create_unless_exists generate_secret str_discrete str
    ensure_finalizer
stale_secret_locks_out_example =
    stale_secret_locks_out errors secrets rand_read team_entity store uc places Mine Fresh law team
      half (str "old") tt refl refl refl old_is_stale refl

filled : Ensures (λ bytes _. length bytes ≡ 20) (λ _. Unit) (rand_read 20 nothing)
filled = refl

generate_secret-shape_example :
    Ensures
      (λ s _. (length s ≡ 20) × All (λ c. is_alphanumeric c ≡ true) s)
      (λ _. Unit)
      (generate_secret rand_read nothing)
generate_secret-shape_example = generate_secret-shape rand_read nothing filled
