-- ===== src/Tests/Histories.antt =====
-- A history of two AZs of two namespaces, whose teams are for two directors.
use boshv.Base.{
  ◌≢◌, ◌++◌, Option, some, none, map, raise, pure, Io, true, false, not, ◌&&◌, if◌then◌else◌, ◌≡◌,
  refl, ap, ◌∙◌, [], ◌∷◌, Str, str, str_discrete, join, ◌==◌, ok, arith,
}
use boshv.Base.Runs.{Runs}
use boshv.Api.Types.{Director, Az, AzStatus, Team, name, namespace, finalizers, set_finalizers}
use boshv.Api.Helpers.{contains_string}
use boshv.Api.Az.{
  az_finalizer, prepare_to_save, ensure_finalizer, create_unless_exists, internal_name,
  being_deleted,
}
use boshv.Kube.{Store}
use boshv.Remote.BoshClient.{DirectorApi, BoshLibrary, bosh_client_impl, new_bosh_client}
use boshv.Controllers.Platform.{Platform}
use boshv.Controllers.Clients.{only_team, bosh_client_for_namespace}
use boshv.Controllers.Bosh.{reconcile_with_bosh}
use boshv.Controllers.Bosh.Views.{Stored, is_some}
use boshv.Controllers.Reconcilers.{reconcile_az}
use boshv.Controllers.Histories.{ActsAt, Same, Cluster, History, start, reconciled, elsewhere}
use boshv.Controllers.Histories.Safety.{history_no_orphan}
use boshv.Remote.BoshClient.CloudConfigs.{write}
use boshv.Tests.World.{meta}
use boshv.Tests.Uaa.{team}
use boshv.Tests.Bosh.{raw_string, new_az}
use boshv.Tests.Names.{director}
use boshv.Tests.Controllers.{kube, nothing, errors, not_found, uaa_library}

abbrev Places : Type 0
Places = Str → Str → Stored AzStatus

abbrev put : Places → Str → Str → Stored AzStatus → Places
put places ns nm entry n m = if n == ns && m == nm then entry else places n m

abbrev at_url : (Str → Str → Option Str) → Str → (Str → Option Str) → Str → Str → Option Str
at_url all url here b = if b == url then here else all b

put_same :
    (places : Places) (ns nm n m : Str) (entry : Stored AzStatus)
    → n ≡ ns
    → m ≡ nm
    → put places n m entry ns nm ≡ entry
put_same places ns nm n m entry e f = ground arith

put_other :
    (places : Places) (ns nm n m : Str) (entry : Stored AzStatus)
    → ((n ≡ ns) × (m ≡ nm) → ⊥)
    → put places n m entry ns nm ≡ places ns nm
put_other places ns nm n m entry apart = ground (arith, λ (e : n ≡ ns) (f : m ≡ nm). apart (e, f))

abbrev az_at : Str → Str → Stored AzStatus → Az
az_at ns nm entry = record { metadata = meta ns nm entry.0; spec = new_az.spec; status = entry.1 }

record Region : Type 0 where
  configs : Str → Str → Option Str
  stored : Places

abbrev azs : Store Region Str Az
azs = record nothing {
  get = λ ns nm w. (ok (az_at ns nm (w.stored ns nm)), w);
  update = λ o w. (
    ok (record o { status = (w.stored (namespace o) (name o)).1 }),
    record w {
      stored =
          put w.stored (namespace o) (name o) (finalizers o, (w.stored (namespace o) (name o)).1);
    },
  );
  update_status = λ o w. (
    ok (set_finalizers o (w.stored (namespace o) (name o)).0),
    record w {
      stored = put w.stored (namespace o) (name o) ((w.stored (namespace o) (name o)).0, o.status);
    },
  );
}

-- The cloud configs at one URL.
abbrev api : Str → DirectorApi Region Str
api url = record {
  has_release = λ _ _. pure false;
  upload_release_url = λ _ _ _ _. pure tt;
  find_release = λ _ _. raise (str "no release");
  has_stemcell = λ _ _. pure false;
  upload_stemcell_url = λ _ _ _. pure tt;
  find_stemcell = λ _ _. raise (str "no stemcell");
  diff_config = λ _ _ _. pure (str "7");
  update_config = λ _ name _ bytes w. (
    ok tt,
    record w { configs = at_url w.configs url (write (w.configs url) name (some bytes)) },
  );
  delete_config = λ _ name w.
      (ok true, record w { configs = at_url w.configs url (write (w.configs url) name none) });
  find_deployment = λ _. raise (str "no deployment");
  marshal_cloud_config = λ c. ok (join (str ",") (map (λ az. az.name) c.azs));
  marshal_deployment = λ d. ok d.name;
}

abbrev library : BoshLibrary Region Str
library = record {
  UaaConfig = Str;
  Uaa = Str;
  DirectorConfig = Str;
  uaa_config_from_url = λ url. pure url;
  set_uaa_config = λ c _ _ _. c;
  new_uaa = λ c. pure c;
  director_config_from_url = λ url. pure url;
  set_director_config = λ c _ _. c;
  new_director = λ url. pure (api url);
}

abbrev home : Str → Str
home ns = str "director-" ++ ns

abbrev address : Str → Str
address name = str "https://" ++ name

-- The director that the team's spec names is not the one it had first.
abbrev team_of : Str → Team
team_of ns = record team {
  metadata = meta ns (str "t") [];
  spec = record { director = str "later" };
  status = record team.status { original_director = home ns };
}

abbrev find : Str → Io Region Str Director
find [] = raise not_found
find (c ∷ cs) = pure (record director { spec = record director.spec { url = address (c ∷ cs) } })

abbrev p : Platform Region Str
p = record {
  kube = record kube {
    azs = azs;
    directors = record nothing { get = λ _ name. find name };
    list_teams = λ ns. pure (team_of ns ∷ []);
  };
  errors = errors;
  bosh = library;
  uaa = uaa_library;
  rand_read = λ _. pure [];
  raw_string = raw_string;
  range_releases = λ rs. rs;
}

abbrev system : Str
system = str "system"

abbrev configs_of : Region → Str → Str → Option Str
configs_of w = w.configs

abbrev stored_of : Region → Places
stored_of w = w.stored

abbrev Still : Region → Region → Type 0
Still = Same p system configs_of stored_of home address

find-url :
    (name : Str) → Runs Still Still (λ d. (name ≢ []) × (d.spec.url ≡ address name)) (find name)
find-url [] w = (refl, refl)
find-url (c ∷ cs) w = ((λ e. ground (arith, e), refl), (refl, refl))

at_url-same :
    (all : Str → Str → Option Str) (url : Str) (here : Str → Option Str)
    → at_url all url here url ≡ here
at_url-same all url here = ground arith

at_url-other :
    (all : Str → Str → Option Str) (url : Str) (here : Str → Option Str) (b : Str)
    → b ≢ url
    → at_url all url here b ≡ all b
at_url-other all url here b h = ground (arith, h)

acts : (url : Str) → ActsAt p system configs_of stored_of home address url (api url)
acts url = record {
  diffs = λ name bytes w. (refl, refl);
  updates = λ name id bytes w. (
    at_url-same w.configs url _,
    λ i. (
      w.stored,
      λ b h. at_url-other w.configs url (write (w.configs url) name (some bytes)) b h i,
    ),
  );
  deletes = λ name w. (
    at_url-same w.configs url _,
    λ i. (w.stored, λ b h. at_url-other w.configs url (write (w.configs url) name none) b h i),
  );
}

cluster : Cluster p system configs_of stored_of home address (λ url. url)
cluster = record {
  places = λ a ns nm. record {
    updates = λ o w m.
        (m, ap (λ x. x.0) (put_same w.stored ns nm (namespace o) (name o) _ m.0 m.1), refl, refl);
    updates_status = λ o w m. (
      m,
      put_same w.stored ns nm (namespace o) (name o) _ m.0 m.1
          ∙ (λ i. ((w.stored (m.0 i) (m.1 i)).0, o.status)),
      (λ i. (w.stored (m.0 i) (m.1 i)).0),
      refl,
    );
  };
  updates_apart = λ ns nm o w apart. put_other w.stored ns nm (namespace o) (name o) _ apart;
  updates_status_apart = λ ns nm o w apart. put_other w.stored ns nm (namespace o) (name o) _ apart;
  gets = λ ns nm w. (((refl, refl), refl), (refl, refl));
  lists_teams = λ ns w. (((λ _. refl), tt), (refl, refl));
  gets_secret = λ _ _ w. (tt, (refl, refl));
  gets_director = λ name. find-url name;
  parses_uaa = λ _ w. (tt, (refl, refl));
  makes_uaa = λ _ w. (tt, (refl, refl));
  parses_director = λ _ w. (refl, (refl, refl));
  keeps_aim = λ _ _ _. refl;
  makes_director = λ url w. (acts url, (refl, refl));
}

abbrev bare : Region
bare = record { configs = λ _ _. none; stored = λ _ _. ([], new_az.status) }

abbrev first : Region
first = (reconcile_az p system (record { namespace = str "a"; name = str "z" }) bare).1

abbrev second : Region
second = (reconcile_az p system (record { namespace = str "b"; name = str "z" }) first).1

history : History p system configs_of stored_of home address bare second
unfolding str
history =
    reconciled
      (elsewhere (reconciled start (str "a") (str "z") (ground arith) refl)
        (λ ns nm. ((λ e. e), (λ e. e))))
      (str "b") (str "z") (ground arith) refl

history_no_orphan_example :
    (is_some (second.configs (str "https://director-a") (str "az-a-z"))
      && not (contains_string (second.stored (str "a") (str "z")).0 az_finalizer))
    ≡ false
unfolding str join contains_string
history_no_orphan_example =
    history_no_orphan p system configs_of stored_of home address (λ url. url) cluster bare second
      (str "a") (str "z") history (λ ns nm h. refl) (ground arith)

-- Both AZs are there in the end.
second_run :
    (is_some (second.configs (str "https://director-a") (str "az-a-z")) ≡ true)
    × (contains_string (second.stored (str "a") (str "z")).0 az_finalizer ≡ true)
    × (is_some (second.configs (str "https://director-b") (str "az-b-z")) ≡ true)
unfolding str str_discrete join contains_string reconcile_az bosh_client_for_namespace only_team
    new_bosh_client bosh_client_impl reconcile_with_bosh prepare_to_save ensure_finalizer
    create_unless_exists internal_name being_deleted
second_run = (refl, refl, refl)
