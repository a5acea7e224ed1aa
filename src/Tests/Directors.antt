-- ===== src/Tests/Directors.antt =====
-- A director that is deleted while the team controller has taken its team on.
use boshv.Base.{
  ℕ, Bool, true, false, sym, ap, subst, ◌∙◌, ◌≡◌, ◌≢◌, refl, Option, none, some, List, [], ◌∷◌, Str,
  str, str_discrete, ◌==◌, ok, err, Io, raise, pure, arith, join, if◌then◌else◌,
}
use boshv.Api.Types.{Director, Team, name, namespace, finalizers}
use boshv.Api.Helpers.{contains_string}
use boshv.Api.Director as ApiDirector
use boshv.Api.Team as ApiTeam
use boshv.Kube.{Kube}
use boshv.Controllers.Platform.{Platform}
use boshv.Controllers.Reconcilers.{reconcile_director, reconcile_team}
use boshv.Controllers.Reconcilers.Retrying.{retrying}
use boshv.Controllers.Reconcilers.Directors.{
  answer, Marked, KeepsObjects, TakenOn, director_strands_team,
}
use boshv.Tests.Names.{director}
use boshv.Tests.Controllers.{kube, nothing, errors, not_found, uaa_library}
use boshv.Tests.Bosh.{raw_string}

record Objects : Type 0 where
  teams : Str → Str → Option Team
  directors : Str → Option Director

abbrev put : {A : Type 0} → (Str → A) → Str → A → Str → A
put f n a m = if m == n then a else f m

abbrev mark : Team → Team
mark t = record t { metadata = record t.metadata { deletion_timestamp_is_zero = false } }

abbrev unless_empty : {A : Type 0} → List Str → A → Option A
unless_empty [] o = none
unless_empty (_ ∷ _) o = some o

abbrev delete_team : Team → Option Team → Io Objects Str (Unit {0})
delete_team t none = raise not_found
delete_team t (some there) = λ w. (
  ok tt,
  record w {
    teams =
        put w.teams (namespace t)
          (put (w.teams (namespace t)) (name t) (unless_empty (finalizers there) (mark there)));
  },
)

abbrev kept : Director → Bool → Option Director
kept d false = some d
kept d true = unless_empty (finalizers d) d

abbrev update_director : Director → Option Director → Io Objects Str Director
update_director d none = raise not_found
update_director d (some there) = λ w. (
  ok d,
  record w { directors = put w.directors (name d) (kept d (ApiDirector.being_deleted there)) },
)

abbrev objects : Kube Objects Str
objects = record kube {
  teams = record nothing {
    get = λ ns nm w. (answer not_found (w.teams ns nm), w);
    delete = λ t w. delete_team t (w.teams (namespace t) (name t)) w;
  };
  directors = record nothing {
    get = λ _ nm w. (answer not_found (w.directors nm), w);
    update = λ d w. update_director d (w.directors (name d)) w;
  };
}

abbrev platform : Platform Objects Str
platform = record {
  kube = objects;
  errors = errors;
  bosh = record {
    UaaConfig = Str;
    Uaa = Str;
    DirectorConfig = Str;
    uaa_config_from_url = λ url. pure url;
    set_uaa_config = λ c _ _ _. c;
    new_uaa = λ c. pure c;
    director_config_from_url = λ url. pure url;
    set_director_config = λ c _ _. c;
    new_director = λ _. raise (str "no director");
  };
  uaa = uaa_library;
  rand_read = λ _. pure [];
  raw_string = raw_string;
  range_releases = λ rs. rs;
}

unless_empty-some : {A : Type 0} (fs : List Str) (o : A) → fs ≢ [] → unless_empty fs o ≡ some o
unless_empty-some [] o h = ground (arith, h)
unless_empty-some (f ∷ fs) o h = refl

put-same : {A : Type 0} (f : Str → A) (n : Str) (a : A) → put f n a n ≡ a
put-same f n a = ground arith

keeps : KeepsObjects platform (str "system") (λ w. w.teams) (λ w. w.directors) (λ _ _. not_found)
unfolding ApiTeam.being_deleted
keeps = record {
  gets_team = λ ns nm w. refl;
  gets_director = λ nm w. refl;
  marks_team = λ t there w found guarded.
      subst
        (λ o.
          let w' = (delete_team t o w).1 in
          ((delete_team t o w).0 ≡ ok tt)
          × (w'.directors ≡ w.directors)
          × (there' : Team) × (w'.teams (namespace t) (name t) ≡ some there')
          × Marked there there')
        (sym found)
        (
          refl,
          refl,
          mark there,
          ap (λ f. f (name t)) (put-same w.teams (namespace t) _)
              ∙ put-same (w.teams (namespace t)) (name t) _
              ∙ unless_empty-some (finalizers there) (mark there) guarded,
          (refl, refl, refl, refl),
        );
  drops_director = λ d there w home found dying bare.
      subst
        (λ o.
          let w' = (update_director d o w).1 in
          ((update_director d o w).0 ≡ ok d)
          × (w'.directors (name d) ≡ none)
          × (w'.teams ≡ w.teams))
        (sym found)
        (
          refl,
          put-same w.directors (name d) (kept d (ApiDirector.being_deleted there))
              ∙ ap (kept d) dying
              ∙ ap (λ fs. unless_empty fs d) bare,
          refl,
        );
}

abbrev dying_director : Director
dying_director = record director {
  metadata = record director.metadata {
    finalizers = ApiDirector.director_finalizer ∷ [];
    deletion_timestamp_is_zero = false;
  };
}

-- The team of the director, as the team controller saved it.
abbrev team : Team
team = record {
  metadata = record {
    name = str "director-d-team";
    namespace = str "system";
    finalizers = ApiTeam.team_finalizer ∷ [];
    deletion_timestamp_is_zero = true;
    resource_version = str "1";
  };
  spec = record { director = str "d" };
  status = record {
    warning = [];
    original_director = str "d";
    secret_namespace = str "system";
    available = true;
  };
}

abbrev start : Objects
start = record {
  teams = put (λ _ _. none) (str "system") (put (λ _. none) (str "director-d-team") (some team));
  directors = put (λ _. none) (str "d") (some dying_director);
}

taken_on : TakenOn dying_director team
unfolding ApiTeam.has_finalizer contains_string str join str_discrete
taken_on = record {
  guarded = refl;
  for_director = refl;
  director_saved = refl;
  secret_saved = λ e. ground (arith, e);
  not_warned = refl;
}

director_strands_team_example :
    let done =
      reconcile_director platform
        (str "system")
        (record { namespace = str "system"; name = str "d" })
        start in
    (done.0 ≡ ok tt)
    × (done.1.directors (str "d") ≡ none)
    × (t' : Team) × (done.1.teams (str "system") (str "director-d-team") ≡ some t')
    × (ApiTeam.being_deleted t' ≡ true)
    × (ApiTeam.has_finalizer t' ≡ true)
    × ((n : ℕ)
        → retrying n
            (reconcile_team platform
              (str "system")
              (record { namespace = str "system"; name = str "director-d-team" }))
            done.1
          ≡ (err not_found, done.1))
unfolding str str_discrete join ApiDirector.being_deleted ApiDirector.team_name
director_strands_team_example =
    director_strands_team platform (str "system") (λ w. w.teams) (λ w. w.directors)
      (λ _ _. not_found) keeps dying_director team start (λ e. ground (arith, e)) refl refl refl
      refl refl taken_on
