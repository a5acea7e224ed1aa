-- ===== src/Tests/Starting.antt =====
-- A run of `main` with a manager that keeps what its controllers answer.
use boshv.Base.{
  ℕ, ◌+◌, ◌*◌, Bool, true, false, ◌||◌, ◌≡◌, refl, List, [], ◌∷◌, ◌++◌, Str, str, Result, ok, raise,
  pure, eqb, arith,
}
use boshv.Base.Outcome.{Ensures}
use boshv.Api.Registration.{
  Kind, az, extension, network, compilation, release, base_image, role, deployment, team, director,
  GoType, object, list, SchemeLibrary, KeepsTypes,
}
use boshv.Controllers.Platform.{Platform, Request}
use boshv.Controllers.Setup.{Manager}
use boshv.Start.{StartLibrary, main}
use boshv.Start.Serving.{View, Starts, all_controllers, main-Serves}
use boshv.Tests.Bosh.{raw_string}
use boshv.Tests.Controllers as Platforms

abbrev kind_code : Kind → ℕ
kind_code az = 0
kind_code extension = 1
kind_code network = 2
kind_code compilation = 3
kind_code release = 4
kind_code base_image = 5
kind_code role = 6
kind_code deployment = 7
kind_code team = 8
kind_code director = 9

abbrev code : GoType → ℕ
code (object k) = 2 * kind_code k
code (list k) = 2 * kind_code k + 1

abbrev same : GoType → GoType → Bool
same t u = eqb (code t) (code u)

abbrev schemes : SchemeLibrary
schemes = record {
  Scheme = GoType → Bool;
  Builder = GoType → Bool;
  new_scheme = λ _. false;
  new_builder = λ _ _ _. false;
  register = λ t u b v. same t v || (same u v || b v);
  add_to_scheme = λ b s v. b v || s v;
  core_add_to_scheme = λ s. s;
}

abbrev knows : (GoType → Bool) → GoType → Bool
knows s t = s t

types : KeepsTypes schemes knows knows
types = record {
  registers_first = λ t u b. ground arith;
  registers_second = λ t u b. ground arith;
  registers_other = λ t u v b h. ground arith;
  adds = λ b s t h. ground arith;
  adds_core = λ s t h. h;
}

-- A controller is told by its kind and what it answers in an idle process.
pub record Process : Type 0 where
  pub controllers : List (Kind × (Request → Result Str (Unit {0})))
  pub served : Bool

abbrev idle : Process
idle = record { controllers = []; served = false }

abbrev view : View Process Str
view = record {
  Entry = Kind × (Request → Result Str (Unit {0}));
  entry = λ k r. (k, λ req. (r req idle).0);
  client = λ _. Platforms.kube;
  controllers = λ w. w.controllers;
  served = λ w. w.served;
}

abbrev outside : Platform Process Str
outside = record {
  kube = record Platforms.kube { list_teams = λ _. pure [] };
  errors = Platforms.errors;
  bosh = record {
    UaaConfig = Str;
    Uaa = Str;
    DirectorConfig = Str;
    uaa_config_from_url = λ url. pure url;
    set_uaa_config = λ c _ _ _. c;
    new_uaa = λ c. pure c;
    director_config_from_url = λ url. pure url;
    set_director_config = λ c _ _. c;
    new_director = λ _. raise (str "no director");
  };
  uaa = Platforms.uaa_library;
  rand_read = λ _. pure [];
  raw_string = raw_string;
  range_releases = λ rs. rs;
}

abbrev manager : Manager Process Str
manager = record {
  client = Platforms.kube;
  complete = λ k r w. (ok tt, record w { controllers = w.controllers ++ (view.entry k r ∷ []) });
  start = λ w. (ok tt, record w { served = true });
}

abbrev lib : StartLibrary Process Str (GoType → Bool)
lib = record {
  RestConfig = Unit;
  parse_flags = λ flags. pure flags;
  getenv = λ _ _. str "system";
  get_config_or_die = pure tt;
  new_manager = λ _ _ w. (ok manager, record w { controllers = [] });
}

starts : Starts schemes lib outside knows view
starts = record {
  parses_flags = λ _ _. ((refl, refl), λ _. refl);
  gets_config = λ _. (refl, refl);
  makes_manager = λ _ _ _. (
    record { completes = λ _ _ _ _. (refl, refl, refl); starts = λ _. (refl, refl, refl) },
    refl,
    refl,
    refl,
  );
}

main-Serves_example :
    let Serves = λ (w' : Process).
      w'.controllers
      ≡ all_controllers schemes lib outside knows view
          (record outside { kube = Platforms.kube })
          (str "system") in
    Ensures
      (λ _ w'. Serves w' × (w'.served ≡ true))
      (λ w'. w'.served ≡ true → Serves w')
      (main schemes lib outside idle)
main-Serves_example = main-Serves schemes lib outside knows view knows types starts idle refl
