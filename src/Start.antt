-- ===== src/Start.antt =====
-- main.go: flags, the scheme, the manager and its controllers. The log calls are left out. What the
-- libraries do, and the end of the process by `os.Exit(1)`, are a failure with what is logged of it.
pub mod Serving
use boshv.Base.{Bool, false, Result, ok, err, [], Str, str, Io, pure, ◌>>=◌}
use boshv.Api.Registration.{SchemeLibrary, add_to_scheme}
use boshv.Kube.{Kube}
use boshv.Controllers.Platform.{Platform}
use boshv.Controllers.Setup.{
  Manager, setup_az, setup_extension, setup_network, setup_release, setup_base_image,
  setup_deployment, setup_compilation, setup_team, setup_director,
}

-- What is logged before the process ends with code 1.
pub record Exit (E : Type 0) : Type 0 where
  pub message : Str
  pub controller : Str
  pub error : E

pub record Flags : Type 0 where
  pub metrics_addr : Str
  pub enable_leader_election : Bool

-- `ctrl.Options`, as far as `main` sets them.
pub record Options (Scheme : Type 0) : Type 0 where
  pub scheme : Scheme
  pub metrics_bind_address : Str
  pub leader_election : Bool

-- `flag.Parse` and `GetConfigOrDie` end the process by themselves.
pub record StartLibrary (W E Scheme : Type 0) : Type 1 where
  pub RestConfig : Type 0
  pub parse_flags : Flags → Io W (Exit E) Flags
  pub getenv : Str → W → Str
  pub get_config_or_die : Io W (Exit E) RestConfig
  pub new_manager : RestConfig → Options Scheme → Io W E (Manager W E)

-- `if err != nil { setupLog.Error(err, ...); os.Exit(1) }`
unfoldable pub or_exit : {W E A : Type 0} → Str → Str → Io W E A → Io W (Exit E) A
or_exit message controller m w =
    let (r, w') = m w in
    elim r [
      | ok a ↦ (ok a, w')
      | err e ↦ (err (record { message = message; controller = controller; error = e }), w')
    ]

-- `init`, which drops the errors of both calls.
unfoldable pub init_scheme : (schemes : SchemeLibrary) → schemes.Scheme
init_scheme schemes = schemes.core_add_to_scheme (add_to_scheme schemes schemes.new_scheme)

abbrev pub default_flags : Flags
default_flags = record { metrics_addr = str ":8080"; enable_leader_election = false }

abbrev created : {W E : Type 0} → Str → Io W E (Unit {0}) → Io W (Exit E) (Unit {0})
unfolding or_exit
created = or_exit (str "unable to create controller")

module _ {W E : Type 0} (schemes : SchemeLibrary) (lib : StartLibrary W E schemes.Scheme)
    (outside : Platform W E) where
  -- The manager's client is the one of each reconciler.
  unfoldable pub set_up_controllers : Str → Manager W E → Io W (Exit E) (Unit {0})
  unfolding or_exit
  set_up_controllers ns mgr = do
    let p = record outside { kube = mgr.client }
    _ ← created (str "Release") (setup_release p ns mgr)
    _ ← created (str "BaseImage") (setup_base_image p ns mgr)
    _ ← created (str "Team") (setup_team p ns mgr)
    _ ← created (str "Extension") (setup_extension p ns mgr)
    _ ← created (str "AZ") (setup_az p ns mgr)
    _ ← created (str "Network") (setup_network p ns mgr)
    _ ← created (str "Director") (setup_director p ns mgr)
    _ ← created (str "Compilation") (setup_compilation p ns mgr)
    created (str "Deployment") (setup_deployment p ns mgr)

  unfoldable pub main : Io W (Exit E) (Unit {0})
  unfolding set_up_controllers or_exit init_scheme
  main = do
    flags ← lib.parse_flags default_flags
    bosh_system_namespace ← λ w. (ok (lib.getenv (str "BOSH_SYSTEM_NAMESPACE") w), w)
    config ← lib.get_config_or_die
    mgr ← or_exit (str "unable to start manager") [] (
        lib.new_manager config (record {
          scheme = init_scheme schemes;
          metrics_bind_address = flags.metrics_addr;
          leader_election = flags.enable_leader_election;
        }))
    _ ← set_up_controllers bosh_system_namespace mgr
    or_exit (str "problem running manager") [] mgr.start
