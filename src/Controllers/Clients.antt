-- ===== src/Controllers/Clients.antt =====
-- The clients for BOSH and UAA that a reconciler acts through: `boshClientForNamespace` and
-- `boshClientForDirector` of controllers/common.go, `uaaAdminForDirector` of
-- controllers/team_controller.go. The log calls are left out.
pub mod Calls
pub mod Tenancy
use boshv.Base.{[], ◌∷◌, ◌++◌, List, Str, str, Io, raise, pure, ◌>>=◌}
use boshv.Base.Lists.{length}
use boshv.Base.Decimal.{decimal}
use boshv.Api.Types.{Team, Director, name, namespace}
use boshv.Api.Team as ApiTeam
use boshv.Api.Director as ApiDirector
use boshv.Kube.{Secret}
use boshv.Remote.BoshClient.{BoshClient, BoshAccess, new_bosh_client}
use boshv.Remote.UaaClient.{UaaClient, new_uaa_client}
use boshv.Controllers.Platform.{Platform}

-- The arguments of both calls of `NewBOSHClient`.
unfoldable pub bosh_access : Director → Team → Secret → BoshAccess
bosh_access director team secret = record {
  url = director.spec.url;
  ca_cert = director.spec.ca_cert;
  uaa_url = director.spec.uaa_url;
  uaa_client_name = ApiTeam.client_name team;
  uaa_client_secret = secret.secret;
  uaa_ca_cert = director.spec.uaa_ca_cert;
}

module _ {W E : Type 0} (p : Platform W E) (bosh_system_namespace : Str) where
  -- One team is expected.
  unfoldable pub only_team : List Team → Io W E Team
  only_team [] = raise (p.errors.new_error (str "No team assigned to namespace"))
  only_team (team ∷ []) = pure team
  only_team (team ∷ other ∷ rest) = raise (
      p.errors.new_error
        (str "Found " ++ (decimal (length (team ∷ other ∷ rest)) ++ str " teams in namespace")))

  unfoldable pub bosh_client_for_namespace : Str → Io W E (BoshClient W E)
  unfolding only_team bosh_access
  bosh_client_for_namespace ns = do
    teams ← p.kube.list_teams ns
    team ← only_team teams
    secret ← p.kube.secrets.get (ApiTeam.secret_namespace team) (ApiTeam.secret_name team)
    director ← p.kube.directors.get bosh_system_namespace team.status.original_director
    new_bosh_client p.bosh (bosh_access director team secret)

  unfoldable pub bosh_client_for_director : Str → Io W E (BoshClient W E)
  unfolding bosh_access
  bosh_client_for_director director_name = do
    director ← p.kube.directors.get bosh_system_namespace director_name
    let t = ApiDirector.team director
    team ← p.kube.teams.get (namespace t) (name t)
    secret ← p.kube.secrets.get (ApiTeam.secret_namespace team) (ApiTeam.secret_name team)
    new_bosh_client p.bosh (bosh_access director team secret)

  unfoldable pub uaa_admin_for_director : Str → Io W E (UaaClient W E)
  uaa_admin_for_director director_name = do
    director ← p.kube.directors.get bosh_system_namespace director_name
    director_secret ← p.kube.secrets.get bosh_system_namespace director.spec.uaa_client_secret
    new_uaa_client p.uaa (record {
      url = director.spec.uaa_url;
      client_name = director.spec.uaa_client;
      client_secret = director_secret.secret;
      ca_cert = director.spec.uaa_ca_cert;
    })
