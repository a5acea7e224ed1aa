-- ===== src/Controllers/Clients/Calls.antt =====
-- What the calls of `boshClientForNamespace` of controllers/common.go do, one after the other.
use boshv.Base.{List, Str, pure}
use boshv.Base.Runs.{Chains, Any, Runs, Runs-bind}
use boshv.Api.Types.{Team, namespace, name}
use boshv.Api.Director as ApiDirector
use boshv.Api.Team as ApiTeam
use boshv.Remote.BoshClient.{BoshClient, BoshAccess, bosh_client_impl, new_bosh_client}
use boshv.Controllers.Platform.{Platform}
use boshv.Controllers.Clients.{
  bosh_access, only_team, bosh_client_for_namespace, bosh_client_for_director,
}

module _ {W E : Type 0} (p : Platform W E) (bosh_system_namespace ns : Str) (R F : W → W → Type 0)
    (Teams : List Team → Type 0) (Fits : BoshClient W E → Type 0) where
  -- Each call runs well, and a director's API makes a client that fits.
  pub record Opens : Type 0 where
    pub lists_teams : Runs R F Teams (p.kube.list_teams ns)
    pub chooses :
        (teams : List Team) → Teams teams → Runs R F Any (only_team p bosh_system_namespace teams)
    pub gets_secret : (namespace name : Str) → Runs R F Any (p.kube.secrets.get namespace name)
    pub gets_director : (namespace name : Str) → Runs R F Any (p.kube.directors.get namespace name)
    pub parses_uaa : (url : Str) → Runs R F Any (p.bosh.uaa_config_from_url url)
    pub makes_uaa : (c : p.bosh.UaaConfig) → Runs R F Any (p.bosh.new_uaa c)
    pub parses_director : (url : Str) → Runs R F Any (p.bosh.director_config_from_url url)
    pub makes_director :
        (c : p.bosh.DirectorConfig)
        → Runs R F (λ api. Fits (bosh_client_impl api)) (p.bosh.new_director c)

  module _ (chains : Chains R F) (opens : Opens) where
    new_bosh_client-Runs : (a : BoshAccess) → Runs R F Fits (new_bosh_client p.bosh a)
    unfolding new_bosh_client
    new_bosh_client-Runs a =
        Runs-bind R F chains Any Fits (p.bosh.uaa_config_from_url a.uaa_url) _ (opens.parses_uaa _)
          λ c _.
            Runs-bind R F chains Any Fits
              (p.bosh.new_uaa
                (p.bosh.set_uaa_config c a.uaa_client_name a.uaa_client_secret a.uaa_ca_cert))
              _ (opens.makes_uaa _)
              λ uaa _.
                Runs-bind R F chains Any Fits (p.bosh.director_config_from_url a.url) _
                  (opens.parses_director _)
                  λ d _.
                    Runs-bind R F chains (λ api. Fits (bosh_client_impl api)) Fits
                      (p.bosh.new_director (p.bosh.set_director_config d a.ca_cert uaa))
                      (λ api. pure (bosh_client_impl api)) (opens.makes_director _)
                      λ api fits w. (fits, chains.still w)

    pub client-Runs : Runs R F Fits (bosh_client_for_namespace p bosh_system_namespace ns)
    unfolding bosh_client_for_namespace
    client-Runs =
        Runs-bind R F chains Teams Fits (p.kube.list_teams ns) _ opens.lists_teams λ teams few.
          Runs-bind R F chains Any Fits (only_team p bosh_system_namespace teams) _
            (opens.chooses teams few)
            λ team _.
              Runs-bind R F chains Any Fits
                (p.kube.secrets.get (ApiTeam.secret_namespace team) (ApiTeam.secret_name team)) _
                (opens.gets_secret _ _)
                λ secret _.
                  Runs-bind R F chains Any Fits
                    (p.kube.directors.get bosh_system_namespace team.status.original_director) _
                    (opens.gets_director _ _)
                    λ director _. new_bosh_client-Runs (bosh_access director team secret)

    pub director-Runs :
        ((namespace name : Str) → Runs R F Any (p.kube.teams.get namespace name))
        → (director_name : Str)
        → Runs R F Fits (bosh_client_for_director p bosh_system_namespace director_name)
    unfolding bosh_client_for_director
    director-Runs gets_team director_name =
        Runs-bind R F chains Any Fits (p.kube.directors.get bosh_system_namespace director_name) _
          (opens.gets_director _ _)
          λ director _.
            Runs-bind R F chains Any Fits
              (p.kube.teams.get (namespace (ApiDirector.team director))
                (name (ApiDirector.team director)))
              _ (gets_team _ _)
              λ team _.
                Runs-bind R F chains Any Fits
                  (p.kube.secrets.get (ApiTeam.secret_namespace team) (ApiTeam.secret_name team)) _
                  (opens.gets_secret _ _)
                  λ secret _. new_bosh_client-Runs (bosh_access director team secret)
