-- ===== src/Controllers/Histories/Clients.antt =====
-- The client that `boshClientForNamespace` of controllers/common.go makes is one of the director of the
-- namespace.
use boshv.Base.{◌≡◌, ◌≢◌, refl, ap, subst, ◌∙◌, Option, List, [], ◌∷◌, Str, pure}
use boshv.Base.Lists.{All}
use boshv.Base.Runs.{Chains, Any, Runs, Runs-bind}
use boshv.Api.Types.{AzStatus, Team}
use boshv.Api.Team as ApiTeam
use boshv.Remote.BoshClient.{BoshClient, BoshAccess, bosh_client_impl, new_bosh_client}
use boshv.Controllers.Platform.{Platform}
use boshv.Controllers.Bosh.Views.{Stored}
use boshv.Controllers.Clients.{bosh_access, only_team, bosh_client_for_namespace}
use boshv.Controllers.Histories.{Same, ActsAt, Fits, Homes, Cluster}

module _ {W E : Type 0} (p : Platform W E) (bosh_system_namespace : Str)
    (configs : W → Str → Str → Option Str) (stored : W → Str → Str → Stored AzStatus)
    (home address : Str → Str) (aim : p.bosh.DirectorConfig → Str)
    (cluster : Cluster p bosh_system_namespace configs stored home address aim) where
  abbrev Still : W → W → Type 0
  Still = Same p bosh_system_namespace configs stored home address

  abbrev FitsAt : Str → BoshClient W E → Type 0
  FitsAt = Fits p bosh_system_namespace configs stored home address

  still : Chains Still Still
  still = record {
    still = λ w. (refl, refl);
    both_return = λ w w' w'' u u'. (u'.0 ∙ u.0, u'.1 ∙ u.1);
    then_fails = λ w w' w'' u u'. (u'.0 ∙ u.0, u'.1 ∙ u.1);
  }

  new_bosh_client-Fits :
      (a : BoshAccess) → Runs Still Still (FitsAt a.url) (new_bosh_client p.bosh a)
  unfolding new_bosh_client
  new_bosh_client-Fits a =
      Runs-bind Still Still still Any (FitsAt a.url) (p.bosh.uaa_config_from_url a.uaa_url) _
        (cluster.parses_uaa a.uaa_url)
        λ c _.
          Runs-bind Still Still still Any (FitsAt a.url)
            (p.bosh.new_uaa
              (p.bosh.set_uaa_config c a.uaa_client_name a.uaa_client_secret a.uaa_ca_cert))
            _ (cluster.makes_uaa _)
            λ uaa _.
              Runs-bind Still Still still (λ d. aim d ≡ a.url) (FitsAt a.url)
                (p.bosh.director_config_from_url a.url) _ (cluster.parses_director a.url)
                λ d aims.
                  let c' = p.bosh.set_director_config d a.ca_cert uaa in
                  Runs-bind Still Still still
                    (ActsAt p bosh_system_namespace configs stored home address (aim c'))
                    (FitsAt a.url) (p.bosh.new_director c') (λ api. pure (bosh_client_impl api))
                    (cluster.makes_director c')
                    λ api acts w. (
                      (
                        api,
                        refl,
                        subst
                            (λ u. ActsAt p bosh_system_namespace configs stored home address u api)
                            (cluster.keeps_aim d a.ca_cert uaa ∙ aims) acts,
                      ),
                      still.still w,
                    )

  only_team-Homes :
      (ns : Str) (teams : List Team)
      → All (Homes p bosh_system_namespace configs stored home address ns) teams
      → Runs Still Still
          (Homes p bosh_system_namespace configs stored home address ns)
          (only_team p bosh_system_namespace teams)
  unfolding only_team
  only_team-Homes ns [] h w = (refl, refl)
  only_team-Homes ns (team ∷ []) h w = (h.0, (refl, refl))
  only_team-Homes ns (team ∷ other ∷ more) h w = (refl, refl)

  pub client-Fits :
      (ns : Str)
      → Runs Still Still
          (FitsAt (address (home ns)))
          (bosh_client_for_namespace p bosh_system_namespace ns)
  unfolding bosh_client_for_namespace
  client-Fits ns =
      let Good = FitsAt (address (home ns)) in
      Runs-bind Still Still still
        (All (Homes p bosh_system_namespace configs stored home address ns)) Good
        (p.kube.list_teams ns) _ (cluster.lists_teams ns)
        λ teams homes.
          Runs-bind Still Still still (Homes p bosh_system_namespace configs stored home address ns)
            Good (only_team p bosh_system_namespace teams) _ (only_team-Homes ns teams homes)
            λ team at_home.
              Runs-bind Still Still still Any Good
                (p.kube.secrets.get (ApiTeam.secret_namespace team) (ApiTeam.secret_name team)) _
                (cluster.gets_secret _ _)
                λ secret _.
                  Runs-bind Still Still still
                    (λ d.
                      (team.status.original_director ≢ [])
                      × (d.spec.url ≡ address team.status.original_director))
                    Good (p.kube.directors.get bosh_system_namespace team.status.original_director)
                    _ (cluster.gets_director team.status.original_director)
                    λ director there.
                      subst
                        (λ u.
                          Runs Still Still (FitsAt u)
                            (new_bosh_client p.bosh (bosh_access director team secret)))
                        (there.1 ∙ ap address (at_home there.0))
                        (new_bosh_client-Fits (bosh_access director team secret))
