-- ===== src/Controllers/Histories.antt =====
-- Histories of a cluster: the AZ controller of controllers/az_controller.go runs on any AZs in any
-- order, and others act between its runs.
pub mod Clients
pub mod Apart
pub mod Safety
use boshv.Base.{Bool, true, not, ◌&&◌, ◌≡◌, ◌≢◌, Option, [], ◌∷◌, Str, str}
use boshv.Base.Outcome.{Ensures}
use boshv.Base.Runs.{Any, Runs}
use boshv.Base.Lists.{All}
use boshv.Api.Types.{Team, Az, AzStatus, finalizers}
use boshv.Api.Helpers.{contains_string}
use boshv.Api.Helpers.Names.{Without, dashed}
use boshv.Api.Az.{az_finalizer}
use boshv.Kube.{Store}
use boshv.Remote.BoshClient.{BoshClient, DirectorApi, bosh_client_impl}
use boshv.Remote.BoshClient.CloudConfigs.{KeepsConfigs}
use boshv.Controllers.Platform.{Platform}
use boshv.Controllers.Bosh.Views.{Stored, Named, StoreLaws, is_some}
use boshv.Controllers.Reconcilers.{reconcile_az}

-- The name of an AZ's config.
abbrev pub key : Str → Str → Str
key ns nm = dashed (str "az") ns nm

module _ {W E : Type 0} (p : Platform W E) (bosh_system_namespace : Str)
    (configs : W → Str → Str → Option Str) (stored : W → Str → Str → Stored AzStatus)
    (home address : Str → Str) where
  abbrev pub Same : W → W → Type 0
  Same w w' = (configs w' ≡ configs w) × (stored w' ≡ stored w)

  -- The URL of the director of a namespace.
  abbrev pub site : Str → Str
  site ns = address (home ns)

  -- The configs at the URL `a`, and all else that is kept: the AZs, and the configs elsewhere.
  abbrev pub at : Str → W → Str → Option Str
  at a w = configs w a

  abbrev pub rest :
      (a : Str) → W → (Str → Str → Stored AzStatus) × ((b : Str) → b ≢ a → Str → Option Str)
  rest a w = (stored w, λ b _. configs w b)

  abbrev pub ActsAt : Str → DirectorApi W E → Type 0
  ActsAt a api = KeepsConfigs api (at a) (rest a)

  -- A client of BOSH over an API that keeps the configs at the URL `a`.
  abbrev pub Fits : Str → BoshClient W E → Type 0
  Fits a bc = (api : DirectorApi W E) × (bc ≡ bosh_client_impl api) × ActsAt a api

  -- The team, once its first director is saved, has the one of its namespace.
  abbrev pub Homes : Str → Team → Type 0
  Homes ns t = t.status.original_director ≢ [] → t.status.original_director ≡ home ns

  -- The API server holds an AZ at each place. It answers with what is there, a write of an AZ is a
  -- write at its own place and leaves every other alone, and reading changes nothing. The teams that a
  -- namespace ever has are for one director first, a director keeps its URL, and there is no director
  -- without a name. The API that the library makes from a config acts on the director at the URL that
  -- the config was parsed from, and on no other.
  pub record Cluster (aim : p.bosh.DirectorConfig → Str) : Type 0 where
    pub places : (a ns nm : Str) → StoreLaws p.kube.azs (at a) (λ w. stored w ns nm) ns nm
    pub updates_apart :
        (ns nm : Str) (o : Az) (w : W)
        → (Named ns nm o → ⊥)
        → Ensures
            (λ _ w'. stored w' ns nm ≡ stored w ns nm)
            (λ w'. stored w' ns nm ≡ stored w ns nm)
            (p.kube.azs.update o w)
    pub updates_status_apart :
        (ns nm : Str) (o : Az) (w : W)
        → (Named ns nm o → ⊥)
        → Ensures
            (λ _ w'. stored w' ns nm ≡ stored w ns nm)
            (λ w'. stored w' ns nm ≡ stored w ns nm)
            (p.kube.azs.update_status o w)
    pub gets :
        (ns nm : Str) (w : W)
        → Ensures
            (λ o w'. (Named ns nm o × (finalizers o ≡ (stored w ns nm).0)) × Same w w')
            (Same w)
            (p.kube.azs.get ns nm w)
    pub lists_teams : (ns : Str) → Runs Same Same (All (Homes ns)) (p.kube.list_teams ns)
    pub gets_secret : (ns nm : Str) → Runs Same Same Any (p.kube.secrets.get ns nm)
    pub gets_director :
        (nm : Str)
        → Runs Same Same
            (λ d. (nm ≢ []) × (d.spec.url ≡ address nm))
            (p.kube.directors.get bosh_system_namespace nm)
    pub parses_uaa : (url : Str) → Runs Same Same Any (p.bosh.uaa_config_from_url url)
    pub makes_uaa : (c : p.bosh.UaaConfig) → Runs Same Same Any (p.bosh.new_uaa c)
    pub parses_director :
        (url : Str) → Runs Same Same (λ c. aim c ≡ url) (p.bosh.director_config_from_url url)
    pub keeps_aim :
        (c : p.bosh.DirectorConfig) (ca_cert : Str) (uaa : p.bosh.Uaa)
        → aim (p.bosh.set_director_config c ca_cert uaa) ≡ aim c
    pub makes_director :
        (c : p.bosh.DirectorConfig) → Runs Same Same (ActsAt (aim c)) (p.bosh.new_director c)

  abbrev pub exists : Str → Str → W → Bool
  exists ns nm w = is_some (configs w (site ns) (key ns nm))

  abbrev pub guarded : Str → Str → W → Bool
  guarded ns nm w = contains_string (stored w ns nm).0 az_finalizer

  -- What users and other programs do: they write no config of an AZ, and leave our finalizer on it.
  abbrev pub Outside : W → W → Type 0
  Outside w w' =
      (ns nm : Str)
      → (exists ns nm w' ≡ true → exists ns nm w ≡ true)
        × (guarded ns nm w ≡ true → guarded ns nm w' ≡ true)

  -- A history from `w`. The namespaces have no dash.
  pub data History (w : W) : W → Type 0 where
    start : History w w
    reconciled :
        {w1 w2 : W}
        → History w w1
        → (ns nm : Str) → Without b'-' ns
        → (reconcile_az p bosh_system_namespace (record { namespace = ns; name = nm }) w1).1 ≡ w2
        → History w w2
    elsewhere : {w1 w2 : W} → History w w1 → Outside w1 w2 → History w w2
