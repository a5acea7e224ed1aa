-- ===== src/Tests/Tenants.antt =====
-- Two namespaces with a team of their own each.
use boshv.Base.{◌≡◌, ◌≢◌, refl, sym, List, [], ◌∷◌, Str, str, str_discrete, pure, arith}
use boshv.Api.Types.{Team, Director, AzStatus, name, namespace}
use boshv.Base.Lists.{All}
use boshv.Api.Base32.{Bytes}
use boshv.Api.Helpers.Names.{Without}
use boshv.Kube.{Secret}
use boshv.Remote.BoshClient.{bosh_client_impl, new_bosh_client}
use boshv.Controllers.Platform.{Platform}
use boshv.Controllers.Clients.{bosh_access, bosh_client_for_namespace, only_team}
use boshv.Controllers.Clients.Tenancy.{ListsOwn, Opened, tenants_apart}
use boshv.Tests.World.{World, director_api, meta}
use boshv.Tests.Bosh.{start}
use boshv.Tests.Uaa.{team}
use boshv.Tests.Controllers.{platform, az_kube}

abbrev team_of : Str → Team
team_of ns = record team { metadata = meta ns (str "t") [] }

abbrev a : Str
a = str "a"

abbrev b : Str
b = str "b"

abbrev teams : (ns : Str) → Dec (ns ≡ a) → Dec (ns ≡ b) → List Team
teams ns (yes _) _ = team_of a ∷ []
teams ns (no _) (yes _) = team_of b ∷ []
teams ns (no _) (no _) = []

abbrev tenants : Platform (World AzStatus) Str
tenants =
    platform (record az_kube {
      list_teams = λ ns. pure (teams ns (str_discrete ns a) (str_discrete ns b));
    })

owned :
    (ns : Str) (d : Dec (ns ≡ a)) (d' : Dec (ns ≡ b))
    → All
        (λ t. (namespace t ≡ ns) × Bytes (name t) × Bytes (namespace t) × Without b'/' (name t))
        (teams ns d d')
unfolding str
owned ns (yes e) d = ((sym e, ground arith, ground arith, ground arith), tt)
owned ns (no _) (yes e) = ((sym e, ground arith, ground arith, ground arith), tt)
owned ns (no _) (no _) = tt

own : ListsOwn tenants (str "system")
own ns w = owned ns (str_discrete ns a) (str_discrete ns b)

apart : a ≢ b
unfolding str
apart e = ground arith

tenants_apart_example :
    let bc = bosh_client_impl director_api in
    (t : Team) × (director : Director) × (secret : Secret) × (t' : Team) × (director' : Director)
    × (secret' : Secret) × Opened tenants (str "system") a start bc start t director secret
    × Opened tenants (str "system") b start bc start t' director' secret'
    × (namespace t ≡ a)
    × (namespace t' ≡ b)
    × ((bosh_access director t secret).uaa_client_name
        ≢ (bosh_access director' t' secret').uaa_client_name)
unfolding bosh_client_for_namespace only_team new_bosh_client str str_discrete
tenants_apart_example =
    tenants_apart tenants (str "system") own a b apart start start start start
      (bosh_client_impl director_api) (bosh_client_impl director_api) refl refl
