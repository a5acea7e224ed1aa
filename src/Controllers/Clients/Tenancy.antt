-- ===== src/Controllers/Clients/Tenancy.antt =====
-- Whose credentials `boshClientForNamespace` of controllers/common.go uses.
use boshv.Base.{◌≡◌, ◌≢◌, refl, sym, ap, ◌∙◌, List, [], ◌∷◌, Result, ok, err, Str, Io, ◌>>=◌, arith}
use boshv.Base.Lists.{All}
use boshv.Base.Outcome.{Ensures, after_return}
use boshv.Api.Types.{Team, Director, name, namespace}
use boshv.Api.Base32.{Bytes}
use boshv.Api.Helpers.Names.{Without}
use boshv.Api.InternalNames.{client_name_injective}
use boshv.Api.Team as ApiTeam
use boshv.Kube.{Secret}
use boshv.Remote.BoshClient.{BoshClient, new_bosh_client}
use boshv.Controllers.Platform.{Platform}
use boshv.Controllers.Clients.{bosh_access, only_team, bosh_client_for_namespace}

-- What returned has returned at each step.
bind_returns :
    {W E A B : Type 0} (m : Io W E A) (f : A → Io W E B) (w w' : W) (b : B)
    → (m >>= f) w ≡ (ok b, w')
    → (a : A) × (w1 : W) × (m w ≡ (ok a, w1)) × (f a w1 ≡ (ok b, w'))
bind_returns {W} {E} {A} {B} m f w w' b = go (m w) refl
  where
    go :
        (r : Result E A × W)
        → m w ≡ r
        → ◌≡◌ {A = Result E B × W}
            (elim (r.0) [ ok a ↦ f a (r.1) | err e ↦ (err e, r.1) ])
            (ok b, w')
        → (a : A) × (w1 : W) × (m w ≡ (ok a, w1)) × (f a w1 ≡ (ok b, w'))
    go (ok a, w1) e h = (a, w1, e, h)
    go (err x, w1) e h = ground arith

module _ {W E : Type 0} (p : Platform W E) (bosh_system_namespace : Str) where
  only_team-returns :
      (teams : List Team) (w w' : W) (team : Team)
      → only_team p bosh_system_namespace teams w ≡ (ok team, w')
      → (teams ≡ team ∷ []) × (w ≡ w')
  unfolding only_team
  only_team-returns [] w w' team e = ground arith
  only_team-returns (t ∷ []) w w' team e = (cc, cc)
  only_team-returns (t ∷ u ∷ rest) w w' team e = ground arith

  -- The API server lists the teams of the namespace that it is asked for, under names as Kubernetes
  -- allows them: bytes, and no slash.
  abbrev pub ListsOwn : Type 0
  ListsOwn =
      (ns : Str) (w : W)
      → Ensures
          (λ teams _.
            All
              (λ t.
                (namespace t ≡ ns) × Bytes (name t) × Bytes (namespace t) × Without b'/' (name t))
              teams)
          (λ _. Unit) (p.kube.list_teams ns w)

  -- The client of a namespace is made with the credentials of its only team, for the director of the
  -- BOSH system namespace that the team had first.
  abbrev pub Opened : Str → W → BoshClient W E → W → Team → Director → Secret → Type 0
  Opened ns w bc w' team director secret =
      (w1 : W) × (w2 : W) × (w3 : W) × (p.kube.list_teams ns w ≡ (ok (team ∷ []), w1))
      × (p.kube.secrets.get (ApiTeam.secret_namespace team) (ApiTeam.secret_name team) w1
          ≡ (ok secret, w2))
      × (p.kube.directors.get bosh_system_namespace team.status.original_director w2
          ≡ (ok director, w3))
      × (new_bosh_client p.bosh (bosh_access director team secret) w3 ≡ (ok bc, w'))

  -- The rest of `boshClientForNamespace` after each of its steps.
  abbrev for_secret : Team → Secret → Io W E (BoshClient W E)
  for_secret team secret = do
    director ← p.kube.directors.get bosh_system_namespace team.status.original_director
    new_bosh_client p.bosh (bosh_access director team secret)

  abbrev for_team : Team → Io W E (BoshClient W E)
  for_team team = do
    secret ← p.kube.secrets.get (ApiTeam.secret_namespace team) (ApiTeam.secret_name team)
    for_secret team secret

  abbrev for_teams : List Team → Io W E (BoshClient W E)
  for_teams teams = do team ← only_team p bosh_system_namespace teams; for_team team

  client-Opened :
      (ns : Str) (w w' : W) (bc : BoshClient W E)
      → bosh_client_for_namespace p bosh_system_namespace ns w ≡ (ok bc, w')
      → (team : Team) × (director : Director) × (secret : Secret) × Opened ns w bc w' team director
          secret
  unfolding bosh_client_for_namespace
  client-Opened ns w w' bc e =
      let (teams, w1, l, e1) = bind_returns (p.kube.list_teams ns) for_teams w w' bc e in
      let (team, w1', o, e2) =
        bind_returns (only_team p bosh_system_namespace teams) for_team w1 w' bc e1 in
      let (secret, w2, s, e3) =
        bind_returns (p.kube.secrets.get (ApiTeam.secret_namespace team) (ApiTeam.secret_name team))
          (for_secret team) w1' w' bc e2 in
      let (director, w3, d, e4) =
        bind_returns (p.kube.directors.get bosh_system_namespace team.status.original_director)
          (λ director. new_bosh_client p.bosh (bosh_access director team secret)) w2 w' bc e3 in
      let one = only_team-returns teams w1 w1' team o in
      (
        team,
        director,
        secret,
        (
          w1,
          w2,
          w3,
          l ∙ ap (λ x. (ok x, w1)) one.0,
          ap (p.kube.secrets.get (ApiTeam.secret_namespace team) (ApiTeam.secret_name team)) one.1
              ∙ s,
          d,
          e4,
        ),
      )

  abbrev Owns : Str → Team → Type 0
  Owns ns t = (namespace t ≡ ns) × Bytes (name t) × Bytes (namespace t) × Without b'/' (name t)

  owner :
      ListsOwn
      → (ns : Str) (w w1 : W) (team : Team) → p.kube.list_teams ns w ≡ (ok (team ∷ []), w1)
      → Owns ns team
  owner own ns w w1 team e =
      (after_return (λ teams _. All (Owns ns) teams) (λ _. Unit) (p.kube.list_teams ns w) (own ns w)
        (ap (λ x. x.0) e)).0

  pub tenants_apart :
      ListsOwn
      → (ns ns' : Str) → ns ≢ ns'
      → (w w' v v' : W) (bc bc' : BoshClient W E)
      → bosh_client_for_namespace p bosh_system_namespace ns w ≡ (ok bc, w')
      → bosh_client_for_namespace p bosh_system_namespace ns' v ≡ (ok bc', v')
      → (team : Team) × (director : Director) × (secret : Secret) × (team' : Team)
        × (director' : Director) × (secret' : Secret) × Opened ns w bc w' team director secret
        × Opened ns' v bc' v' team' director' secret'
        × (namespace team ≡ ns)
        × (namespace team' ≡ ns')
        × ((bosh_access director team secret).uaa_client_name
            ≢ (bosh_access director' team' secret').uaa_client_name)
  unfolding bosh_access
  tenants_apart own ns ns' apart w w' v v' bc bc' e e' =
      let (team, director, secret, o) = client-Opened ns w w' bc e in
      let (team', director', secret', o') = client-Opened ns' v v' bc' e' in
      let k = owner own ns w o.0 team o.3 in
      let k' = owner own ns' v o'.0 team' o'.3 in
      (
        team,
        director,
        secret,
        team',
        director',
        secret',
        o,
        o',
        k.0,
        k'.0,
        λ same.
            apart (
              sym k.0
              ∙ (client_name_injective team team' k.1 k.2 k'.1 k'.2 k.3 k'.3 same).1
              ∙ k'.0),
      )
