-- ===== src/Api/Deployment/Manifest/Links.antt =====
-- The links of a job in the manifest: the loops over `ImportedConfiguration` and
-- `ExportedConfiguration` in `instanceGroup` of api/v1/deployment_types.go.
use boshv.Base.{
  ◌≡◌, refl, ap, ◌∙◌, Option, none, some, List, [], ◌∷◌, Str, str, str_discrete, ◌==◌,
  if◌then◌else◌, pure, arith,
}
use boshv.Base.Maps.{assign, lookup}
use boshv.Base.Outcome.{Ensures, after_bind, weaken}
use boshv.Api.Types.{
  Deployment, Container, ExportedConfiguration, ImportedConfiguration, Role, Release, name,
  namespace,
}
use boshv.Api.Helpers.Names.{dashed}
use boshv.Api.Deployment.Manifest.Jobs.{internal_name, provides, release_of, consumes, resolve_job}
use boshv.Api.Deployment.Manifest.References.{Anything, Answers, after_any}
use boshv.Kube.{Kube}
use boshv.Remote.Config
use boshv.Remote.Config.{ConsumesLink, ProvidesLink}

abbrev pub or_else : {A : Type 0} → Option A → Option A → Option A
or_else (some a) _ = some a
or_else none b = b

module _ {C V : Type 0} (internal : C → Str) (make : Str → C → V) where
  -- The link that the last entry with this internal link makes.
  unfoldable pub last_link : Str → List (Str × C) → Option V
  last_link k [] = none
  last_link k ((external, c) ∷ rest) =
      or_else (last_link k rest) (if k == internal c then some (make external c) else none)

lookup-assign :
    {V : Type 0} (k j : Str) (v : V) (m : List (Str × V))
    → lookup str_discrete k (assign str_discrete j v m)
      ≡ (if k == j then some v else lookup str_discrete k m)
unfolding assign lookup
lookup-assign k j v [] = ground arith
lookup-assign k j v ((i, u) ∷ m) = ground (arith, lookup-assign k j v m)

assigned :
    {V : Type 0} (k j : Str) (v : V) (m : List (Str × V)) (later : Option V)
    → or_else later (lookup str_discrete k (assign str_discrete j v m))
      ≡ or_else (or_else later (if k == j then some v else none)) (lookup str_discrete k m)
assigned k j v m (some u) = refl
assigned k j v m none = ground (arith, lookup-assign k j v m)

-- What an exported configuration provides, and what an imported one of namespace `ns` consumes.
abbrev pub provided : Str → ExportedConfiguration → ProvidesLink
provided external c = record { link_name = external; shared = c.exported }

abbrev pub consumed : Str → Str → ImportedConfiguration → ConsumesLink
consumed ns external c = record {
  from = external;
  deployment = dashed (str "deployment") ns c.imported_from;
}

provides-last_link :
    (k : Str) (entries : List (Str × ExportedConfiguration)) (links : List (Str × ProvidesLink))
    → lookup str_discrete k (provides entries links)
      ≡ or_else (last_link (λ c. c.internal_link) provided k entries) (lookup str_discrete k links)
unfolding provides last_link
provides-last_link k [] links = refl
provides-last_link k ((external, c) ∷ rest) links =
    provides-last_link k rest _ ∙ assigned k c.internal_link (provided external c) links _

module _ {W E : Type 0} (kube : Kube W E) (d : Deployment)
    (deployments : Answers kube kube.deployments) where
  -- Each internal link is looked up as the last entry for it, or as in the links so far.
  abbrev Imports :
      List (Str × ImportedConfiguration)
      → List (Str × ConsumesLink)
      → List (Str × ConsumesLink)
      → Type 0
  Imports entries links all =
      (k : Str)
      → lookup str_discrete k all
        ≡ or_else (last_link (λ c. c.internal_link) (consumed (namespace d)) k entries)
            (lookup str_discrete k links)

  internal_name-dashed :
      (d2 : Deployment) (nm : Str)
      → (namespace d2 ≡ namespace d) × (name d2 ≡ nm)
      → internal_name d2 ≡ dashed (str "deployment") (namespace d) nm
  unfolding internal_name
  internal_name-dashed d2 nm m = cc (m.0, m.1)

  consumes-last_link :
      (entries : List (Str × ImportedConfiguration)) (links : List (Str × ConsumesLink)) (w : W)
      → Ensures
          (λ all _. Imports entries links all)
          (Anything kube)
          (consumes kube d entries links w)
  unfolding consumes last_link
  consumes-last_link [] links w = λ k. refl
  consumes-last_link ((external, c) ∷ rest) links w =
      after_bind (λ d2 _. (namespace d2 ≡ namespace d) × (name d2 ≡ c.imported_from))
        (λ all _. Imports ((external, c) ∷ rest) links all) (Anything kube) (Anything kube)
        (kube.deployments.get (namespace d) c.imported_from) _ w
        (deployments (namespace d) c.imported_from w) (λ w' u. u)
        λ d2 w1 m.
          let link : Str → ConsumesLink = λ nm. record { from = external; deployment = nm } in
          weaken
            (λ all _.
              Imports rest (assign str_discrete c.internal_link (link (internal_name d2)) links)
                all)
            (λ all _. Imports ((external, c) ∷ rest) links all) (Anything kube) (Anything kube)
            (consumes kube d rest
              (assign str_discrete c.internal_link (link (internal_name d2)) links) w1)
            (consumes-last_link rest
              (assign str_discrete c.internal_link (link (internal_name d2)) links) w1)
            (λ all w2 h k.
              h k
              ∙ ap
                  (λ nm.
                    or_else (last_link (λ c. c.internal_link) (consumed (namespace d)) k rest)
                      (lookup str_discrete k (assign str_discrete c.internal_link (link nm) links)))
                  (internal_name-dashed d2 c.imported_from m)
              ∙ assigned k c.internal_link (consumed (namespace d) external c) links
                  (last_link (λ c. c.internal_link) (consumed (namespace d)) k rest))
            (λ w' u. u)

  none_before : {V : Type 0} (found : Option V) → or_else found none ≡ found
  none_before none = refl
  none_before (some v) = refl

  abbrev job_of : Container → Role × Release → List (Str × ConsumesLink) → Config.Job
  job_of container (role, release) links = record {
    name = role.spec.source.job;
    release = release.status.original_spec.release_name;
    consumes = links;
    provides = provides container.exported_configuration [];
    properties = role.spec.properties;
  }

  abbrev Linked : Container → Config.Job → Str → Type 0
  Linked container job k =
      (lookup str_discrete k job.consumes
        ≡ last_link (λ c. c.internal_link) (consumed (namespace d)) k
            container.imported_configuration)
      × (lookup str_discrete k job.provides
          ≡ last_link (λ c. c.internal_link) provided k container.exported_configuration)

  -- If the API server `Answers` for deployments: the job of a container that resolves consumes, under
  -- each internal link, the link of the last imported entry for it, from the deployment of the same
  -- namespace that the entry names, by the name under which BOSH has that one; it provides, under each
  -- internal link, the link of the last exported entry for it; and it has no other links.
  pub job_links :
      (container : Container) (w : W)
      → Ensures
          (λ job _.
            (k : Str)
            → (lookup str_discrete k job.consumes
                ≡ last_link
                    (λ c. c.internal_link)
                    (consumed (namespace d))
                    k
                    container.imported_configuration)
              × (lookup str_discrete k job.provides
                  ≡ last_link (λ c. c.internal_link) provided k container.exported_configuration))
          (λ _. Unit)
          (resolve_job kube d container w)
  unfolding resolve_job lookup
  job_links container w =
      after_any kube (λ job _. (k : Str) → Linked container job k) (release_of kube d container) _ w
        λ found w1.
          after_bind (λ all _. Imports container.imported_configuration [] all)
            (λ job _. (k : Str) → Linked container job k) (Anything kube) (Anything kube)
            (consumes kube d container.imported_configuration [])
            (λ links. pure (job_of container found links)) w1
            (consumes-last_link container.imported_configuration [] w1) (λ w' u. u)
            λ all w2 h k. (
              h k ∙ none_before _,
              provides-last_link k container.exported_configuration [] ∙ none_before _,
            )
