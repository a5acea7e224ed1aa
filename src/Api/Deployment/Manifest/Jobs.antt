-- ===== src/Api/Deployment/Manifest/Jobs.antt =====
-- The loop over the containers in `instanceGroup` of api/v1/deployment_types.go.
use boshv.Base.{[], ◌∷◌, List, Str, str, str_discrete, join, Io, pure, ◌>>=◌}
use boshv.Base.Maps.{assign}
use boshv.Api.Types.{
  Deployment, Container, ExportedConfiguration, ImportedConfiguration, Role, Release, name,
  namespace,
}
use boshv.Kube.{Kube}
use boshv.Remote.Config
use boshv.Remote.Config.{ConsumesLink, ProvidesLink}

unfoldable pub internal_name : Deployment → Str
internal_name d = join (str "-") (str "deployment" ∷ namespace d ∷ name d ∷ [])

-- The links that a container exports, by internal link.
unfoldable pub provides :
    List (Str × ExportedConfiguration) → List (Str × ProvidesLink) → List (Str × ProvidesLink)
provides [] links = links
provides ((external_link, configuration) ∷ rest) links = provides rest (
    assign str_discrete configuration.internal_link
      (record { link_name = external_link; shared = configuration.exported }) links)

module _ {W E : Type 0} (c : Kube W E) where
  -- The role of a container, and the release that the role names.
  unfoldable pub release_of : Deployment → Container → Io W E (Role × Release)
  release_of d container = do
    role ← c.roles.get (namespace d) container.role
    release ← c.releases.get (namespace d) role.spec.source.release
    pure (role, release)

  -- The links that a container imports, by internal link.
  unfoldable pub consumes :
      Deployment
      → List (Str × ImportedConfiguration)
      → List (Str × ConsumesLink)
      → Io W E (List (Str × ConsumesLink))
  consumes d [] links = pure links
  consumes d ((external_link, configuration) ∷ rest) links = do
    d2 ← c.deployments.get (namespace d) configuration.imported_from
    consumes d rest (
        assign str_discrete configuration.internal_link
          (record { from = external_link; deployment = internal_name d2 }) links)

  unfoldable pub resolve_job : Deployment → Container → Io W E Config.Job
  unfolding release_of consumes provides
  resolve_job d container = do
    (role, release) ← release_of d container
    links ← consumes d container.imported_configuration []
    pure (record {
      name = role.spec.source.job;
      release = release.status.original_spec.release_name;
      consumes = links;
      provides = provides container.exported_configuration [];
      properties = role.spec.properties;
    })
