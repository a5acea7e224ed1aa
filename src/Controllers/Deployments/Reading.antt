-- ===== src/Controllers/Deployments/Reading.antt =====
-- `resolveReferences` of api/v1/deployment_types.go only reads: all that it does to the world is what
-- it does to it to look up an object.
use boshv.Base.{List, [], ◌∷◌, Str, str_discrete, Io, pure, ◌>>=◌, for_each}
use boshv.Base.Maps.{assign}
use boshv.Base.Outcome.{Keeps, Keeps-bind, Keeps-for_each}
use boshv.Api.Types.{Deployment, Container, ImportedConfiguration, Role, Release, namespace}
use boshv.Api.Az as ApiAz
use boshv.Api.Extension as ApiExtension
use boshv.Api.Deployment.Manifest.{
  add_release, collect_releases, releases, stemcell, resolve_az, resolve_extension, instance_group,
  resolve_references, stemcell_alias,
}
use boshv.Api.Network as ApiNetwork
use boshv.Api.Deployment.Manifest.Steps.{
  group, with_azs, with_jobs, with_extensions, manifest, with_stemcell, with_releases,
}
use boshv.Api.Deployment.Manifest.Jobs.{internal_name, release_of, consumes, provides, resolve_job}
use boshv.Kube.{Kube}
use boshv.Remote.Config
use boshv.Remote.Config.{ConsumesLink}

module _ {W E : Type 0} (kube : Kube W E) (R : W → W → Type 0) (R_refl : (w : W) → R w w)
    (R_trans : (w w' w'' : W) → R w w' → R w' w'' → R w w'') where
  abbrev pub Reads : {A : Type 0} → Io W E A → Type 0
  Reads = Keeps R R_refl R_trans

  -- Of each kind that a deployment refers to.
  pub record ReadsKube : Type 0 where
    pub azs : (namespace name : Str) → Reads (kube.azs.get namespace name)
    pub extensions : (namespace name : Str) → Reads (kube.extensions.get namespace name)
    pub networks : (namespace name : Str) → Reads (kube.networks.get namespace name)
    pub releases : (namespace name : Str) → Reads (kube.releases.get namespace name)
    pub base_images : (namespace name : Str) → Reads (kube.base_images.get namespace name)
    pub roles : (namespace name : Str) → Reads (kube.roles.get namespace name)
    pub deployments : (namespace name : Str) → Reads (kube.deployments.get namespace name)

  abbrev then_ :
      {A B : Type 0} (m : Io W E A) (f : A → Io W E B)
      → Reads m
      → ((a : A) → Reads (f a))
      → Reads (m >>= f)
  then_ = Keeps-bind R R_refl R_trans

  abbrev each :
      {A B : Type 0} (f : A → Io W E B) (xs : List A)
      → ((x : A) → Reads (f x))
      → Reads (for_each f xs)
  each = Keeps-for_each R R_refl R_trans

  abbrev version_of : Release → Config.Release
  version_of release = record {
    name = release.status.original_spec.release_name;
    version = release.status.original_spec.version;
  }

  module _ (law : ReadsKube) where
    release_of-Reads : (d : Deployment) (c : Container) → Reads (release_of kube d c)
    unfolding release_of
    release_of-Reads d c =
        then_ (kube.roles.get (namespace d) c.role) with_role (law.roles _ _) λ role.
          then_ (kube.releases.get (namespace d) role.spec.source.release)
            (λ release. pure (role, release)) (law.releases _ _) λ release w. R_refl w
      where
        with_role : Role → Io W E (Role × Release)
        with_role role = do
          release ← kube.releases.get (namespace d) role.spec.source.release
          pure (role, release)

    collect_releases-Reads :
        (d : Deployment) (unique : List Config.Release) (cs : List Container)
        → Reads (collect_releases kube d unique cs)
    unfolding collect_releases
    collect_releases-Reads d unique [] w = R_refl w
    collect_releases-Reads d unique (c ∷ cs) w =
        then_ (release_of kube d c)
          (λ r. collect_releases kube d (add_release (version_of r.1) unique) cs)
          (release_of-Reads d c)
          (λ r. collect_releases-Reads d (add_release (version_of r.1) unique) cs) w

    consumes-Reads :
        (d : Deployment) (is : List (Str × ImportedConfiguration))
        (links : List (Str × ConsumesLink))
        → Reads (consumes kube d is links)
    unfolding consumes
    consumes-Reads d [] links w = R_refl w
    consumes-Reads d ((external_link, configuration) ∷ rest) links w =
        then_ (kube.deployments.get (namespace d) configuration.imported_from)
          (λ d2. consumes kube d rest (
            assign str_discrete configuration.internal_link
              (record { from = external_link; deployment = internal_name d2 }) links))
          (law.deployments _ _)
          (λ d2. consumes-Reads d rest (
            assign str_discrete configuration.internal_link
              (record { from = external_link; deployment = internal_name d2 }) links))
          w

    resolve_job-Reads : (d : Deployment) (c : Container) → Reads (resolve_job kube d c)
    unfolding resolve_job
    resolve_job-Reads d c =
        then_ (release_of kube d c) (λ r. with_release r.0 r.1) (release_of-Reads d c)
          λ r.
            then_ (consumes kube d c.imported_configuration []) (λ links. pure (job r.0 r.1 links))
              (consumes-Reads d c.imported_configuration []) λ links w. R_refl w
      where
        job : Role → Release → List (Str × ConsumesLink) → Config.Job
        job role release links = record {
          name = role.spec.source.job;
          release = release.status.original_spec.release_name;
          consumes = links;
          provides = provides c.exported_configuration [];
          properties = role.spec.properties;
        }

        with_release : Role → Release → Io W E Config.Job
        with_release role release = do
          links ← consumes kube d c.imported_configuration []
          pure (job role release links)

    resolve_az-Reads : (d : Deployment) (a : Str) → Reads (resolve_az kube d a)
    unfolding resolve_az
    resolve_az-Reads d a =
        then_ (kube.azs.get (namespace d) a) (λ az. pure (ApiAz.internal_name az)) (law.azs _ _)
          λ az w. R_refl w

    resolve_extension-Reads : (d : Deployment) (x : Str) → Reads (resolve_extension kube d x)
    unfolding resolve_extension
    resolve_extension-Reads d x =
        then_ (kube.extensions.get (namespace d) x) (λ x. pure (ApiExtension.internal_name x))
          (law.extensions _ _) λ x w. R_refl w

    instance_group-Reads : (d : Deployment) → Reads (instance_group kube d)
    unfolding instance_group
    instance_group-Reads d =
        then_ (for_each (resolve_az kube d) d.spec.azs) (with_azs kube d)
          (each (resolve_az kube d) d.spec.azs (resolve_az-Reads d))
          λ azs.
            then_ (for_each (resolve_job kube d) d.spec.containers) (with_jobs kube d azs)
              (each (resolve_job kube d) d.spec.containers (resolve_job-Reads d))
              λ jobs.
                then_ (for_each (resolve_extension kube d) d.spec.extensions)
                  (with_extensions kube d azs jobs)
                  (each (resolve_extension kube d) d.spec.extensions (resolve_extension-Reads d))
                  λ extensions.
                    then_ (kube.networks.get (namespace d) d.spec.network)
                      (λ network.
                        pure (group d azs jobs extensions (ApiNetwork.internal_name network)))
                      (law.networks _ _) λ network w. R_refl w

    releases-Reads :
        (range_releases : List Config.Release → List Config.Release) (d : Deployment)
        → Reads (releases kube range_releases d)
    unfolding releases
    releases-Reads range_releases d =
        then_ (collect_releases kube d [] d.spec.containers)
          (λ unique. pure (range_releases unique)) (collect_releases-Reads d [] d.spec.containers)
          λ unique w. R_refl w

    stemcell-Reads : (d : Deployment) → Reads (stemcell kube d)
    unfolding stemcell
    stemcell-Reads d =
        then_ (kube.base_images.get (namespace d) d.spec.base_image)
          (λ base_image. pure (record {
            alias = stemcell_alias;
            name = base_image.status.original_spec.base_image_name;
            version = base_image.status.original_spec.version;
          }))
          (law.base_images _ _) λ base_image w. R_refl w

    pub resolve_references-Reads :
        (range_releases : List Config.Release → List Config.Release) (d : Deployment)
        → Reads (resolve_references kube range_releases d)
    unfolding resolve_references
    resolve_references-Reads range_releases d =
        then_ (releases kube range_releases d) (with_releases kube d)
          (releases-Reads range_releases d)
          λ rs. then_ (stemcell kube d) (with_stemcell kube d rs) (stemcell-Reads d) λ s.
            then_ (instance_group kube d) (λ ig. pure (manifest d rs s ig)) (instance_group-Reads d)
              λ ig w. R_refl w
