-- ===== src/Api/Deployment/Manifest/Coverage.antt =====
-- The releases of the manifest that `resolveReferences` of api/v1/deployment_types.go makes against the
-- jobs of the same manifest.
use boshv.Base.{◌≡◌, refl, List, [], ◌∷◌, Str, Result, pure, for_each}
use boshv.Base.Lists.{All, length}
use boshv.Base.Outcome.{Ensures, after_bind}
use boshv.Api.Types.{Deployment, Container, Role, Release, namespace}
use boshv.Kube.{Kube}
use boshv.Remote.Config
use boshv.Api.Network as ApiNetwork
use boshv.Api.Deployment.Manifest.{
  collect_releases, releases, stemcell, resolve_az, resolve_extension, instance_group,
  resolve_references,
}
use boshv.Api.Deployment.Manifest.Jobs.{resolve_job}
use boshv.Api.Deployment.Manifest.Steps.{
  group, with_azs, with_jobs, with_extensions, manifest, with_stemcell, with_releases,
}
use boshv.Api.Deployment.Manifest.References.{after_any}
use boshv.Api.Deployment.Manifest.Releases.{
  In, Distinct, HasName, Covered, Collected, Jobs, Steady, collect_releases_lem, resolve_jobs_lem,
}

-- A range over a Go map meets each key, and none twice.
pub record Ranges (range : List Config.Release → List Config.Release) : Type 0 where
  pub meets : (rs : List Config.Release) (r : Config.Release) → In r rs → In r (range rs)
  pub once : (rs : List Config.Release) → Distinct rs → Distinct (range rs)

module _ {W E : Type 0} (c : Kube W E) (d : Deployment) (roles : Str → Result E Role)
    (releases_by_name : Str → Result E Release)
    (range_releases : List Config.Release → List Config.Release) where
  covers-ranged :
      Ranges range_releases
      → (rs : List Config.Release) (containers : List Container)
      → All (Covered c d roles releases_by_name rs) containers
      → All (Covered c d roles releases_by_name (range_releases rs)) containers
  unfolding Covered
  covers-ranged ranges rs [] h = tt
  covers-ranged ranges rs (container ∷ rest) ((role, release, e, e', m), h) =
      ((role, release, e, e', ranges.meets rs _ m), covers-ranged ranges rs rest h)

  module _ (steady : Steady c d roles releases_by_name) (ranges : Ranges range_releases) where
    abbrev Ready : List Config.Release → Type 0
    Ready rs = Distinct rs × All (Covered c d roles releases_by_name rs) d.spec.containers

    releases-Ready :
        (w : W) → Ensures (λ rs _. Ready rs) (λ _. Unit) (releases c range_releases d w)
    unfolding releases Collected
    releases-Ready w =
        after_bind (λ out _. Collected c d roles releases_by_name steady [] d.spec.containers out)
          (λ rs _. Ready rs) (λ _. Unit) (λ _. Unit) (collect_releases c d [] d.spec.containers)
          (λ unique. pure (range_releases unique)) w
          (collect_releases_lem c d roles releases_by_name steady [] d.spec.containers w tt)
          (λ _ _. tt)
          λ out w1 k. (ranges.once out k.0, covers-ranged ranges out d.spec.containers k.2)

    abbrev Staffed : List Config.Release → Config.InstanceGroup → Type 0
    Staffed rs ig = Jobs c d roles releases_by_name steady rs d.spec.containers ig.jobs

    instance_group-Staffed :
        (rs : List Config.Release) (w : W)
        → All (Covered c d roles releases_by_name rs) d.spec.containers
        → Ensures (λ ig _. Staffed rs ig) (λ _. Unit) (instance_group c d w)
    unfolding instance_group
    instance_group-Staffed rs w h =
        after_any c (λ ig _. Staffed rs ig) (for_each (resolve_az c d) d.spec.azs) (with_azs c d) w
          λ azs w1.
            after_bind (λ jobs _. Jobs c d roles releases_by_name steady rs d.spec.containers jobs)
              (λ ig _. Staffed rs ig) (λ _. Unit) (λ _. Unit)
              (for_each (resolve_job c d) d.spec.containers) (with_jobs c d azs) w1
              (resolve_jobs_lem c d roles releases_by_name steady rs d.spec.containers w1 h)
              (λ _ _. tt)
              λ jobs w2 staffed.
                after_any c (λ ig _. Staffed rs ig)
                  (for_each (resolve_extension c d) d.spec.extensions)
                  (with_extensions c d azs jobs) w2
                  λ xs w3.
                    after_any c (λ ig _. Staffed rs ig)
                      (c.networks.get (namespace d) d.spec.network)
                      (λ n. pure (group d azs jobs xs (ApiNetwork.internal_name n))) w3
                      (λ n w4. staffed)

    -- If a range over a map meets each key once, and the roles and the releases of the namespace stay as
    -- they are while the deployment is resolved: in a manifest that a deployment resolves to no release
    -- stands twice, there is one instance group, with one job for each container, and the release
    -- of each job is one of the manifest's releases by its name.
    pub manifest_covers_jobs :
        (w : W)
        → Ensures
            (λ m _.
              Distinct m.releases
              × (ig : Config.InstanceGroup) × (m.instance_groups ≡ ig ∷ [])
              × (length ig.jobs ≡ length d.spec.containers)
              × All (λ job. HasName job.release m.releases) ig.jobs)
            (λ _. Unit)
            (resolve_references c range_releases d w)
    unfolding resolve_references
    manifest_covers_jobs w =
        after_bind (λ rs _. Ready rs) (λ m _. Covers m) (λ _. Unit) (λ _. Unit)
          (releases c range_releases d) (with_releases c d) w (releases-Ready w) (λ _ _. tt)
          λ rs w1 ready.
            after_any c (λ m _. Covers m) (stemcell c d) (with_stemcell c d rs) w1
              λ s w2.
                after_bind (λ ig _. Staffed rs ig) (λ m _. Covers m) (λ _. Unit) (λ _. Unit)
                  (instance_group c d) (λ ig. pure (manifest d rs s ig)) w2
                  (instance_group-Staffed rs w2 ready.1) (λ _ _. tt)
                  λ ig w3 staffed. (ready.0, ig, refl, staffed.0, staffed.1)
      where
        Covers : Config.Deployment → Type 0
        Covers m =
            Distinct m.releases
            × (ig : Config.InstanceGroup) × (m.instance_groups ≡ ig ∷ [])
            × (length ig.jobs ≡ length d.spec.containers)
            × All (λ job. HasName job.release m.releases) ig.jobs
