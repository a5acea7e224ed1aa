-- ===== src/Api/Deployment/Manifest/Releases.antt =====
-- The releases of a manifest against its jobs: `releases` and `instanceGroup` of
-- api/v1/deployment_types.go both look up the role of each container and its release.
use boshv.Base.{
  suc, ◌≡◌, ◌≢◌, refl, sym, ap, subst, ◌⊎◌, inl, inr, List, [], ◌∷◌, Str, ite, Result, ok, err, Io,
  pure, ◌>>=◌, for_each, arith,
}
use boshv.Base.Lists.{All, length}
use boshv.Base.Outcome.{Ensures, after_bind, weaken}
use boshv.Api.Types.{Deployment, Container, Role, Release, namespace}
use boshv.Kube.{Kube}
use boshv.Remote.Config
use boshv.Api.Deployment.Manifest.{add_release, collect_releases}
use boshv.Api.Deployment.Manifest.Jobs.{release_of, consumes, provides, resolve_job}

abbrev pub In : Config.Release → List Config.Release → Type 0
In r [] = ⊥
In r (s ∷ rs) = (s ≡ r) ⊎ In r rs

abbrev pub Distinct : List Config.Release → Type 0
Distinct [] = Unit
Distinct (r ∷ rs) = All (λ s. s ≢ r) rs × Distinct rs

-- A release of this name.
abbrev pub HasName : Str → List Config.Release → Type 0
HasName n [] = ⊥
HasName n (r ∷ rs) = (r.name ≡ n) ⊎ HasName n rs

In-HasName : (r : Config.Release) (rs : List Config.Release) → In r rs → HasName r.name rs
In-HasName r [] h = absurd h
In-HasName r (s ∷ rs) (inl e) = inl (ap (λ x. x.name) e)
In-HasName r (s ∷ rs) (inr h) = inr (In-HasName r rs h)

add_release-new : (r : Config.Release) (rs : List Config.Release) → In r (add_release r rs)
unfolding add_release
add_release-new r [] = inl refl
add_release-new r (s ∷ rs) =
    elim (Config.Release-discrete r s) as (λ x. In r (ite x (s ∷ rs) (s ∷ add_release r rs))) [
      | yes e ↦ inl (sym e)
      | no n ↦ inr (add_release-new r rs)
    ]

add_release-old :
    (r q : Config.Release) (rs : List Config.Release) → In q rs → In q (add_release r rs)
unfolding add_release
add_release-old r q [] h = absurd h
add_release-old r q (s ∷ rs) h =
    elim (Config.Release-discrete r s) as (λ x. In q (ite x (s ∷ rs) (s ∷ add_release r rs))) [
      | yes e ↦ h
      | no n ↦ elim h [ inl e ↦ inl e | inr k ↦ inr (add_release-old r q rs k) ]
    ]

add_release-All :
    (r q : Config.Release) (rs : List Config.Release)
    → q ≢ r
    → All (λ s. s ≢ r) rs
    → All (λ s. s ≢ r) (add_release q rs)
unfolding add_release
add_release-All r q [] n h = (n, tt)
add_release-All r q (s ∷ rs) n h =
    elim (Config.Release-discrete q s)
      as (λ x. All (λ s. s ≢ r) (ite x (s ∷ rs) (s ∷ add_release q rs))) [
        | yes e ↦ h
        | no k ↦ (h.0, add_release-All r q rs n h.1)
      ]

add_release-Distinct :
    (r : Config.Release) (rs : List Config.Release) → Distinct rs → Distinct (add_release r rs)
unfolding add_release
add_release-Distinct r [] h = (tt, tt)
add_release-Distinct r (s ∷ rs) h =
    elim (Config.Release-discrete r s) as (λ x. Distinct (ite x (s ∷ rs) (s ∷ add_release r rs))) [
      | yes e ↦ h
      | no n ↦ (add_release-All s r rs n h.0, add_release-Distinct r rs h.1)
    ]

-- The entry of a release in a manifest.
abbrev pub entry : Release → Config.Release
entry release = record {
  name = release.status.original_spec.release_name;
  version = release.status.original_spec.version;
}

module _ {W E : Type 0} (c : Kube W E) (d : Deployment) (roles : Str → Result E Role)
    (releases_by_name : Str → Result E Release) where
  -- The roles and the releases of the namespace do not change while they are read, and reading them
  -- changes nothing.
  pub record Steady : Type 0 where
    pub reads_role : (name : Str) (w : W) → c.roles.get (namespace d) name w ≡ (roles name, w)
    pub reads_release :
        (name : Str) (w : W) → c.releases.get (namespace d) name w ≡ (releases_by_name name, w)

  unfoldable pub Covered : List Config.Release → Container → Type 0
  Covered rs container =
      (role : Role) × (release : Release) × (roles container.role ≡ ok role)
      × (releases_by_name role.spec.source.release ≡ ok release)
      × In (entry release) rs

  module _ (steady : Steady) where
    known : {A : Type 0} (x : Result E A) (w : W) → Ensures (λ a _. x ≡ ok a) (λ _. Unit) (x, w)
    known (ok a) w = refl
    known (err e) w = tt

    Found : Container → Role × Release → Type 0
    Found container found =
        (roles container.role ≡ ok found.0)
        × (releases_by_name found.0.spec.source.release ≡ ok found.1)

    release_of_lem :
        (container : Container) (w : W)
        → Ensures (λ found _. Found container found) (λ _. Unit) (release_of c d container w)
    unfolding release_of Found
    release_of_lem container w =
        after_bind (λ role _. roles container.role ≡ ok role) (λ found _. Found container found)
          (λ _. Unit) (λ _. Unit) (c.roles.get (namespace d) container.role)
          (λ role. c.releases.get (namespace d) role.spec.source.release >>= λ release.
            pure (role, release))
          w (rw (steady.reads_role container.role w) (known (roles container.role) w)) (λ _ _. tt)
          λ role w1 h.
            after_bind (λ release _. releases_by_name role.spec.source.release ≡ ok release)
              (λ found _. Found container found) (λ _. Unit) (λ _. Unit)
              (c.releases.get (namespace d) role.spec.source.release)
              (λ release. pure (role, release)) w1
              (rw (steady.reads_release role.spec.source.release w1)
                (known (releases_by_name role.spec.source.release) w1))
              (λ _ _. tt) λ release w2 k. (h, k)

    -- What the loop over the containers adds to the releases that it has met.
    unfoldable pub Collected : List Config.Release → List Container → List Config.Release → Type 0
    Collected unique containers out =
        Distinct out
        × ((r : Config.Release) → In r unique → In r out)
        × All (Covered out) containers

    pub collect_releases_lem :
        (unique : List Config.Release) (containers : List Container) (w : W)
        → Distinct unique
        → Ensures
            (λ out _. Collected unique containers out)
            (λ _. Unit)
            (collect_releases c d unique containers w)
    unfolding collect_releases Collected Covered Found
    collect_releases_lem unique [] w h = (h, (λ r k. k), tt)
    collect_releases_lem unique (container ∷ rest) w h =
        after_bind (λ found _. Found container found)
          (λ out _. Collected unique (container ∷ rest) out) (λ _. Unit) (λ _. Unit)
          (release_of c d container) _ w (release_of_lem container w) (λ _ _. tt)
          λ found w1 f.
            weaken (λ out _. Collected (add_release (entry found.1) unique) rest out) _ _ _
              (collect_releases c d (add_release (entry found.1) unique) rest w1)
              (collect_releases_lem (add_release (entry found.1) unique) rest w1
                (add_release-Distinct (entry found.1) unique h))
              (λ out w2 k. (
                k.0,
                (λ r m. k.1 r (add_release-old (entry found.1) r unique m)),
                ((found.0, found.1, f.0, f.1, k.1 _ (add_release-new (entry found.1) unique)), k.2),
              ))
              (λ _ u. u)

    pub anything : {A : Type 0} (r : Result E A × W) → Ensures {A = A} (λ _ _. Unit) (λ _. Unit) r
    anything (ok a, w) = tt
    anything (err e, w) = tt

    found_release :
        {x : Result E Role} (role : Role) (release : Release) (found : Role × Release)
        → (x ≡ ok found.0) × (releases_by_name found.0.spec.source.release ≡ ok found.1)
        → x ≡ ok role
        → releases_by_name role.spec.source.release ≡ ok release
        → release ≡ found.1
    found_release role release found f e e' = ground (arith, f.0, f.1, e, e')

    -- The job of a container, from its role and release and its links.
    abbrev job_of : Container → Role × Release → List (Str × Config.ConsumesLink) → Config.Job
    job_of container found links = record {
      name = found.0.spec.source.job;
      release = found.1.status.original_spec.release_name;
      consumes = links;
      provides = provides container.exported_configuration [];
      properties = found.0.spec.properties;
    }

    abbrev linked : Container → Role × Release → Io W E Config.Job
    linked container found = do
      links ← consumes c d container.imported_configuration []
      pure (job_of container found links)

    resolve_job_lem :
        (out : List Config.Release) (container : Container) (w : W)
        → Covered out container
        → Ensures (λ job _. HasName job.release out) (λ _. Unit) (resolve_job c d container w)
    unfolding resolve_job Covered Found
    resolve_job_lem out container w (role, release, e, e', m) =
        after_bind (λ found _. Found container found) (λ job _. HasName job.release out) (λ _. Unit)
          (λ _. Unit) (release_of c d container) (linked container) w (release_of_lem container w)
          (λ _ _. tt)
          λ found w1 f.
            after_bind (λ _ _. Unit) (λ job _. HasName job.release out) (λ _. Unit) (λ _. Unit)
              (consumes c d container.imported_configuration [])
              (λ links. pure (job_of container found links)) w1 (anything _) (λ _ _. tt)
              λ links w2 u.
                subst (λ r. HasName r.status.original_spec.release_name out)
                  (found_release role release found f e e') (In-HasName (entry release) out m)

    -- One job for each container, with its release among these.
    abbrev pub Jobs : List Config.Release → List Container → List Config.Job → Type 0
    Jobs out containers jobs =
        (length jobs ≡ length containers) × All (λ job. HasName job.release out) jobs

    pub resolve_jobs_lem :
        (out : List Config.Release) (containers : List Container) (w : W)
        → All (Covered out) containers
        → Ensures
            (λ jobs _. Jobs out containers jobs)
            (λ _. Unit)
            (for_each (resolve_job c d) containers w)
    unfolding for_each
    resolve_jobs_lem out [] w h = (refl, tt)
    resolve_jobs_lem out (container ∷ rest) w h =
        after_bind (λ job _. HasName job.release out) (λ jobs _. Jobs out (container ∷ rest) jobs)
          (λ _. Unit) (λ _. Unit) (resolve_job c d container) _ w
          (resolve_job_lem out container w h.0) (λ _ _. tt)
          λ job w1 n.
            after_bind (λ jobs _. Jobs out rest jobs) (λ jobs _. Jobs out (container ∷ rest) jobs)
              (λ _. Unit) (λ _. Unit) (for_each (resolve_job c d) rest) (λ jobs. pure (job ∷ jobs))
              w1 (resolve_jobs_lem out rest w1 h.1) (λ _ _. tt) λ jobs w2 k. (ap suc k.0, (n, k.1))
