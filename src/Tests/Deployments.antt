-- ===== src/Tests/Deployments.antt =====
-- The manifest of a deployment with two containers of one release.
use boshv.Base.{
  ◌≡◌, refl, none, some, [], ◌∷◌, Str, str, str_discrete, Result, ok, pure, for_each, arith,
}
use boshv.Base.Int.{pos, negsuc, wrap, ℤ_discrete}
use boshv.Base.Lists.{All, length}
use boshv.Base.Outcome.{Ensures}
use boshv.Api.Types.{Deployment, Container, Role, Release}
use boshv.Api.Deployment.Totals.{ram, cpu, ephemeral_disk_size, persistent_disk_size, watch_time}
use boshv.Api.Deployment.Totals.WatchTime.{read_watch_time, read-watch_time}
use boshv.Api.Deployment.Totals.Laws.{exact, totals_exact}
use boshv.Api.Deployment.Manifest as Manifest
use boshv.Api.Deployment.Manifest.{
  collect_releases, add_release, stemcell, instance_group, resolve_az, resolve_extension,
  resolve_references,
}
use boshv.Api.Deployment.Manifest.Jobs.{resolve_job, release_of, consumes, provides}
use boshv.Api.Deployment.Manifest.Releases.{Steady, Distinct, HasName, entry}
use boshv.Api.Deployment.Manifest.Coverage.{Ranges, manifest_covers_jobs}
use boshv.Kube.{Kube}
use boshv.Remote.Config
use boshv.Tests.World.{meta}
use boshv.Tests.Names.{deployment, release, base_image}
use boshv.Tests.Bosh.{new_az}
use boshv.Tests.Networks.{network}
use boshv.Tests.Controllers.{kube, nothing}

abbrev pub container : Container
container = record {
  role = str "server";
  exported_configuration = [];
  imported_configuration = [];
  resources = record {
    ram = pos 1024;
    cpu = pos 9223372036854775807;
    ephemeral_disk_size = pos 10;
    persistent_disk_size = pos 0;
  };
}

abbrev two_containers : Deployment
two_containers = record deployment {
  spec = record deployment.spec { containers = container ∷ container ∷ [] };
}

totals_exact_example :
    let cs = two_containers.spec.containers in
    (ram two_containers ≡ wrap (exact (λ r. r.ram) cs))
    × (cpu two_containers ≡ wrap (exact (λ r. r.cpu) cs))
    × (ephemeral_disk_size two_containers ≡ wrap (exact (λ r. r.ephemeral_disk_size) cs))
    × (persistent_disk_size two_containers ≡ wrap (exact (λ r. r.persistent_disk_size) cs))
totals_exact_example = totals_exact two_containers

-- Two times the largest integer wraps around to -2.
cpu_wraps : cpu two_containers ≡ negsuc 1
unfolding cpu
cpu_wraps = refl

abbrev pub role : Role
role = record {
  metadata = meta (str "ns") (str "server") [];
  spec = record { source = record { job = str "zk"; release = str "r" }; properties = none };
  status = tt;
}

abbrev frozen : Release
frozen = record release { status = record release.status { original_spec = release.spec } }

abbrev roles : Str → Result Str Role
roles _ = ok role

abbrev the_release : Str → Result Str Release
the_release _ = ok frozen

abbrev with_roles : Kube (Unit {0}) Str
with_roles = record kube {
  roles = record nothing { get = λ _ name w. (roles name, w) };
  releases = record nothing { get = λ _ name w. (the_release name, w) };
  azs = record nothing { get = λ _ _. pure new_az };
  networks = record nothing { get = λ _ _. pure network };
  base_images = record nothing { get = λ _ _. pure base_image };
}

steady : Steady with_roles two_containers roles the_release
steady = record { reads_role = λ _ _. refl; reads_release = λ _ _. refl }

any_order : Ranges (λ rs. rs)
any_order = record { meets = λ rs r h. h; once = λ rs h. h }

manifest_covers_jobs_example :
    Ensures
      (λ m _.
        Distinct m.releases
        × (ig : Config.InstanceGroup) × (m.instance_groups ≡ ig ∷ [])
        × (length ig.jobs ≡ 2)
        × All (λ job. HasName job.release m.releases) ig.jobs)
      (λ _. Unit)
      (resolve_references with_roles (λ rs. rs) two_containers tt)
manifest_covers_jobs_example =
    manifest_covers_jobs with_roles two_containers roles the_release (λ rs. rs) steady any_order tt

-- It does resolve, and the two jobs share one release.
shared_release :
    Ensures
      (λ m _. m.releases ≡ entry frozen ∷ [])
      (λ _. ⊥)
      (resolve_references with_roles (λ rs. rs) two_containers tt)
unfolding resolve_references Manifest.releases collect_releases add_release release_of stemcell
    instance_group resolve_az resolve_extension Config.Release-discrete str_discrete str for_each
    resolve_job consumes provides
shared_release = refl

read-watch_time_example : read_watch_time (watch_time two_containers) ≡ (5000, some 60000)
read-watch_time_example = read-watch_time two_containers 5 60 refl refl (omega arith) (omega arith)

watches_from_5_to_60_seconds : watch_time two_containers ≡ Config.string (str "5000-60000")
unfolding watch_time str ℤ_discrete
watches_from_5_to_60_seconds = refl
