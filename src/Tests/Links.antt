-- ===== src/Tests/Links.antt =====
-- The links of a job whose container imports one link twice.
use boshv.Base.{◌≡◌, refl, true, some, none, [], ◌∷◌, Str, str, str_discrete, join, pure}
use boshv.Base.Maps.{lookup, assign}
use boshv.Base.Outcome.{Ensures}
use boshv.Api.Types.{Container, DeploymentStatus}
use boshv.Api.Deployment.Manifest.Jobs.{resolve_job, internal_name}
use boshv.Api.Deployment.Manifest.Links.{last_link, provided, consumed, job_links}
use boshv.Kube.{Kube}
use boshv.Tests.World.{World, meta, no_configs}
use boshv.Tests.Names.{deployment, release}
use boshv.Tests.Deployments.{role, container}
use boshv.Tests.Controllers as Platforms

abbrev linked : Container
linked = record container {
  exported_configuration =
      (str "client", record { internal_link = str "conn"; exported = true }) ∷ [];
  imported_configuration =
      (str "peers", record { internal_link = str "zk"; imported_from = str "a" })
      ∷ (str "quorum", record { internal_link = str "zk"; imported_from = str "b" })
      ∷ [];
}

abbrev kube : Kube (World DeploymentStatus) Str
kube = record Platforms.kube {
  deployments = record Platforms.nothing {
    get = λ ns nm. pure (record deployment { metadata = meta ns nm [] });
  };
  releases = record Platforms.nothing { get = λ _ _. pure release };
  roles = record Platforms.nothing { get = λ _ _. pure role };
}

abbrev start : World DeploymentStatus
start = record { configs = no_configs; stored = ([], deployment.status); faults = 0 }

job_links_example :
    Ensures
      (λ job _.
        (k : Str)
        → (lookup str_discrete k job.consumes
            ≡ last_link
                (λ c. c.internal_link)
                (consumed (str "ns"))
                k
                linked.imported_configuration)
          × (lookup str_discrete k job.provides
              ≡ last_link (λ c. c.internal_link) provided k linked.exported_configuration))
      (λ _. Unit)
      (resolve_job kube deployment linked start)
unfolding str
job_links_example = job_links kube deployment (λ ns nm w. (refl, refl)) linked start

-- The job does resolve, and the last import of the link counts.
zookeeper_link :
    Ensures
      (λ job _.
        (lookup str_discrete (str "zk") job.consumes
          ≡ some (record { from = str "quorum"; deployment = str "deployment-ns-b" }))
        × (lookup str_discrete (str "other") job.consumes ≡ none))
      (λ _. ⊥)
      (resolve_job kube deployment linked start)
unfolding resolve_job lookup assign str str_discrete join internal_name
zookeeper_link = (refl, refl)
