-- ===== src/Lib.antt =====
-- A model of the controllers of boshv3, which extend the Kubernetes API by the resources of BOSH, and
-- theorems about them.
--
-- The program. A user describes an AZ, an extension, a network, a compilation, a release, a base image,
-- a role, a deployment, a team or a director as a Kubernetes object. A controller is handed the name of
-- an object that has changed. It finds out through which director and with which credentials to act,
-- and then creates or deletes what the object stands for: most kinds are artifacts of BOSH, a team is
-- a client of UAA with a secret in Kubernetes. A finalizer on the object keeps Kubernetes from removing
-- it before its artifact is gone, and the status of the object keeps the spec that was seen first.
--
-- Base: shared names, Boolean tests, strings as lists of bytes, 64-bit integers, sorting, maps as
--   association lists, and calls that can fail: a Go function that returns an error is an `Io W E A`,
--   which takes the world and gives a result or an error beside the world as it then is. `Ensures`
--   says what holds after a return and what after a failure, `Runs` how the world after relates to the one before.
-- Api: api/v1. Api/Types has the structs of every kind, Api/Helpers has helpers.go and common.go, Api/Az and
--   its neighbours have the methods of one kind each. A method with a pointer receiver gives the object
--   back. Api/Network/Match has the `match` of network_types.go with what its sorting does to the
--   arrays of the caller. Api/Deployment/Manifest has `resolveReferences` of deployment_types.go, and
--   Api/Deployment/Totals its sums and settings. Api/Freezing, Api/FrozenLaws, Api/InternalNames and Api/FinalizerLaws are about all kinds.
-- Kube: the calls of the Kubernetes client that the controllers make, as a record of parameters.
-- Remote: remote-clients. Remote/BoshClient and Remote/UaaClient have the interfaces and their implementations
--   over the two libraries' calls, which are records of parameters; Remote/Config has the structs
--   that are sent.
-- Controllers: controllers. Controllers/Bosh has `reconcileWithBOSH` of common.go over the interface
--   `boshArtifact`, Controllers/Uaa has `reconcileWithUAA` of team_controller.go, Controllers/Clients the
--   construction of clients, Controllers/Reconcilers the method `Reconcile` of each controller,
--   Controllers/Artifacts the kinds as fillings of the interfaces. Controllers/CloudKinds joins the kinds
--   that are kept as cloud configs with the BOSH client, Controllers/Deployments the deployments, and
--   Controllers/Uploads the releases and base images, which BOSH knows by the name and version of the file
--   that is uploaded. Controllers/Histories has the AZ controller among the
--   AZs of a whole cluster, over several directors.
-- Start: main.go, over the manager of controller-runtime, with Api/Registration for the functions `init` and
--   Controllers/Setup for the methods `SetupWithManager`. An exit of the process is a failure.
-- Tests: a small world, and each theorem at concrete objects.
--
-- What the theorems assume. The API server, BOSH, UAA, the manager of controller-runtime and the source
-- of random bytes are parameters. `KeepsConfigs`, `KeepsDeployments`, `KeepsUploads`, `KeepsClients`,
-- `StoreLaws`, `KeepsStatus`, `Guards`, `Manages`, `Starts`, `KeepsTypes` and the two records `Faithful`
-- say what a call does when it returns, and that a write that fails has written nothing, where a failed
-- update of a deployment may have changed it.
-- `KeepsObjects` says what an API server does whose calls do not fail. `Reads`, `ReadsAzs`, `ReadsOnly`,
-- `ListsOwn`, `Steady` and `Answers` are about lookups, `Ranges` is about a range over a map, and
-- `Transient` says that faults run out. `Cluster` is about all AZs at once and the directors of their
-- namespaces, which it takes to be fixed: the teams of a namespace are for one director first, and a
-- director keeps its URL. `Outside` says what users and other programs do not do: write our configs or
-- take our finalizers off. A run works on the object as the API server held it when the run began:
-- writes of others during a run are not modelled. Where such a record is assumed, an example fills it by
-- a small store.
--
-- Bounds. No definition of the program needs fuel: each loop is by recursion on a list. An `int` has 64 bits
-- and wraps around. That the manager hands a request out again after an error is `retrying`, which is given
-- a number of runs; as many as there are faults to come are enough.
--
-- Not modelled: log calls, contexts, `TypeMeta` and the list types, api/v1/zz_generated.deepcopy.go, which is
-- generated, and config, which is YAML. The order in which Go walks a map is a parameter for the releases
-- of a deployment, and the order of a list for the links of a container.
pub mod Base
pub mod Api
pub mod Kube
pub mod Remote
pub mod Controllers
pub mod Start
pub mod Tests
