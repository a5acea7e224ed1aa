-- ===== src/Controllers/Setup.antt =====
-- The methods `SetupWithManager` of controllers/*_controller.go:
-- `NewControllerManagedBy(mgr).For(...).Complete(r)`. The manager is controller-runtime's. A reconciler
-- holds a client and the BOSH system namespace.
use boshv.Base.{Str, Io}
use boshv.Api.Registration.{
  Kind, az, extension, network, compilation, release, base_image, deployment, team, director,
}
use boshv.Kube.{Kube}
use boshv.Controllers.Platform.{Platform, Request}
use boshv.Controllers.Reconcilers.{
  reconcile_az, reconcile_extension, reconcile_network, reconcile_release, reconcile_base_image,
  reconcile_deployment, reconcile_compilation, reconcile_team, reconcile_director,
}

pub record Manager (W E : Type 0) : Type 0 where
  pub client : Kube W E
  pub complete : Kind → (Request → Io W E (Unit {0})) → Io W E (Unit {0})
  pub start : Io W E (Unit {0})

module _ {W E : Type 0} (p : Platform W E) (bosh_system_namespace : Str) (mgr : Manager W E) where
  unfoldable pub setup_az : Io W E (Unit {0})
  setup_az = mgr.complete az (reconcile_az p bosh_system_namespace)

  unfoldable pub setup_extension : Io W E (Unit {0})
  setup_extension = mgr.complete extension (reconcile_extension p bosh_system_namespace)

  unfoldable pub setup_network : Io W E (Unit {0})
  setup_network = mgr.complete network (reconcile_network p bosh_system_namespace)

  unfoldable pub setup_release : Io W E (Unit {0})
  setup_release = mgr.complete release (reconcile_release p bosh_system_namespace)

  unfoldable pub setup_base_image : Io W E (Unit {0})
  setup_base_image = mgr.complete base_image (reconcile_base_image p bosh_system_namespace)

  unfoldable pub setup_deployment : Io W E (Unit {0})
  setup_deployment = mgr.complete deployment (reconcile_deployment p bosh_system_namespace)

  unfoldable pub setup_compilation : Io W E (Unit {0})
  setup_compilation = mgr.complete compilation (reconcile_compilation p bosh_system_namespace)

  unfoldable pub setup_team : Io W E (Unit {0})
  setup_team = mgr.complete team (reconcile_team p bosh_system_namespace)

  unfoldable pub setup_director : Io W E (Unit {0})
  setup_director = mgr.complete director (reconcile_director p bosh_system_namespace)
