-- ===== src/Controllers/Bosh.antt =====
-- `reconcileWithBOSH` of controllers/common.go, over the interface `boshArtifact`.
pub mod Calls
pub mod Watching
pub mod Safety
pub mod Views
use boshv.Base.{Bool, Io, pure, ◌>>=◌, if◌then◌else◌}
use boshv.Kube.{Store}
use boshv.Remote.BoshClient.{BoshClient}

-- The methods with a pointer receiver give back the object as they leave it.
pub record BoshArtifact (W E K : Type 0) : Type 0 where
  pub being_deleted : K → Bool
  pub ensure_no_finalizer : K → Bool × K
  pub ensure_finalizer : K → Bool × K
  pub prepare_to_save : K → Bool × K
  pub create_unless_exists : BoshClient W E → K → Io W E K
  pub delete_if_exists : BoshClient W E → K → Io W E (Unit {0})

-- `if changed { write(object) }`
abbrev pub save_if : {W E K : Type 0} → (K → Io W E K) → Bool × K → Io W E K
save_if write (changed, o) = if changed then write o else pure o

module _ {W E K : Type 0} (art : BoshArtifact W E K) (store : Store W E K)
    (bc : BoshClient W E) where
  unfoldable pub finalize_in_bosh : K → Io W E (Unit {0})
  finalize_in_bosh ba = do
    _ ← art.delete_if_exists bc ba
    _ ← save_if store.update (art.ensure_no_finalizer ba)
    pure tt

  unfoldable pub apply_to_bosh : K → Io W E (Unit {0})
  apply_to_bosh ba = do
    prepared ← save_if store.update_status (art.prepare_to_save ba)
    guarded ← save_if store.update (art.ensure_finalizer prepared)
    created ← art.create_unless_exists bc guarded
    _ ← store.update_status created
    pure tt

  unfoldable pub reconcile_with_bosh : K → Io W E (Unit {0})
  unfolding finalize_in_bosh apply_to_bosh
  reconcile_with_bosh ba = if art.being_deleted ba then finalize_in_bosh ba else apply_to_bosh ba
