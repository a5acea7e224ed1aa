-- ===== src/Controllers/Uaa.antt =====
-- `reconcileWithUAA` of controllers/team_controller.go, over the interface `uaaEntity`.
pub mod Places
pub mod Credentials
pub mod Watching
pub mod Deletion
use boshv.Base.{ℕ, Bool, Str, Io, pure, filtered, ◌>>=◌, if◌then◌else◌}
use boshv.Kube.{Store, SecretStore, Errors}
use boshv.Remote.UaaClient.{UaaClient}
use boshv.Controllers.Platform.{ignore_does_not_exist, ignore_already_exists}
use boshv.Controllers.Secrets.{generate_secret}
use boshv.Controllers.Bosh.{save_if}

-- `reconcileWithUAA` does not call the `PrepareToSave` of the interface, and it is left out.
pub record UaaEntity (W E K : Type 0) : Type 0 where
  pub being_deleted : K → Bool
  pub ensure_no_finalizer : K → Bool × K
  pub ensure_finalizer : K → Bool × K
  pub secret_name : K → Str
  pub secret_namespace : K → Str
  pub create_unless_exists : UaaClient W E → K → Str → Io W E K
  pub delete_if_exists : UaaClient W E → K → Io W E (Unit {0})

module _ {W E K : Type 0} (errors : Errors E) (secrets : SecretStore W E)
    (rand_read : ℕ → Io W E Str) (ent : UaaEntity W E K) (store : Store W E K)
    (uc : UaaClient W E) where
  unfoldable pub finalize_in_uaa : K → Io W E (Unit {0})
  unfolding ignore_does_not_exist
  finalize_in_uaa ue = do
    _ ← ent.delete_if_exists uc ue
    _ ←
        filtered (ignore_does_not_exist errors)
          (secrets.delete (ent.secret_namespace ue) (ent.secret_name ue))
    _ ← save_if store.update (ent.ensure_no_finalizer ue)
    pure tt

  unfoldable pub apply_to_uaa : K → Io W E (Unit {0})
  unfolding ignore_already_exists
  apply_to_uaa ue = do
    guarded ← save_if store.update (ent.ensure_finalizer ue)
    secret_data ← generate_secret rand_read
    _ ← filtered (ignore_already_exists errors) (
        secrets.create (record {
          name = ent.secret_name guarded;
          namespace = ent.secret_namespace guarded;
          secret = secret_data;
        }))
    created ← ent.create_unless_exists uc guarded secret_data
    _ ← store.update_status created
    pure tt

  unfoldable pub reconcile_with_uaa : K → Io W E (Unit {0})
  unfolding finalize_in_uaa apply_to_uaa
  reconcile_with_uaa ue = if ent.being_deleted ue then finalize_in_uaa ue else apply_to_uaa ue
