-- ===== src/Controllers/Uaa/Watching.antt =====
-- One entity of UAA as it is watched while `reconcileWithUAA` of controllers/team_controller.go runs:
-- its finalizer, its secret in Kubernetes and its client in UAA.
use boshv.Base.{ℕ, Bool, true, false, not, ◌&&◌, ◌||◌, ◌≡◌, Str, err, Io}
use boshv.Base.Outcome.{Ensures}
use boshv.Kube.{Store, SecretStore, Errors}
use boshv.Remote.UaaClient.{UaaClient}
use boshv.Controllers.Uaa.{UaaEntity}

pub record Watch (W K : Type 0) : Type 0 where
  pub guarded : W → Bool
  pub has_secret : W → Bool
  pub has_client : W → Bool
  pub has_finalizer : K → Bool

-- A secret or a client that no finalizer guards.
abbrev pub orphaned : {W K : Type 0} → Watch W K → W → Bool
orphaned v w = (v.has_secret w || v.has_client w) && not (v.guarded w)

module _ {W E K : Type 0} (errors : Errors E) (secrets : SecretStore W E)
    (rand_read : ℕ → Io W E Str) (ent : UaaEntity W E K) (store : Store W E K) (uc : UaaClient W E)
    (v : Watch W K) (Mine : K → Type 0) where
  abbrev pub Same : W → W → Type 0
  Same w w' =
      (v.guarded w' ≡ v.guarded w)
      × (v.has_secret w' ≡ v.has_secret w)
      × (v.has_client w' ≡ v.has_client w)

  -- `Mine` says that an object in memory is the watched one. A write of the object and a deletion that
  -- fail have done nothing, and a secret that cannot be deleted for it does not exist is not there.
  pub record Guards : Type 0 where
    pub updates :
        (o : K) (w : W)
        → Mine o
        → Ensures
            (λ o' w'.
              Mine o'
              × (v.guarded w' ≡ v.has_finalizer o)
              × (v.has_secret w' ≡ v.has_secret w)
              × (v.has_client w' ≡ v.has_client w))
            (Same w)
            (store.update o w)
    pub updates_status :
        (o : K) (w : W) → Mine o → Ensures (λ _. Same w) (Same w) (store.update_status o w)
    pub randoms : (n : ℕ) (w : W) → Ensures (λ _. Same w) (Same w) (rand_read n w)
    pub creates_secret :
        (o : K) (data_text : Str) (w : W)
        → Mine o
        → Ensures
            (λ _ w'. v.guarded w' ≡ v.guarded w)
            (λ w'. v.guarded w' ≡ v.guarded w)
            (secrets.create
              (record {
                name = ent.secret_name o;
                namespace = ent.secret_namespace o;
                secret = data_text;
              })
              w)
    pub deletes_secret :
        (o : K) (w : W)
        → Mine o
        → Ensures
            (λ _ w'.
              (v.guarded w' ≡ v.guarded w)
              × (v.has_secret w' ≡ false)
              × (v.has_client w' ≡ v.has_client w))
            (Same w)
            (secrets.delete (ent.secret_namespace o) (ent.secret_name o) w)
    pub misses_secret :
        (o : K) (w : W) (e : E)
        → Mine o
        → (secrets.delete (ent.secret_namespace o) (ent.secret_name o) w).0 ≡ err e
        → (errors.is_not_found e || errors.is_gone e) ≡ true
        → v.has_secret w ≡ false
    pub creates_client :
        (o : K) (data_text : Str) (w : W)
        → Mine o
        → Ensures
            (λ o' w'. Mine o' × (v.guarded w' ≡ v.guarded w))
            (λ w'. v.guarded w' ≡ v.guarded w)
            (ent.create_unless_exists uc o data_text w)
    pub deletes_client :
        (o : K) (w : W)
        → Mine o
        → Ensures
            (λ _ w'.
              (v.guarded w' ≡ v.guarded w)
              × (v.has_secret w' ≡ v.has_secret w)
              × (v.has_client w' ≡ false))
            (Same w)
            (ent.delete_if_exists uc o w)
    pub keeps :
        (o : K) → Mine o → Mine (ent.ensure_finalizer o).1 × Mine (ent.ensure_no_finalizer o).1
    pub ensures : (o : K) → v.has_finalizer (ent.ensure_finalizer o).1 ≡ true
    pub ensures_report : (o : K) → (ent.ensure_finalizer o).0 ≡ not (v.has_finalizer o)
    pub removes : (o : K) → v.has_finalizer (ent.ensure_no_finalizer o).1 ≡ false
    pub removes_report : (o : K) → (ent.ensure_no_finalizer o).0 ≡ v.has_finalizer o
