-- ===== src/Controllers/Uaa/Places.antt =====
-- The two places in which `reconcileWithUAA` of controllers/team_controller.go leaves a secret, and
-- what the calls that it makes do to them: the secret in Kubernetes, by which BOSH clients log in, and
-- the client in UAA, which checks it.
use boshv.Base.{ℕ, true, ◌≡◌, ◌≢◌, Option, none, some, Str, map, err, Io}
use boshv.Base.Outcome.{Ensures}
use boshv.Kube.{Store, SecretStore, Errors}
use boshv.Remote.UaaClient.{UaaClient}
use boshv.Controllers.Secrets.{secret_char}
use boshv.Controllers.Uaa.{UaaEntity}

-- The secret in Kubernetes and the secret of the UAA client, of one entity.
pub record Places (W : Type 0) : Type 0 where
  pub kept : W → Option Str
  pub checked : W → Option Str

abbrev pub or_fresh : Option Str → Str → Option Str
or_fresh none fresh = some fresh
or_fresh (some old) fresh = some old

module _ {W E K : Type 0} (errors : Errors E) (secrets : SecretStore W E)
    (rand_read : ℕ → Io W E Str) (ent : UaaEntity W E K) (store : Store W E K) (uc : UaaClient W E)
    (v : Places W) (Mine : K → Type 0) (Fresh : Str → Type 0) where
  abbrev pub Same : W → W → Type 0
  Same w w' = (v.kept w' ≡ v.kept w) × (v.checked w' ≡ v.checked w)

  -- The secret store refuses to create a secret that exists, and only then with the error that says so;
  -- an entity is created in UAA only if it is missing there. `Fresh` holds of what the random bytes
  -- give.
  pub record Faithful : Type 0 where
    pub updates :
        (o : K) (w : W)
        → Mine o
        → Ensures (λ o' w'. Mine o' × Same w w') (Same w) (store.update o w)
    pub updates_status :
        (o : K) (w : W) → Mine o → Ensures (λ _. Same w) (Same w) (store.update_status o w)
    pub randoms :
        (w : W)
        → Ensures (λ bytes w'. Fresh (map secret_char bytes) × Same w w') (Same w) (rand_read 20 w)
    pub creates_secret :
        (o : K) (data_text : Str) (w : W)
        → Mine o
        → Ensures
            (λ _ w'.
              (v.kept w ≡ none) × (v.kept w' ≡ some data_text) × (v.checked w' ≡ v.checked w))
            (Same w)
            (secrets.create
              (record {
                name = ent.secret_name o;
                namespace = ent.secret_namespace o;
                secret = data_text;
              })
              w)
    pub refuses_secret :
        (o : K) (data_text : Str) (w : W) (e : E)
        → Mine o
        → (secrets.create
            (record {
              name = ent.secret_name o;
              namespace = ent.secret_namespace o;
              secret = data_text;
            })
            w).0
          ≡ err e
        → errors.is_already_exists e ≡ true
        → v.kept w ≢ none
    pub creates_client :
        (o : K) (data_text : Str) (w : W)
        → Mine o
        → Ensures
            (λ o' w'.
              Mine o' × (v.kept w' ≡ v.kept w) × (v.checked w' ≡ or_fresh (v.checked w) data_text))
            (λ w'. v.kept w' ≡ v.kept w)
            (ent.create_unless_exists uc o data_text w)
    pub ensures : (o : K) → Mine o → Mine (ent.ensure_finalizer o).1
