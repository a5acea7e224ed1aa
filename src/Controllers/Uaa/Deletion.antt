-- ===== src/Controllers/Uaa/Deletion.antt =====
-- `reconcileWithUAA` of controllers/team_controller.go against what its finalizer is for.
use boshv.Base.{
  ℕ, Bool, true, false, ◌||◌, ◌≡◌, refl, ◌∙◌, ◌⊎◌, inl, inr, none, some, Str, map, if◌then◌else◌,
  Result, ok, err, Io, pure, filtered, return_error, ◌>>=◌, Bool-cases, arith,
}
use boshv.Base.Outcome.{Ensures, after_bind, always, weaken}
use boshv.Kube.{Store, SecretStore, Errors}
use boshv.Remote.UaaClient.{UaaClient}
use boshv.Controllers.Platform.{ignore_does_not_exist, ignore_already_exists}
use boshv.Controllers.Secrets.{generate_secret, secret_char}
use boshv.Controllers.Bosh.{save_if}
use boshv.Controllers.Uaa.{UaaEntity, finalize_in_uaa, apply_to_uaa, reconcile_with_uaa}
use boshv.Controllers.Uaa.Watching.{Watch, Guards, Same, orphaned}

module _ {W E K : Type 0} (errors : Errors E) (secrets : SecretStore W E)
    (rand_read : ℕ → Io W E Str) (ent : UaaEntity W E K) (store : Store W E K) (uc : UaaClient W E)
    (v : Watch W K) (Mine : K → Type 0)
    (law : Guards errors secrets rand_read ent store uc v Mine) where
  abbrev Unchanged : W → W → Type 0
  Unchanged = Same errors secrets rand_read ent store uc v Mine

  Safe : W → Type 0
  Safe w = orphaned v w ≡ false

  Saved : Bool → W → K → W → Type 0
  Saved b w o' w' =
      Mine o'
      × (v.guarded w' ≡ b)
      × (v.has_secret w' ≡ v.has_secret w)
      × (v.has_client w' ≡ v.has_client w)

  -- A write that is due, or none because the stored object is in the wanted state.
  save_finalizer :
      (b c : Bool) (o : K) (w : W)
      → Mine o
      → v.has_finalizer o ≡ c
      → (b ≡ false → v.guarded w ≡ c)
      → Ensures (Saved c w) (Unchanged w) (save_if store.update (b, o) w)
  unfolding Saved
  save_finalizer true c o w m h k =
      weaken _ _ _ _ (store.update o w) (law.updates o w m) (λ o' w' u. (u.0, u.1 ∙ h, u.2, u.3))
        (λ w' u. u)
  save_finalizer false c o w m h k = (m, k refl, refl, refl)

  -- The secret is gone, if the call does not fail by another error than that it is not there.
  Erased : W → W → Type 0
  Erased w w' =
      (v.guarded w' ≡ v.guarded w) × (v.has_secret w' ≡ false) × (v.has_client w' ≡ v.has_client w)

  erase_secret :
      (o : K) (w : W)
      → Mine o
      → Ensures
          (λ _. Erased w)
          (Unchanged w)
          (filtered
            (ignore_does_not_exist errors)
            (secrets.delete (ent.secret_namespace o) (ent.secret_name o))
            w)
  unfolding ignore_does_not_exist Erased
  erase_secret o w m =
      go (secrets.delete (ent.secret_namespace o) (ent.secret_name o) w) (law.deletes_secret o w m)
        (λ e. law.misses_secret o w e m)
    where
      refused :
          (e : E) (w' : W) (b : Bool)
          → (errors.is_not_found e || errors.is_gone e) ≡ b
          → Unchanged w w'
          → ((errors.is_not_found e || errors.is_gone e) ≡ true → v.has_secret w ≡ false)
          → Ensures {E = E} {A = Unit {0}}
              (λ _. Erased w)
              (Unchanged w)
              (return_error {W = W} (if b then none else some e) w')
      refused e w' true h s k = (s.0, s.1 ∙ k h, s.2)
      refused e w' false h s k = s

      go :
          (r : Result E (Unit {0}) × W)
          → Ensures (λ _. Erased w) (Unchanged w) r
          → ((e : E)
              → r.0 ≡ err e
              → (errors.is_not_found e || errors.is_gone e) ≡ true
              → v.has_secret w ≡ false)
          → Ensures {E = E} {A = Unit {0}}
              (λ _. Erased w)
              (Unchanged w)
              (elim (r.0) [
                | ok _ ↦ (ok tt, r.1)
                | err e ↦
                    return_error
                      (if errors.is_not_found e || errors.is_gone e then none else some e)
                      r.1
              ])
      go (ok _, w') u k = u
      go (err e, w') u k =
          refused e w' (errors.is_not_found e || errors.is_gone e) refl u (k e refl)

  Finalized : W → Type 0
  Finalized w = (v.has_secret w ≡ false) × (v.has_client w ≡ false) × (v.guarded w ≡ false)

  -- A failure keeps the finalizer, and with it the object.
  Kept : W → W → Type 0
  Kept w w' = (v.guarded w' ≡ v.guarded w) × (orphaned v w' ≡ false)

  finalize_lem :
      (o : K) (w : W)
      → Mine o
      → v.has_finalizer o ≡ v.guarded w
      → orphaned v w ≡ false
      → Ensures
          (λ _. Finalized)
          (Kept w)
          (finalize_in_uaa errors secrets rand_read ent store uc o w)
  unfolding finalize_in_uaa Finalized Kept Erased Saved
  finalize_lem o w m h safe =
      after_bind _ (λ _. Finalized) _ (Kept w) (ent.delete_if_exists uc o) _ w
        (law.deletes_client o w m) (λ w' u. ground arith)
        λ _ w1 d.
          after_bind (λ _. Erased w1) (λ _. Finalized) (Unchanged w1) (Kept w)
            (filtered (ignore_does_not_exist errors)
              (secrets.delete (ent.secret_namespace o) (ent.secret_name o)))
            _ w1 (erase_secret o w1 m) (λ w' u. ground arith)
            λ _ w2 s.
              after_bind (Saved false w2) (λ _. Finalized) (Unchanged w2) (Kept w)
                (save_if store.update (ent.ensure_no_finalizer o)) (λ _. pure tt) w2
                (save_finalizer _ false _ w2 (law.keeps o m).1 (law.removes o)
                  (λ k. ground (arith, law.removes_report o)))
                (λ w' u. ground arith) (λ _ w3 g. (g.2 ∙ s.1, g.3 ∙ s.2 ∙ d.2, g.1))

  Guarded : W → Type 0
  Guarded w = v.guarded w ≡ true

  ignored :
      {A : Type 0} (r : Result E A × W)
      → Ensures (λ _. Guarded) Guarded r
      → Ensures {E = E} {A = Unit {0}}
          (λ _. Guarded)
          Guarded
          (elim (r.0) [
            | ok _ ↦ (ok tt, r.1)
            | err e ↦ return_error (ignore_already_exists errors e) r.1
          ])
  unfolding ignore_already_exists
  ignored (ok _, w') g = g
  ignored (err e, w') g = elim (Bool-cases (errors.is_already_exists e)) [
    | inl h ↦ rw (h, ignore_already_exists) g
    | inr h ↦ rw (h, ignore_already_exists) g
  ]

  create :
      (o : K) (data_text : Str) (w : W)
      → Mine o
      → Guarded w
      → Ensures
          (λ _. Guarded)
          Guarded
          ((filtered (ignore_already_exists errors) (
                secrets.create (record {
                  name = ent.secret_name o;
                  namespace = ent.secret_namespace o;
                  secret = data_text;
                }))
              >>= λ _. ent.create_unless_exists uc o data_text >>= λ created.
                  store.update_status created >>= λ _. pure tt)
            w)
  unfolding Guarded
  create o data_text w m g =
      after_bind (λ _. Guarded) (λ _. Guarded) Guarded Guarded
        (filtered (ignore_already_exists errors) (
          secrets.create (record {
            name = ent.secret_name o;
            namespace = ent.secret_namespace o;
            secret = data_text;
          })))
        _ w
        (ignored _ (
          weaken _ (λ _. Guarded) _ Guarded _ (law.creates_secret o data_text w m) (λ _ w' u. u ∙ g)
            (λ w' u. u ∙ g)))
        (λ w' u. u)
        λ _ w1 g1.
          after_bind (λ o' w'. Mine o' × Guarded w') (λ _. Guarded) Guarded Guarded
            (ent.create_unless_exists uc o data_text) _ w1
            (weaken _ (λ o' w'. Mine o' × Guarded w') _ Guarded _
              (law.creates_client o data_text w1 m) (λ o' w' u. (u.0, u.1 ∙ g1)) (λ w' u. u ∙ g1))
            (λ w' u. u)
            λ created w2 c.
              after_bind _ (λ _. Guarded) _ Guarded (store.update_status created) (λ _. pure tt) w2
                (law.updates_status created w2 c.0) (λ w' u. u.0 ∙ c.1) (λ _ w' u. u.0 ∙ c.1)

  apply_lem :
      (o : K) (w : W)
      → Mine o
      → v.has_finalizer o ≡ v.guarded w
      → orphaned v w ≡ false
      → Ensures (λ _. Guarded) Safe (apply_to_uaa errors secrets rand_read ent store uc o w)
  unfolding apply_to_uaa Safe Saved Guarded generate_secret
  apply_lem o w m h safe =
      after_bind (Saved true w) (λ _. Guarded) (Unchanged w) Safe
        (save_if store.update (ent.ensure_finalizer o)) _ w
        (save_finalizer _ true _ w (law.keeps o m).0 (law.ensures o)
          (λ k. ground (arith, law.ensures_report o)))
        (λ w' u. ground arith)
        λ q w1 g.
          after_bind (λ _. Guarded) (λ _. Guarded) Guarded Safe (generate_secret rand_read) _ w1
            (after_bind _ (λ _. Guarded) _ Guarded (rand_read 20)
              (λ bytes. pure (map secret_char bytes)) w1 (law.randoms 20 w1) (λ w' u. u.0 ∙ g.1)
              (λ _ w' u. u.0 ∙ g.1))
            (λ w' u. ground arith)
            λ fresh w2 k.
              weaken (λ _. Guarded) (λ _. Guarded) Guarded Safe _ (create q fresh w2 g.0 k)
                (λ _ w' u. u) (λ w' u. ground arith)

  -- If the calls keep to `Guards`: however reconciling ends, it leaves neither a secret in Kubernetes
  -- nor a client in UAA without the finalizer on the stored object, if there was none before and the
  -- object is as the API server holds it.
  pub team_no_orphan :
      (ue : K) (w : W)
      → Mine ue
      → v.has_finalizer ue ≡ v.guarded w
      → orphaned v w ≡ false
      → orphaned v (reconcile_with_uaa errors secrets rand_read ent store uc ue w).1 ≡ false
  unfolding reconcile_with_uaa Safe Finalized Kept Guarded
  team_no_orphan ue w m h safe = elim (Bool-cases (ent.being_deleted ue)) [
    | inl e ↦
        rw (e, reconcile_with_uaa)
          (always (λ _. Finalized) (Kept w) Safe _ (finalize_lem ue w m h safe)
            (λ _ w' f. ground arith) (λ w' k. k.1))
    | inr e ↦
        rw (e, reconcile_with_uaa)
          (always (λ _. Guarded) Safe Safe _ (apply_lem ue w m h safe) (λ _ w' f. ground arith)
            (λ w' k. k))
  ]

  -- If the calls keep to `Guards`: when reconciling an entity that is being deleted returns, as the API
  -- server holds it and guarded if it has a secret or a client, both are gone and so is the finalizer,
  -- also if the secret was gone before. When it fails, the finalizer stays as it was.
  pub reconcile-Deleted :
      (ue : K) (w : W)
      → Mine ue
      → v.has_finalizer ue ≡ v.guarded w
      → orphaned v w ≡ false
      → ent.being_deleted ue ≡ true
      → let (r, w') = reconcile_with_uaa errors secrets rand_read ent store uc ue w in
        ((r ≡ ok tt)
          × (v.has_secret w' ≡ false)
          × (v.has_client w' ≡ false)
          × (v.guarded w' ≡ false))
        ⊎ ((e : E) × (r ≡ err e) × (v.guarded w' ≡ v.guarded w))
  unfolding reconcile_with_uaa Finalized Kept
  reconcile-Deleted ue w m h safe dying =
      rw (dying, reconcile_with_uaa) (split _ (finalize_lem ue w m h safe))
    where
      split :
          (r : Result E (Unit {0}) × W)
          → Ensures (λ _. Finalized) (Kept w) r
          → ((r.0 ≡ ok tt)
              × (v.has_secret r.1 ≡ false)
              × (v.has_client r.1 ≡ false)
              × (v.guarded r.1 ≡ false))
            ⊎ ((e : E) × (r.0 ≡ err e) × (v.guarded r.1 ≡ v.guarded w))
      split (ok _, w') k = inl (refl, k.0, k.1, k.2)
      split (err e, w') k = inr (e, refl, k.0)
