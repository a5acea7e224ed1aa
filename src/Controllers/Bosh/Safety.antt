-- ===== src/Controllers/Bosh/Safety.antt =====
-- `reconcileWithBOSH` of controllers/common.go against what it is for: an artifact in BOSH is never left
-- without the finalizer that makes Kubernetes wait for its removal.
use boshv.Base.{
  Bool, true, false, ◌≡◌, refl, ◌∙◌, ◌⊎◌, inl, inr, Result, ok, err, pure, ◌>>=◌, Bool-cases, arith,
}
use boshv.Base.Outcome.{Ensures, after_bind, after_return, always, weaken}
use boshv.Kube.{Store}
use boshv.Remote.BoshClient.{BoshClient}
use boshv.Controllers.Bosh.Watching.{Watch, Belongs, Faithful, orphaned}
use boshv.Controllers.Bosh.{
  BoshArtifact, save_if, finalize_in_bosh, apply_to_bosh, reconcile_with_bosh,
}

module _ {W E K : Type 0} (art : BoshArtifact W E K) (store : Store W E K) (bc : BoshClient W E)
    (v : Watch W K) (c : Belongs W K) (law : Faithful art store bc v c) where
  open c use {Mine, Prepared, Ready}

  Untouched : W → W → Type 0
  Untouched w w' = (v.guarded w' ≡ v.guarded w) × (v.exists w' ≡ v.exists w)

  Saved : W → K → W → Type 0
  Saved w o' w' =
      Ready o' w'
      × (v.guarded w' ≡ v.guarded w)
      × (v.exists w' ≡ v.exists w)
      × (v.has_finalizer o' ≡ v.guarded w)

  Guards : Bool → W → K → W → Type 0
  Guards b w o' w' = Ready o' w' × (v.guarded w' ≡ b) × (v.exists w' ≡ v.exists w)

  save_status :
      (b : Bool) (o : K) (w : W)
      → Prepared o w
      → (b ≡ false → Ready o w)
      → v.has_finalizer o ≡ v.guarded w
      → Ensures (Saved w) (Untouched w) (save_if store.update_status (b, o) w)
  unfolding Saved Untouched
  save_status true o w m r h =
      weaken _ _ _ _ (store.update_status o w) (law.updates_status o w m)
        (λ o' w' k. (k.0, k.1, k.2, k.3)) (λ w' k. k)
  save_status false o w m r h = (r refl, refl, refl, h)

  -- A write that is due, or none because the stored object is in the wanted state.
  save_finalizer :
      (b c : Bool) (o : K) (w : W)
      → Ready o w
      → v.has_finalizer o ≡ c
      → (b ≡ false → v.guarded w ≡ c)
      → Ensures (Guards c w) (Untouched w) (save_if store.update (b, o) w)
  unfolding Guards Untouched
  save_finalizer true c o w m h k =
      weaken _ _ _ _ (store.update o w) (law.updates o w m) (λ o' w' u. (u.0, u.1 ∙ h, u.2))
        (λ w' u. u)
  save_finalizer false c o w m h k = (m, k refl, refl)

  Applied : W → Type 0
  Applied w = (v.exists w ≡ true) × (v.guarded w ≡ true) × (v.reported w ≡ true)

  Safe : W → Type 0
  Safe w = orphaned v w ≡ false

  report :
      (o : K) (w : W)
      → Prepared o w
      → v.exists w ≡ true
      → v.guarded w ≡ true
      → v.available o ≡ true
      → Ensures (λ _. Applied) Safe ((store.update_status o >>= λ _. pure tt) w)
  unfolding Applied Safe
  report o w m x g a =
      after_bind _ (λ _. Applied) _ Safe (store.update_status o) (λ _. pure tt) w
        (law.updates_status o w m) (λ w' u. ground arith) (λ o' w' u. (u.2 ∙ x, u.1 ∙ g, u.4 ∙ a))

  create :
      (o : K) (w : W)
      → Ready o w
      → v.guarded w ≡ true
      → Ensures
          (λ _. Applied)
          Safe
          ((art.create_unless_exists bc o >>= λ c. store.update_status c >>= λ _. pure tt) w)
  unfolding Safe
  create o w m g =
      after_bind _ (λ _. Applied) _ Safe (art.create_unless_exists bc o) _ w (law.creates o w m)
        (λ w' u. ground arith) (λ c w' u. report c w' u.0 u.2 (u.1 ∙ g) u.3)

  apply_lem :
      (o : K) (w : W)
      → Mine o w
      → v.has_finalizer o ≡ v.guarded w
      → orphaned v w ≡ false
      → Ensures (λ _. Applied) Safe (apply_to_bosh art store bc o w)
  unfolding apply_to_bosh Safe Saved Untouched Guards
  apply_lem o w m h safe =
      after_bind (Saved w) (λ _. Applied) (Untouched w) Safe
        (save_if store.update_status (art.prepare_to_save o)) _ w
        (save_status _ _ w (law.readies o w m) (law.settles o w m) (law.prepares o ∙ h))
        (λ w' u. ground arith)
        λ p w1 s.
          after_bind (Guards true w1) (λ _. Applied) (Untouched w1) Safe
            (save_if store.update (art.ensure_finalizer p)) _ w1
            (save_finalizer _ true _ w1 (law.keeps p w1 s.0).0 (law.ensures p)
              (λ k. ground (arith, law.ensures_report p)))
            (λ w' u. ground arith) (λ q w2 g. create q w2 g.0 g.1)

  Finalized : W → Type 0
  Finalized w = (v.exists w ≡ false) × (v.guarded w ≡ false)

  -- A failure keeps the finalizer, and with it the object.
  Kept : W → W → Type 0
  Kept w w' = (v.guarded w' ≡ v.guarded w) × (orphaned v w' ≡ false)

  finalize_lem :
      (o : K) (w : W)
      → Ready o w
      → v.has_finalizer o ≡ v.guarded w
      → orphaned v w ≡ false
      → Ensures (λ _. Finalized) (Kept w) (finalize_in_bosh art store bc o w)
  unfolding finalize_in_bosh Finalized Kept Guards Untouched
  finalize_lem o w m h safe =
      after_bind _ (λ _. Finalized) _ (Kept w) (art.delete_if_exists bc o) _ w (law.deletes o w m)
        (λ w' u. ground arith)
        λ _ w1 d.
          after_bind (Guards false w1) (λ _. Finalized) (Untouched w1) (Kept w)
            (save_if store.update (art.ensure_no_finalizer o)) (λ _. pure tt) w1
            (save_finalizer _ false _ w1 (law.keeps o w1 d.0).1 (law.removes o)
              (λ k. ground (arith, law.removes_report o)))
            (λ w' u. ground arith) (λ _ w2 g. (g.2 ∙ d.2, g.1))

  -- If the calls are `Faithful`: however reconciling ends, it leaves no artifact in BOSH without the
  -- finalizer on the stored object, if there was none before and the object is as the API server holds
  -- it.
  pub no_orphan :
      (ba : K) (w : W)
      → Mine ba w
      → v.has_finalizer ba ≡ v.guarded w
      → orphaned v w ≡ false
      → orphaned v (reconcile_with_bosh art store bc ba w).1 ≡ false
  unfolding reconcile_with_bosh Safe Applied Finalized Kept
  no_orphan ba w m h safe = elim (Bool-cases (art.being_deleted ba)) [
    | inl e ↦
        rw (e, reconcile_with_bosh)
          (always (λ _. Finalized) (Kept w) Safe _ (finalize_lem ba w (law.dies ba w m e) h safe)
            (λ _ w' f. ground arith) (λ w' k. k.1))
    | inr e ↦
        rw (e, reconcile_with_bosh)
          (always (λ _. Applied) Safe Safe _ (apply_lem ba w m h safe) (λ _ w' f. ground arith)
            (λ w' k. k))
  ]

  -- If the calls are `Faithful`: when reconciling an object that is not being deleted returns, as the
  -- API server holds it and guarded if its artifact exists, the artifact exists in BOSH, the stored
  -- object has the finalizer, and its status says that the artifact is available.
  pub reconcile-Applied :
      (ba : K) (w : W)
      → Mine ba w
      → v.has_finalizer ba ≡ v.guarded w
      → orphaned v w ≡ false
      → art.being_deleted ba ≡ false
      → (reconcile_with_bosh art store bc ba w).0 ≡ ok tt
      → let w' = (reconcile_with_bosh art store bc ba w).1 in
        (v.exists w' ≡ true) × (v.guarded w' ≡ true) × (v.reported w' ≡ true)
  unfolding reconcile_with_bosh Applied
  reconcile-Applied ba w m h safe live =
      rw (live, reconcile_with_bosh) (after_return (λ _. Applied) Safe _ (apply_lem ba w m h safe))

  -- If the calls are `Faithful`: when reconciling an object that is being deleted returns, as the API
  -- server holds it and guarded if its artifact exists, the artifact is gone from BOSH and the
  -- stored object no longer has the finalizer. When it fails, the finalizer stays as it was.
  pub reconcile-Finalized :
      (ba : K) (w : W)
      → Mine ba w
      → v.has_finalizer ba ≡ v.guarded w
      → orphaned v w ≡ false
      → art.being_deleted ba ≡ true
      → let (r, w') = reconcile_with_bosh art store bc ba w in
        ((r ≡ ok tt) × (v.exists w' ≡ false) × (v.guarded w' ≡ false))
        ⊎ ((e : E) × (r ≡ err e) × (v.guarded w' ≡ v.guarded w))
  unfolding reconcile_with_bosh Finalized Kept
  reconcile-Finalized ba w m h safe dying =
      rw (dying, reconcile_with_bosh) (split _ (finalize_lem ba w (law.dies ba w m dying) h safe))
    where
      split :
          (r : Result E (Unit {0}) × W)
          → Ensures (λ _. Finalized) (Kept w) r
          → ((r.0 ≡ ok tt) × (v.exists r.1 ≡ false) × (v.guarded r.1 ≡ false))
            ⊎ ((e : E) × (r.0 ≡ err e) × (v.guarded r.1 ≡ v.guarded w))
      split (ok _, w') k = inl (refl, k.0, k.1)
      split (err e, w') k = inr (e, refl, k.0)
