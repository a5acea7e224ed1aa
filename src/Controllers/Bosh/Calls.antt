-- ===== src/Controllers/Bosh/Calls.antt =====
-- What the calls of `reconcileWithBOSH` of controllers/common.go do, one after the other.
use boshv.Base.{Bool, true, false, Io, pure, Bool-cases, inl, inr}
use boshv.Base.Runs.{Chains, Any, Runs, Runs-bind}
use boshv.Kube.{Store}
use boshv.Remote.BoshClient.{BoshClient}
use boshv.Controllers.Bosh.{
  BoshArtifact, save_if, finalize_in_bosh, apply_to_bosh, reconcile_with_bosh,
}

module _ {W E K : Type 0} (art : BoshArtifact W E K) (store : Store W E K) (bc : BoshClient W E)
    (R F : W → W → Type 0) (Held : K → Type 0) where
  -- Each call runs well on the objects that are held, and hands on one of them.
  pub record Acts : Type 0 where
    pub updates : (o : K) → Held o → Runs R F Held (store.update o)
    pub updates_status : (o : K) → Held o → Runs R F Held (store.update_status o)
    pub creates : (o : K) → Held o → Runs R F Held (art.create_unless_exists bc o)
    pub deletes : (o : K) → Held o → Runs R F Any (art.delete_if_exists bc o)
    pub prepares : (o : K) → Held o → Held (art.prepare_to_save o).1
    pub guards : (o : K) → Held o → Held (art.ensure_finalizer o).1
    pub unguards : (o : K) → Held o → Held (art.ensure_no_finalizer o).1

  module _ (chains : Chains R F) (acts : Acts) where
    saves :
        (save : K → Io W E K)
        → ((o : K) → Held o → Runs R F Held (save o))
        → (x : Bool × K) → Held x.1
        → Runs R F Held (save_if save x)
    saves save h (true, o) held = h o held
    saves save h (false, o) held = λ w. (held, chains.still w)

    apply-Runs : (o : K) → Held o → Runs R F Any (apply_to_bosh art store bc o)
    unfolding apply_to_bosh
    apply-Runs o held =
        Runs-bind R F chains Held Any (save_if store.update_status (art.prepare_to_save o)) _
          (saves store.update_status acts.updates_status (art.prepare_to_save o)
            (acts.prepares o held))
          λ q h.
            Runs-bind R F chains Held Any (save_if store.update (art.ensure_finalizer q)) _
              (saves store.update acts.updates (art.ensure_finalizer q) (acts.guards q h))
              λ g h.
                Runs-bind R F chains Held Any (art.create_unless_exists bc g) _ (acts.creates g h)
                  λ c h.
                    Runs-bind R F chains Held Any (store.update_status c) (λ _. pure tt)
                      (acts.updates_status c h) λ _ _ w. (tt, chains.still w)

    finalize-Runs : (o : K) → Held o → Runs R F Any (finalize_in_bosh art store bc o)
    unfolding finalize_in_bosh
    finalize-Runs o held =
        Runs-bind R F chains Any Any (art.delete_if_exists bc o) _ (acts.deletes o held) λ _ _.
          Runs-bind R F chains Held Any (save_if store.update (art.ensure_no_finalizer o))
            (λ _. pure tt)
            (saves store.update acts.updates (art.ensure_no_finalizer o) (acts.unguards o held))
            λ _ _ w. (tt, chains.still w)

    pub reconcile-Runs : (o : K) → Held o → Runs R F Any (reconcile_with_bosh art store bc o)
    unfolding reconcile_with_bosh
    reconcile-Runs o held = elim (Bool-cases (art.being_deleted o)) [
      | inl e ↦ rw (e, reconcile_with_bosh) (finalize-Runs o held)
      | inr e ↦ rw (e, reconcile_with_bosh) (apply-Runs o held)
    ]
