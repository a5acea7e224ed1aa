-- ===== src/Controllers/Bosh/Watching.antt =====
-- One object and its artifact as they are watched while `reconcileWithBOSH` of controllers/common.go
-- runs, and what the calls that it makes do to them.
use boshv.Base.{Bool, true, false, not, ◌&&◌, ◌≡◌}
use boshv.Base.Outcome.{Ensures}
use boshv.Kube.{Store}
use boshv.Remote.BoshClient.{BoshClient}
use boshv.Controllers.Bosh.{BoshArtifact}

-- What can be seen of one object: whether the stored object carries the finalizer, whether its
-- artifact exists in BOSH, whether the stored status says that it is available, and the same of an
-- object in memory.
pub record Watch (W K : Type 0) : Type 0 where
  pub guarded : W → Bool
  pub exists : W → Bool
  pub reported : W → Bool
  pub has_finalizer : K → Bool
  pub available : K → Bool

-- An artifact that exists and that no finalizer guards.
abbrev pub orphaned : {W K : Type 0} → Watch W K → W → Bool
orphaned v w = v.exists w && not (v.guarded w)

-- Which objects in memory stand for the watched one: `Mine` as one is read, `Prepared` when its status
-- is to be written, and `Ready` while the stored status agrees with it.
pub record Belongs (W K : Type 0) : Type 1 where
  pub Mine : K → W → Type 0
  pub Prepared : K → W → Type 0
  pub Ready : K → W → Type 0

-- Of a kind whose artifact is known by what never changes of the object.
abbrev pub fixed : {W K : Type 0} → (K → Type 0) → Belongs W K
fixed Mine = record { Mine = λ o _. Mine o; Prepared = λ o _. Mine o; Ready = λ o _. Mine o }

module _ {W E K : Type 0} (art : BoshArtifact W E K) (store : Store W E K) (bc : BoshClient W E)
    (v : Watch W K) (c : Belongs W K) where
  open c use {Mine, Prepared, Ready}

  -- What the API server and the artifact's calls do to it. One that is being deleted is ready as it
  -- stands. A write that fails writes nothing, a status update leaves the finalizers alone, and a
  -- successful write hands back the stored object.
  pub record Faithful : Type 0 where
    pub updates :
        (o : K) (w : W)
        → Ready o w
        → Ensures
            (λ o' w'. Ready o' w' × (v.guarded w' ≡ v.has_finalizer o) × (v.exists w' ≡ v.exists w))
            (λ w'. (v.guarded w' ≡ v.guarded w) × (v.exists w' ≡ v.exists w))
            (store.update o w)
    pub updates_status :
        (o : K) (w : W)
        → Prepared o w
        → Ensures
            (λ o' w'.
              Ready o' w'
              × (v.guarded w' ≡ v.guarded w)
              × (v.exists w' ≡ v.exists w)
              × (v.has_finalizer o' ≡ v.guarded w)
              × (v.reported w' ≡ v.available o))
            (λ w'. (v.guarded w' ≡ v.guarded w) × (v.exists w' ≡ v.exists w))
            (store.update_status o w)
    pub creates :
        (o : K) (w : W)
        → Ready o w
        → Ensures
            (λ o' w'.
              Prepared o' w'
              × (v.guarded w' ≡ v.guarded w)
              × (v.exists w' ≡ true)
              × (v.available o' ≡ true))
            (λ w'. v.guarded w' ≡ v.guarded w)
            (art.create_unless_exists bc o w)
    pub deletes :
        (o : K) (w : W)
        → Ready o w
        → Ensures
            (λ _ w'. Ready o w' × (v.guarded w' ≡ v.guarded w) × (v.exists w' ≡ false))
            (λ w'. (v.guarded w' ≡ v.guarded w) × (v.exists w' ≡ v.exists w))
            (art.delete_if_exists bc o w)
    pub readies : (o : K) (w : W) → Mine o w → Prepared (art.prepare_to_save o).1 w
    pub settles :
        (o : K) (w : W)
        → Mine o w
        → (art.prepare_to_save o).0 ≡ false
        → Ready (art.prepare_to_save o).1 w
    pub dies : (o : K) (w : W) → Mine o w → art.being_deleted o ≡ true → Ready o w
    pub keeps :
        (o : K) (w : W)
        → Ready o w
        → Ready (art.ensure_finalizer o).1 w × Ready (art.ensure_no_finalizer o).1 w
    pub ensures : (o : K) → v.has_finalizer (art.ensure_finalizer o).1 ≡ true
    pub ensures_report : (o : K) → (art.ensure_finalizer o).0 ≡ not (v.has_finalizer o)
    pub removes : (o : K) → v.has_finalizer (art.ensure_no_finalizer o).1 ≡ false
    pub removes_report : (o : K) → (art.ensure_no_finalizer o).0 ≡ v.has_finalizer o
    pub prepares : (o : K) → v.has_finalizer (art.prepare_to_save o).1 ≡ v.has_finalizer o
