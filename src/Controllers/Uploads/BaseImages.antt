-- ===== src/Controllers/Uploads/BaseImages.antt =====
-- Base images: the artifact of api/v1/base_image_types.go over `boshClientImpl`.
use boshv.Base.{
  Bool, true, false, not, ◌&&◌, ◌≡◌, ap, refl, sym, subst, ◌∙◌, [], Str, ◌==◌, if◌then◌else◌, arith,
}
use boshv.Base.Outcome.{Ensures, weaken}
use boshv.Api.Types.{BaseImage, BaseImageSpec, BaseImageStatus, finalizers, set_status}
use boshv.Api.Helpers.{contains_string}
use boshv.Api.BaseImage as ApiBaseImage
use boshv.Kube.{Store}
use boshv.Remote.BoshClient.{DirectorApi, bosh_client_impl}
use boshv.Remote.BoshClient.Uploads.{KeepsUploads, uploaded, deleted}
use boshv.Controllers.Bosh.{reconcile_with_bosh}
use boshv.Controllers.Bosh.Watching.{Watch, Belongs, Faithful}
use boshv.Controllers.Bosh.Safety.{no_orphan}
use boshv.Controllers.Bosh.Views.{Stored, Named, StoreLaws, contains-added, contains-removed}
use boshv.Controllers.Uploads.{KeepsStatus, watch, named_by_status, saves, saves_status}
use boshv.Controllers.Artifacts.{base_image_artifact}

-- The spec of this name and version, whose URL has a file of them.
abbrev pub NamesSpec : (Str → Str × Str) → Str → Str → BaseImageSpec → Type 0
NamesSpec contents name version s =
    (s.base_image_name ≡ name) × (s.version ≡ version) × (contents s.url ≡ (name, version))

abbrev pub Names : (Str → Str × Str) → Str → Str → BaseImageStatus → Type 0
Names contents name version t = NamesSpec contents name version t.original_spec

-- An object as it is read: with the stored status, and of this name and version by its original spec, or
-- by its spec when it has none yet. One that is being deleted has an original spec.
abbrev pub Read :
    {W : Type 0}
    → (Str → Str × Str)
    → Str
    → Str
    → (W → Stored BaseImageStatus)
    → BaseImage
    → W
    → Type 0
Read contents name version stored o w =
    (o.status ≡ (stored w).1)
    × NamesSpec contents name version
        (if o.status.original_spec.base_image_name == [] then o.spec else o.status.original_spec)
    × (ApiBaseImage.being_deleted o ≡ true → (o.status.original_spec.base_image_name == []) ≡ false)

module _ {W E : Type 0} (api : DirectorApi W E) (store : Store W E BaseImage)
    (present : W → Str → Str → Bool) (stored : W → Stored BaseImageStatus)
    (contents : Str → Str × Str)
    (upload_laws : KeepsUploads present stored contents api.has_stemcell
      (λ url sha1. api.upload_stemcell_url url sha1 false)
      api.find_stemcell)
    (ns nm : Str) (store_laws : StoreLaws store present stored ns nm)
    (status_laws : KeepsStatus store stored ns nm) (name version : Str) where
  abbrev named : Belongs W BaseImage
  named =
      named_by_status stored ns nm (Names contents name version) (Read contents name version stored)

  open named use {Mine, Prepared, Ready}

  abbrev seen : Watch W BaseImage
  seen = watch present stored ApiBaseImage.base_image_finalizer name version (λ s. s.available)

  open seen use {guarded, exists}

  creates_lem :
      (o : BaseImage) (w : W)
      → Ready o w
      → Ensures
          (λ o' w'.
            Prepared o' w'
            × (guarded w' ≡ guarded w)
            × (exists w' ≡ true)
            × (o'.status.available ≡ true))
          (λ w'. guarded w' ≡ guarded w)
          (ApiBaseImage.create_unless_exists (bosh_client_impl api) o w)
  unfolding ApiBaseImage.create_unless_exists bosh_client_impl
  creates_lem o w m =
      let spec = o.status.original_spec in
      let o' = set_status o (record o.status { available = true }) in
      weaken
        (λ a w'.
          (a ≡ o') × (present w' spec.base_image_name spec.version ≡ true) × (stored w' ≡ stored w))
        _ (λ w'. stored w' ≡ stored w) _
        (ApiBaseImage.create_unless_exists (bosh_client_impl api) o w)
        (uploaded present stored contents _ _ _ upload_laws spec.base_image_name spec.version
          spec.url spec.sha1 o' w (cc (m.1.0, m.1.1, m.1.2)))
        (λ a w' u. (
          (
            subst (Named ns nm) (sym u.0) m.0,
            subst (λ a. Names contents name version a.status) (sym u.0) m.1,
          ),
          ap (λ s. contains_string s.0 ApiBaseImage.base_image_finalizer) u.2,
          cc (m.1.0, m.1.1, u.1),
          ap (λ a. a.status.available) u.0,
        ))
        (λ w' u. ap (λ s. contains_string s.0 ApiBaseImage.base_image_finalizer) u)

  deletes_lem :
      (o : BaseImage) (w : W)
      → Ready o w
      → Ensures
          (λ _ w'. Ready o w' × (guarded w' ≡ guarded w) × (exists w' ≡ false))
          (λ w'. (guarded w' ≡ guarded w) × (exists w' ≡ exists w))
          (ApiBaseImage.delete_if_exists (bosh_client_impl api) o w)
  unfolding ApiBaseImage.delete_if_exists bosh_client_impl
  deletes_lem o w m =
      let spec = o.status.original_spec in
      weaken
        (λ _ w'. (present w' spec.base_image_name spec.version ≡ false) × (stored w' ≡ stored w)) _
        (λ w'. (present w' ≡ present w) × (stored w' ≡ stored w)) _
        (ApiBaseImage.delete_if_exists (bosh_client_impl api) o w)
        (deleted present stored contents _ _ _ upload_laws spec.base_image_name spec.version w)
        (λ _ w' u. (
          (m.0, m.1, m.2 ∙ sym (ap (λ s. s.1) u.1)),
          ap (λ s. contains_string s.0 ApiBaseImage.base_image_finalizer) u.1,
          cc (m.1.0, m.1.1, u.0),
        ))
        (λ w' u. (
          ap (λ s. contains_string s.0 ApiBaseImage.base_image_finalizer) u.1,
          ap (λ p. p name version) u.0,
        ))

  readies_lem : (o : BaseImage) (w : W) → Mine o w → Prepared (ApiBaseImage.prepare_to_save o).1 w
  unfolding ApiBaseImage.prepare_to_save
  readies_lem o w m = ground arith

  settles_lem :
      (o : BaseImage) (w : W)
      → Mine o w
      → (ApiBaseImage.prepare_to_save o).0 ≡ false
      → Ready (ApiBaseImage.prepare_to_save o).1 w
  unfolding ApiBaseImage.prepare_to_save
  settles_lem o w m e = ground arith

  dies_lem : (o : BaseImage) (w : W) → Mine o w → ApiBaseImage.being_deleted o ≡ true → Ready o w
  dies_lem o w m dying = ground (arith, m.1.2 dying)

  base_image-Faithful : Faithful base_image_artifact store (bosh_client_impl api) seen named
  unfolding ApiBaseImage.ensure_finalizer ApiBaseImage.ensure_no_finalizer
      ApiBaseImage.prepare_to_save
  base_image-Faithful = record {
    updates =
        saves store present stored ApiBaseImage.base_image_finalizer name version ns nm
          (λ s. s.available) (Names contents name version) (Read contents name version stored)
          store_laws status_laws;
    updates_status =
        saves_status store present stored ApiBaseImage.base_image_finalizer name version ns nm
          (λ s. s.available) (Names contents name version) (Read contents name version stored)
          store_laws status_laws;
    creates = creates_lem;
    deletes = deletes_lem;
    readies = λ o w m. readies_lem o w m;
    settles = λ o w m e. settles_lem o w m e;
    dies = λ o w m dying. dies_lem o w m dying;
    keeps = λ o w m. (m, m);
    ensures = λ o. contains-added _ _;
    ensures_report = λ o. refl;
    removes = λ o. contains-removed _ _;
    removes_report = λ o. refl;
    prepares = λ o. ground arith;
  }

  -- By `KeepsUploads`, `StoreLaws` and `KeepsStatus`: reconciling a base image of a name and a version,
  -- as the API server holds it, leaves no base image of them in BOSH while the stored object has no
  -- finalizer, however it ends, if there was none before, the file at the URL has that name and
  -- version, and an object that is being deleted has an original spec.
  pub base_image_no_orphan :
      (o : BaseImage) (w : W)
      → Named ns nm o
      → Read contents name version stored o w
      → contains_string (finalizers o) ApiBaseImage.base_image_finalizer
        ≡ contains_string (stored w).0 ApiBaseImage.base_image_finalizer
      → (present w name version
          && not (contains_string (stored w).0 ApiBaseImage.base_image_finalizer))
        ≡ false
      → let w' = (reconcile_with_bosh base_image_artifact store (bosh_client_impl api) o w).1 in
        (present w' name version
          && not (contains_string (stored w').0 ApiBaseImage.base_image_finalizer))
        ≡ false
  base_image_no_orphan o w m r h safe =
      no_orphan base_image_artifact store (bosh_client_impl api) seen named base_image-Faithful o w
        (m, r) h safe
