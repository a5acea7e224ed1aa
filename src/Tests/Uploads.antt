-- ===== src/Tests/Uploads.antt =====
-- `reconcileWithBOSH` at a release and a base image that are uploaded.
use boshv.Base.{
  Bool, true, false, not, ◌&&◌, ◌≡◌, refl, arith, [], Str, str, str_discrete, join, ◌==◌,
  if◌then◌else◌, ok, raise, pure,
}
use boshv.Api.Types.{
  Release, BaseImage, Object, ReleaseStatus, BaseImageStatus, finalizers, set_finalizers,
}
use boshv.Api.Helpers.{contains_string}
use boshv.Api.Release as ApiRelease
use boshv.Api.Release.{release_finalizer}
use boshv.Api.BaseImage as ApiBaseImage
use boshv.Api.BaseImage.{base_image_finalizer}
use boshv.Base.Outcome.{Ensures}
use boshv.Kube.{Store}
use boshv.Remote.BoshClient.{DirectorApi, bosh_client_impl}
use boshv.Remote.BoshClient.Uploads.{KeepsUploads, assign}
use boshv.Controllers.Artifacts.{release_artifact, base_image_artifact}
use boshv.Controllers.Bosh.{reconcile_with_bosh}
use boshv.Controllers.Bosh.Views.{Stored, StoreLaws}
use boshv.Controllers.Uploads.{KeepsStatus}
use boshv.Controllers.Uploads.Releases.{release_no_orphan}
use boshv.Controllers.Uploads.BaseImages.{base_image_no_orphan}
use boshv.Controllers.Uploads.Mislabelled.{uploads_unchecked}
use boshv.Tests.Names.{release, base_image}

-- What a director has by name and version, and what is stored of one object.
record Shelf (T : Type 0) : Type 0 where
  present : Str → Str → Bool
  stored : Stored T

abbrev files : Str → Str × Str
files url =
    if url == str "https://r" then (str "zookeeper", str "0.0.9") else (str "xenial", str "315.41")

module _ {T : Type 0} where
  abbrev present : Shelf T → Str → Str → Bool
  present w = w.present

  abbrev stored : Shelf T → Stored T
  stored w = w.stored

  abbrev shelf_api : DirectorApi (Shelf T) Str
  shelf_api = record {
    has_release = λ name version w. (ok (w.present name version), w);
    upload_release_url = λ url _ _ _ w.
        (ok tt, record w { present = assign w.present (files url).0 (files url).1 true });
    find_release = λ name version. pure (record {
      delete = λ _ w. (ok tt, record w { present = assign w.present name version false });
    });
    has_stemcell = λ name version w. (ok (w.present name version), w);
    upload_stemcell_url = λ url _ _ w.
        (ok tt, record w { present = assign w.present (files url).0 (files url).1 true });
    find_stemcell = λ name version. pure (record {
      delete = λ _ w. (ok tt, record w { present = assign w.present name version false });
    });
    diff_config = λ _ _ _. pure (str "7");
    update_config = λ _ _ _ _. pure tt;
    delete_config = λ _ _. pure true;
    find_deployment = λ _. raise (str "no deployment");
    marshal_cloud_config = λ c. ok [];
    marshal_deployment = λ d. ok d.name;
  }

  release_laws :
      KeepsUploads present stored files shelf_api.has_release
        (λ url sha1. shelf_api.upload_release_url url sha1 false false)
        shelf_api.find_release
  release_laws = record {
    tells = λ _ _ _. (refl, (refl, refl));
    uploads = λ _ _ _. (refl, refl);
    finds = λ _ _ _. ((λ _ _. (refl, refl)), (refl, refl));
  }

  stemcell_laws :
      KeepsUploads present stored files shelf_api.has_stemcell
        (λ url sha1. shelf_api.upload_stemcell_url url sha1 false)
        shelf_api.find_stemcell
  stemcell_laws = record {
    tells = λ _ _ _. (refl, (refl, refl));
    uploads = λ _ _ _. (refl, refl);
    finds = λ _ _ _. ((λ _ _. (refl, refl)), (refl, refl));
  }

  abbrev store : {S : Type 0} → Store (Shelf T) Str (Object S T)
  store = record {
    get = λ _ _. raise (str "not found");
    create = λ o. pure o;
    update = λ o w.
        (ok (record o { status = w.stored.1 }), record w { stored = (finalizers o, w.stored.1) });
    update_status =
        λ o w. (ok (set_finalizers o w.stored.0), record w { stored = (w.stored.0, o.status) });
    delete = λ _. pure tt;
  }

  store_laws : {S : Type 0} {ns nm : Str} → StoreLaws {S = S} store present stored ns nm
  store_laws = record {
    updates = λ _ _ m. (m, refl, refl, refl);
    updates_status = λ _ _ m. (m, refl, refl, refl);
  }

  status_laws : {S : Type 0} {ns nm : Str} → KeepsStatus {S = S} store stored ns nm
  status_laws = record { updates = λ _ _ _. (refl, refl); updates_status = λ _ _ _. refl }

false_lem : {P : Type 0} → false ≡ true → P
false_lem e = cc

abbrev no_release : Shelf ReleaseStatus
no_release = record { present = λ _ _. false; stored = ([], release.status) }

release_no_orphan_example :
    let w =
      (reconcile_with_bosh release_artifact store
        (bosh_client_impl shelf_api)
        release
        no_release).1 in
    (w.present (str "zookeeper") (str "0.0.9")
      && not (contains_string w.stored.0 release_finalizer))
    ≡ false
unfolding contains_string str str_discrete join ApiRelease.being_deleted
release_no_orphan_example =
    release_no_orphan shelf_api store present stored files release_laws (str "ns") (str "r")
      store_laws status_laws (str "zookeeper") (str "0.0.9") release no_release (refl, refl)
      (refl, (refl, refl, refl), λ e. false_lem e) refl refl

abbrev no_base_image : Shelf BaseImageStatus
no_base_image = record { present = λ _ _. false; stored = ([], base_image.status) }

base_image_no_orphan_example :
    let w =
      (reconcile_with_bosh base_image_artifact store
        (bosh_client_impl shelf_api)
        base_image
        no_base_image).1 in
    (w.present (str "xenial") (str "315.41")
      && not (contains_string w.stored.0 base_image_finalizer))
    ≡ false
unfolding contains_string str str_discrete join ApiBaseImage.being_deleted
base_image_no_orphan_example =
    base_image_no_orphan shelf_api store present stored files stemcell_laws (str "ns") (str "b")
      store_laws status_laws (str "xenial") (str "315.41") base_image no_base_image (refl, refl)
      (refl, (refl, refl, refl), λ e. false_lem e) refl refl

abbrev mislabelled : Release
mislabelled = record release {
  status = record release.status { original_spec = record release.spec { version = str "0.0.8" } };
}

abbrev mislabelled_image : BaseImage
mislabelled_image = record base_image {
  status = record base_image.status {
    original_spec = record base_image.spec { version = str "315.40" };
  };
}

-- What is there once the release is uploaded.
abbrev uploaded : Shelf ReleaseStatus
uploaded = record no_release {
  present = λ name version. name == str "zookeeper" && version == str "0.0.9";
}

uploads_unchecked_example :
    Ensures
      (λ r w1.
        (r.status ≡ record mislabelled.status { available = true })
        × (present w1 (str "zookeeper") (str "0.0.8") ≡ false)
        × (present w1 (str "zookeeper") (str "0.0.9") ≡ true))
      (λ _. Unit)
      (ApiRelease.create_unless_exists (bosh_client_impl shelf_api) mislabelled no_release)
    × Ensures
        (λ b w1.
          (b.status ≡ record mislabelled_image.status { available = true })
          × (present w1 (str "xenial") (str "315.40") ≡ false)
          × (present w1 (str "xenial") (str "315.41") ≡ true))
        (λ _. Unit)
        (ApiBaseImage.create_unless_exists
          (bosh_client_impl shelf_api)
          mislabelled_image
          no_release)
    × ((ApiRelease.delete_if_exists (bosh_client_impl shelf_api) mislabelled uploaded).1.present
        ≡ uploaded.present)
    × ((ApiBaseImage.delete_if_exists
          (bosh_client_impl shelf_api)
          mislabelled_image
          uploaded).1.present
        ≡ uploaded.present)
unfolding str str_discrete
uploads_unchecked_example =
    uploads_unchecked shelf_api present present stored stored files release_laws stemcell_laws
      mislabelled mislabelled_image no_release uploaded (ground arith) (ground arith) refl refl refl
      refl
