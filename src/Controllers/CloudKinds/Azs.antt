-- ===== src/Controllers/CloudKinds/Azs.antt =====
-- Azs: the artifact of api/v1/az_types.go over `boshClientImpl`.
use boshv.Base.{false, not, ◌&&◌, ◌≡◌, refl, Option, [], ◌∷◌, Str, str, arith}
use boshv.Api.Types.{Az, AzStatus, RawPtr, finalizers}
use boshv.Api.Helpers.{contains_string}
use boshv.Api.Helpers.Names.{dashed}
use boshv.Api.Az as ApiAz
use boshv.Kube.{Store}
use boshv.Remote.BoshClient.{DirectorApi, bosh_client_impl, empty_config}
use boshv.Remote.BoshClient.CloudConfigs.{KeepsConfigs, updated, deleted}
use boshv.Controllers.Bosh.{reconcile_with_bosh}
use boshv.Controllers.Bosh.Watching.{Faithful, fixed}
use boshv.Controllers.Bosh.Safety.{no_orphan}
use boshv.Controllers.Bosh.Views.{
  Stored, is_some, Named, StoreLaws, watch, stores, stores_status, creates_config, deletes_config,
  contains-added, contains-removed,
}
use boshv.Controllers.Artifacts.{az_artifact}

module _ {W E : Type 0} (raw_string : RawPtr → Str) (api : DirectorApi W E) (store : Store W E Az)
    (configs : W → Str → Option Str) (stored : W → Stored AzStatus)
    (config_laws : KeepsConfigs api configs stored) (ns nm : Str)
    (store_laws : StoreLaws store configs stored ns nm) where
  abbrev key : Str
  key = dashed (str "az") ns nm

  internal_name-key : (o : Az) → Named ns nm o → ApiAz.internal_name o ≡ key
  unfolding ApiAz.internal_name
  internal_name-key o m = cc (m.0, m.1)

  pub az-Faithful :
      Faithful
        (az_artifact raw_string)
        store
        (bosh_client_impl api)
        (watch configs stored ApiAz.az_finalizer key (λ s. s.available))
        (fixed (Named ns nm))
  unfolding ApiAz.ensure_finalizer ApiAz.ensure_no_finalizer ApiAz.prepare_to_save
      ApiAz.create_unless_exists ApiAz.delete_if_exists bosh_client_impl
  az-Faithful = record {
    updates =
        stores api store configs stored ApiAz.az_finalizer key ns nm (λ s. s.available) store_laws;
    updates_status =
        stores_status api store configs stored ApiAz.az_finalizer key ns nm (λ s. s.available)
          store_laws;
    creates = λ o w m.
        creates_config api store configs stored ApiAz.az_finalizer key ns nm (λ s. s.available)
          (ApiAz.internal_name o)
          (record empty_config {
            azs =
                record {
                  name = ApiAz.internal_name o;
                  cloud_properties = o.status.original_cloud_properties;
                }
                ∷ [];
          })
          ((bosh_client_impl api).create_az (ApiAz.internal_name o) (record {
            name = ApiAz.internal_name o;
            cloud_properties = o.status.original_cloud_properties;
          }))
          _ w (internal_name-key o m) m refl (updated api configs stored config_laws _ _ w);
    deletes = λ o w m.
        deletes_config api store configs stored ApiAz.az_finalizer key ns nm (λ s. s.available) o
          (ApiAz.internal_name o) ((bosh_client_impl api).delete_az (ApiAz.internal_name o)) w
          (internal_name-key o m) m (deleted api configs stored config_laws _ w);
    readies = λ o w m. ground arith;
    settles = λ o w m e. ground arith;
    dies = λ o w m dying. m;
    keeps = λ o w m. ground arith;
    ensures = λ o. contains-added _ _;
    ensures_report = λ o. refl;
    removes = λ o. contains-removed _ _;
    removes_report = λ o. refl;
    prepares = λ o. ground arith;
  }

  -- By `KeepsConfigs` and `StoreLaws`: reconciling the AZ of a namespace and name, as the API server
  -- holds it, leaves no cloud config of its internal name in BOSH while the stored AZ has no finalizer,
  -- however it ends, if there was none before.
  pub az_no_orphan :
      (o : Az) (w : W)
      → Named ns nm o
      → contains_string (finalizers o) ApiAz.az_finalizer
        ≡ contains_string (stored w).0 ApiAz.az_finalizer
      → (is_some (configs w key) && not (contains_string (stored w).0 ApiAz.az_finalizer)) ≡ false
      → let w' =
          (reconcile_with_bosh (az_artifact raw_string) store (bosh_client_impl api) o w).1 in
        (is_some (configs w' key) && not (contains_string (stored w').0 ApiAz.az_finalizer)) ≡ false
  az_no_orphan o w m h safe =
      no_orphan (az_artifact raw_string) store (bosh_client_impl api)
        (watch configs stored ApiAz.az_finalizer key (λ s. s.available)) (fixed (Named ns nm))
        az-Faithful o w m h safe
