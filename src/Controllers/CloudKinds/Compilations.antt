-- ===== src/Controllers/CloudKinds/Compilations.antt =====
-- Compilations: the artifact of api/v1/compilation_types.go over `boshClientImpl`.
use boshv.Base.{false, not, ◌&&◌, ◌≡◌, refl, Option, some, [], ◌∷◌, Str, str, arith}
use boshv.Api.Types.{Compilation, CompilationStatus, finalizers}
use boshv.Api.Helpers.{contains_string}
use boshv.Api.Helpers.Names.{dashed}
use boshv.Api.Compilation as ApiCompilation
use boshv.Kube.{Store}
use boshv.Remote.BoshClient.{DirectorApi, bosh_client_impl, empty_config}
use boshv.Remote.BoshClient.CloudConfigs.{KeepsConfigs, updated, deleted}
use boshv.Controllers.Bosh.{reconcile_with_bosh}
use boshv.Controllers.Bosh.Watching.{Faithful, fixed}
use boshv.Controllers.Bosh.Safety.{no_orphan}
use boshv.Controllers.Bosh.Views.{
  Stored, is_some, Named, StoreLaws, watch, stores, stores_status, creates_config, deletes_config,
  contains-added, contains-removed,
}
use boshv.Controllers.Artifacts.{compilation_artifact}

module _ {W E : Type 0} (api : DirectorApi W E) (store : Store W E Compilation)
    (configs : W → Str → Option Str) (stored : W → Stored CompilationStatus)
    (config_laws : KeepsConfigs api configs stored) (ns nm : Str)
    (store_laws : StoreLaws store configs stored ns nm) where
  abbrev key : Str
  key = dashed (str "compilation") ns nm

  internal_name-key : (o : Compilation) → Named ns nm o → ApiCompilation.internal_name o ≡ key
  unfolding ApiCompilation.internal_name
  internal_name-key o m = cc (m.0, m.1)

  pub compilation-Faithful :
      Faithful
        (compilation_artifact)
        store
        (bosh_client_impl api)
        (watch configs stored ApiCompilation.compilation_finalizer key (λ s. s.available))
        (fixed (Named ns nm))
  unfolding ApiCompilation.ensure_finalizer ApiCompilation.ensure_no_finalizer
      ApiCompilation.prepare_to_save ApiCompilation.create_unless_exists
      ApiCompilation.delete_if_exists bosh_client_impl
  compilation-Faithful = record {
    updates =
        stores api store configs stored ApiCompilation.compilation_finalizer key ns nm
          (λ s. s.available) store_laws;
    updates_status =
        stores_status api store configs stored ApiCompilation.compilation_finalizer key ns nm
          (λ s. s.available) store_laws;
    creates = λ o w m.
        creates_config api store configs stored ApiCompilation.compilation_finalizer key ns nm
          (λ s. s.available) (ApiCompilation.internal_name o)
          (record empty_config {
            networks = ApiCompilation.bosh_client_network o ∷ [];
            azs = ApiCompilation.bosh_client_az o ∷ [];
            compilation = some (ApiCompilation.bosh_client_compilation o);
          })
          ((bosh_client_impl api).create_compilation (ApiCompilation.internal_name o)
            (ApiCompilation.bosh_client_network o) (ApiCompilation.bosh_client_az o)
            (ApiCompilation.bosh_client_compilation o))
          _ w (internal_name-key o m) m refl (updated api configs stored config_laws _ _ w);
    deletes = λ o w m.
        deletes_config api store configs stored ApiCompilation.compilation_finalizer key ns nm
          (λ s. s.available) o (ApiCompilation.internal_name o)
          ((bosh_client_impl api).delete_network (ApiCompilation.internal_name o)) w
          (internal_name-key o m) m (deleted api configs stored config_laws _ w);
    readies = λ o w m. ground arith;
    settles = λ o w m e. ground arith;
    dies = λ o w m dying. m;
    keeps = λ o w m. ground arith;
    ensures = λ o. contains-added _ _;
    ensures_report = λ o. refl;
    removes = λ o. contains-removed _ _;
    removes_report = λ o. refl;
    prepares = λ o. ground arith;
  }

  -- By `KeepsConfigs` and `StoreLaws`: reconciling the compilation of a namespace and name, as the API
  -- server holds it, leaves no cloud config of its internal name in BOSH while the stored compilation
  -- has no finalizer, however it ends, if there was none before.
  pub compilation_no_orphan :
      (o : Compilation) (w : W)
      → Named ns nm o
      → contains_string (finalizers o) ApiCompilation.compilation_finalizer
        ≡ contains_string (stored w).0 ApiCompilation.compilation_finalizer
      → (is_some (configs w key)
          && not (contains_string (stored w).0 ApiCompilation.compilation_finalizer))
        ≡ false
      → let w' = (reconcile_with_bosh (compilation_artifact) store (bosh_client_impl api) o w).1 in
        (is_some (configs w' key)
          && not (contains_string (stored w').0 ApiCompilation.compilation_finalizer))
        ≡ false
  compilation_no_orphan o w m h safe =
      no_orphan (compilation_artifact) store (bosh_client_impl api)
        (watch configs stored ApiCompilation.compilation_finalizer key (λ s. s.available))
        (fixed (Named ns nm)) compilation-Faithful o w m h safe
