-- ===== src/Tests/Bosh.antt =====
-- `reconcileWithBOSH` at AZs: one that is new, and one that is being deleted.
use boshv.Base.{
  false, not, ◌&&◌, ◌⊎◌, ◌≡◌, refl, true, Result, ok, err, none, some, [], ◌∷◌, Str, str,
  str_discrete, join, ◌==◌, if◌then◌else◌,
}
use boshv.Api.Types.{Az, AzStatus, RawPtr}
use boshv.Api.Helpers.{contains_string}
use boshv.Api.Az.{
  az_finalizer, prepare_to_save, ensure_finalizer, create_unless_exists, internal_name,
  being_deleted,
}
use boshv.Remote.BoshClient.{bosh_client_impl}
use boshv.Controllers.Artifacts.{az_artifact}
use boshv.Controllers.Bosh.{BoshArtifact, reconcile_with_bosh}
use boshv.Controllers.Bosh.Watching.{Watch, Faithful, fixed, orphaned}
use boshv.Controllers.Bosh.Safety.{no_orphan, reconcile-Applied, reconcile-Finalized}
use boshv.Controllers.Bosh.Views.{Named, is_some, watch}
use boshv.Controllers.CloudKinds.Azs.{az-Faithful, az_no_orphan}
use boshv.Tests.World.{
  World, configs, stored, director_api, director_api-KeepsConfigs, store, store-StoreLaws, meta,
  no_configs,
}

abbrev pub raw_string : RawPtr → Str
raw_string none = str "nil"
raw_string (some r) = r.raw

abbrev pub new_az : Az
new_az = record {
  metadata = meta (str "ns") (str "z1") (str "other" ∷ []);
  spec = record { cloud_properties = none };
  status = record {
    immutable_fields_frozen = false;
    warning = [];
    original_cloud_properties = none;
    available = false;
  };
}

abbrev pub start : World AzStatus
start = record { configs = no_configs; stored = (str "other" ∷ [], new_az.status); faults = 0 }

abbrev dying_az : Az
dying_az = record new_az {
  metadata = record new_az.metadata {
    finalizers = az_finalizer ∷ [];
    deletion_timestamp_is_zero = false;
  };
}

abbrev live : World AzStatus
live = record {
  configs = λ name. if name == str "az-ns-z1" then some (str "az-ns-z1") else none;
  stored = (az_finalizer ∷ [], new_az.status);
  faults = 0;
}

abbrev pub artifact : BoshArtifact (World AzStatus) Str Az
artifact = az_artifact raw_string

abbrev pub view : Watch (World AzStatus) Az
view = watch configs stored az_finalizer (str "az-ns-z1") (λ s. s.available)

abbrev pub Mine : Az → Type 0
Mine = Named (str "ns") (str "z1")

pub law : Faithful artifact store (bosh_client_impl director_api) view (fixed Mine)
unfolding str str_discrete join
law =
    az-Faithful raw_string director_api store configs stored director_api-KeepsConfigs (str "ns")
      (str "z1") store-StoreLaws

abbrev reconciled : Az → World AzStatus → Result Str Unit × World AzStatus
reconciled = reconcile_with_bosh artifact store (bosh_client_impl director_api)

no_orphan_example : orphaned view (reconciled new_az start).1 ≡ false
unfolding contains_string str str_discrete join
no_orphan_example =
    no_orphan artifact store (bosh_client_impl director_api) view (fixed Mine) law new_az start
      (refl, refl) refl refl

reconcile-Applied_example :
    let w = (reconciled new_az start).1 in
    (view.exists w ≡ true) × (view.guarded w ≡ true) × (view.reported w ≡ true)
unfolding contains_string str reconcile_with_bosh bosh_client_impl prepare_to_save ensure_finalizer
    create_unless_exists internal_name being_deleted str_discrete join
reconcile-Applied_example =
    reconcile-Applied artifact store (bosh_client_impl director_api) view (fixed Mine) law new_az
      start (refl, refl) refl refl refl refl

reconcile-Finalized_example :
    let (r, w) = reconciled dying_az live in
    ((r ≡ ok tt) × (view.exists w ≡ false) × (view.guarded w ≡ false))
    ⊎ ((e : Str) × (r ≡ err e) × (view.guarded w ≡ true))
unfolding contains_string str being_deleted str_discrete join
reconcile-Finalized_example =
    reconcile-Finalized artifact store (bosh_client_impl director_api) view (fixed Mine) law
      dying_az live (refl, refl) refl refl refl

az_no_orphan_example :
    let w = (reconciled new_az start).1 in
    (is_some (w.configs (str "az-ns-z1")) && not (contains_string w.stored.0 az_finalizer)) ≡ false
unfolding contains_string str str_discrete join
az_no_orphan_example =
    az_no_orphan raw_string director_api store configs stored director_api-KeepsConfigs (str "ns")
      (str "z1") store-StoreLaws new_az start (refl, refl) refl refl

-- The run that the examples are about: the config is there, and so is the finalizer.
new_az_run :
    let w = (reconciled new_az start).1 in
    (w.configs (str "az-ns-z1") ≡ some (str "az-ns-z1"))
    × (w.stored.0 ≡ str "other" ∷ az_finalizer ∷ [])
unfolding contains_string str reconcile_with_bosh bosh_client_impl prepare_to_save ensure_finalizer
    create_unless_exists internal_name being_deleted str_discrete join
new_az_run = (refl, refl)
