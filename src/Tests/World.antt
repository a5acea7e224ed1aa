-- ===== src/Tests/World.antt =====
-- A small world: the cloud configs of a director, and what the API server stores.
use boshv.Base.{
  ℕ, true, false, refl, Option, none, some, List, map, Str, str, join, raise, pure, ok,
}
use boshv.Api.Types.{Object, ObjectMeta, finalizers, set_finalizers}
use boshv.Kube.{Store}
use boshv.Remote.BoshClient.{DirectorApi}
use boshv.Remote.BoshClient.CloudConfigs.{KeepsConfigs, write}
use boshv.Controllers.Bosh.Views.{Stored, StoreLaws}

pub record Site (V : Type 0) : Type 0 where
  pub configs : Str → Option Str
  pub stored : V
  -- How many calls are yet to fail.
  pub faults : ℕ

-- Of one object.
abbrev pub World : Type 0 → Type 0
World T = Site (Stored T)

module _ {V : Type 0} where
  abbrev pub configs : Site V → Str → Option Str
  configs w = w.configs

  abbrev pub stored : Site V → V
  stored w = w.stored

  abbrev pub director_api : DirectorApi (Site V) Str
  director_api = record {
    has_release = λ _ _. pure false;
    upload_release_url = λ _ _ _ _. pure tt;
    find_release = λ _ _. raise (str "no release");
    has_stemcell = λ _ _. pure false;
    upload_stemcell_url = λ _ _ _. pure tt;
    find_stemcell = λ _ _. raise (str "no stemcell");
    diff_config = λ _ _ _. pure (str "7");
    update_config =
        λ _ name _ bytes w. (ok tt, record w { configs = write w.configs name (some bytes) });
    delete_config = λ _ name w. (ok true, record w { configs = write w.configs name none });
    find_deployment = λ _. raise (str "no deployment");
    marshal_cloud_config = λ c. ok (join (str ",") (map (λ az. az.name) c.azs));
    marshal_deployment = λ d. ok d.name;
  }

  pub director_api-KeepsConfigs : KeepsConfigs director_api configs stored
  director_api-KeepsConfigs = record {
    diffs = λ _ _ _. (refl, refl);
    updates = λ _ _ _ _. (refl, refl);
    deletes = λ _ _. (refl, refl);
  }

module _ {T : Type 0} where
  -- The subresource of the status is written apart.
  abbrev pub store : {S : Type 0} → Store (World T) Str (Object S T)
  store = record {
    get = λ _ _. raise (str "not found");
    create = λ o. pure o;
    update = λ o w.
        (ok (record o { status = w.stored.1 }), record w { stored = (finalizers o, w.stored.1) });
    update_status =
        λ o w. (ok (set_finalizers o w.stored.0), record w { stored = (w.stored.0, o.status) });
    delete = λ _. pure tt;
  }

  pub store-StoreLaws : {S : Type 0} {ns nm : Str} → StoreLaws {S = S} store configs stored ns nm
  store-StoreLaws = record {
    updates = λ _ _ m. (m, refl, refl, refl);
    updates_status = λ _ _ m. (m, refl, refl, refl);
  }

abbrev pub meta : Str → Str → List Str → ObjectMeta
meta namespace name finalizers = record {
  name = name;
  namespace = namespace;
  finalizers = finalizers;
  deletion_timestamp_is_zero = true;
  resource_version = str "1";
}

abbrev pub no_configs : Str → Option Str
no_configs _ = none
