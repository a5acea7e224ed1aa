-- ===== src/Controllers/CloudKinds/Networks.antt =====
-- Networks: the artifact of api/v1/network_types.go over `boshClientImpl`. Its references to AZs are
-- looked up before anything is written.
use boshv.Base.{
  Bool, ap, true, false, not, ◌&&◌, ◌≡◌, refl, ◌∙◌, Option, [], ◌∷◌, Str, str, Io, pure, ◌>>=◌,
  for_each, List, arith,
}
use boshv.Base.Outcome.{Ensures, Keeps, Keeps-bind, Keeps-for_each, after_bind, weaken}
use boshv.Api.Types.{Network, NetworkStatus, Subnet, RawPtr, finalizers, namespace, set_status}
use boshv.Api.Helpers.{contains_string}
use boshv.Api.Helpers.Names.{dashed}
use boshv.Api.Network as ApiNetwork
use boshv.Api.Az as ApiAz
use boshv.Kube.{Kube, Store}
use boshv.Remote.Config
use boshv.Remote.BoshClient.{DirectorApi, bosh_client_impl, empty_config}
use boshv.Remote.BoshClient.CloudConfigs.{KeepsConfigs, Same, updated, deleted}
use boshv.Controllers.Bosh.{reconcile_with_bosh}
use boshv.Controllers.Bosh.Watching.{Faithful, fixed}
use boshv.Controllers.Bosh.Safety.{no_orphan}
use boshv.Controllers.Bosh.Views.{
  Stored, is_some, Named, StoreLaws, watch, stores, stores_status, creates_config, deletes_config,
  contains-added, contains-removed,
}
use boshv.Controllers.Artifacts.{network_artifact}

module _ {W E : Type 0} (raw_string : RawPtr → Str) (api : DirectorApi W E) (kube : Kube W E)
    (store : Store W E Network) (configs : W → Str → Option Str) (stored : W → Stored NetworkStatus)
    (config_laws : KeepsConfigs api configs stored) (ns nm : Str)
    (store_laws : StoreLaws store configs stored ns nm) where
  abbrev key : Str
  key = dashed (str "network") ns nm

  internal_name-key : (o : Network) → Named ns nm o → ApiNetwork.internal_name o ≡ key
  unfolding ApiNetwork.internal_name
  internal_name-key o m = cc (m.0, m.1)

  prepare_to_save-metadata :
      (o : Network) → (ApiNetwork.prepare_to_save raw_string o).1.metadata ≡ o.metadata
  unfolding ApiNetwork.prepare_to_save
  prepare_to_save-metadata o = ground arith

  -- To look up an AZ changes neither the cloud configs nor what is stored of the network.
  abbrev pub ReadsAzs : Type 0
  ReadsAzs =
      (namespace name : Str) (w : W)
      → Ensures (λ _. Same api configs stored w) (Same api configs stored w)
          (kube.azs.get namespace name w)

  Same-trans :
      (w w' w'' : W)
      → Same api configs stored w w'
      → Same api configs stored w' w''
      → Same api configs stored w w''
  Same-trans w w' w'' s t = (t.0 ∙ s.0, t.1 ∙ s.1)

  abbrev Reads : {A : Type 0} → Io W E A → Type 0
  Reads = Keeps (Same api configs stored) (λ w. (refl, refl)) Same-trans

  abbrev reads_then :
      {A B : Type 0} (m : Io W E A) (f : A → Io W E B)
      → Reads m
      → ((a : A) → Reads (f a))
      → Reads (m >>= f)
  reads_then = Keeps-bind (Same api configs stored) (λ w. (refl, refl)) Same-trans

  abbrev reads_each :
      {A B : Type 0} (f : A → Io W E B) (xs : List A)
      → ((x : A) → Reads (f x))
      → Reads (for_each f xs)
  reads_each = Keeps-for_each (Same api configs stored) (λ w. (refl, refl)) Same-trans

  module _ (reads : ReadsAzs) where
    resolve_az-Reads : (n : Network) (a : Str) → Reads (ApiNetwork.resolve_az kube n a)
    unfolding ApiNetwork.resolve_az
    resolve_az-Reads n a =
        reads_then (kube.azs.get (namespace n) a) (λ az. pure (ApiAz.internal_name az))
          (reads (namespace n) a) λ az w. (refl, refl)

    resolve_subnet-Reads : (n : Network) (s : Subnet) → Reads (ApiNetwork.resolve_subnet kube n s)
    unfolding ApiNetwork.resolve_subnet
    resolve_subnet-Reads n s =
        reads_then (for_each (ApiNetwork.resolve_az kube n) s.azs)
          (λ azs. pure (record {
            range = s.range;
            gateway = s.gateway;
            dns = s.dns;
            reserved = s.reserved;
            static = s.static;
            azs = azs;
            cloud_properties = s.cloud_properties;
          }))
          (reads_each (ApiNetwork.resolve_az kube n) s.azs (resolve_az-Reads n))
          λ azs w. (refl, refl)

    resolve_references-Reads : (n : Network) → Reads (ApiNetwork.resolve_references kube n)
    unfolding ApiNetwork.resolve_references
    resolve_references-Reads n =
        reads_then (for_each (ApiNetwork.resolve_subnet kube n) n.status.original_spec.subnets)
          (λ subnets. pure (record {
            name = ApiNetwork.internal_name n;
            type = n.status.original_spec.type;
            subnets = subnets;
          }))
          (reads_each (ApiNetwork.resolve_subnet kube n) n.status.original_spec.subnets
            (resolve_subnet-Reads n))
          λ subnets w. (refl, refl)

    abbrev guards : Stored NetworkStatus → Bool
    guards s = contains_string s.0 ApiNetwork.network_finalizer

    abbrev guarded : W → Bool
    guarded w = guards (stored w)

    Created : W → Network → W → Type 0
    Created w o' w' =
        Named ns nm o'
        × (guarded w' ≡ guarded w)
        × (is_some (configs w' key) ≡ true)
        × (o'.status.available ≡ true)

    -- What follows the lookups.
    abbrev written : Network → Config.Network → Io W E Network
    written o network = do
      _ ← (bosh_client_impl api).create_network (ApiNetwork.internal_name o) network
      pure (set_status o (record o.status { available = true }))

    written-Created :
        (o : Network) (network : Config.Network) (w : W)
        → Named ns nm o
        → Ensures (Created w) (λ w'. guarded w' ≡ guarded w) (written o network w)
    unfolding Created bosh_client_impl
    written-Created o network w m =
        creates_config api store configs stored ApiNetwork.network_finalizer key ns nm
          (λ s. s.available) (ApiNetwork.internal_name o)
          (record empty_config { networks = network ∷ [] })
          ((bosh_client_impl api).create_network (ApiNetwork.internal_name o) network)
          (set_status o (record o.status { available = true })) w (internal_name-key o m) m refl
          (updated api configs stored config_laws _ _ w)

    network-Faithful :
        Faithful
          (network_artifact raw_string kube)
          store
          (bosh_client_impl api)
          (watch configs stored ApiNetwork.network_finalizer key (λ s. s.available))
          (fixed (Named ns nm))
    unfolding ApiNetwork.ensure_finalizer ApiNetwork.ensure_no_finalizer
        ApiNetwork.create_unless_exists ApiNetwork.delete_if_exists bosh_client_impl Created
    network-Faithful = record {
      updates =
          stores api store configs stored ApiNetwork.network_finalizer key ns nm (λ s. s.available)
            store_laws;
      updates_status =
          stores_status api store configs stored ApiNetwork.network_finalizer key ns nm
            (λ s. s.available) store_laws;
      creates = λ o w m.
          after_bind (λ _. Same api configs stored w) (Created w) (Same api configs stored w)
            (λ w'. guarded w' ≡ guarded w) (ApiNetwork.resolve_references kube o) (written o) w
            (resolve_references-Reads o w)
            (λ w' s. ap (λ x. contains_string x.0 ApiNetwork.network_finalizer) s.1)
            λ network w1 s.
              weaken _ (Created w) _ (λ w'. guarded w' ≡ guarded w) (written o network w1)
                (written-Created o network w1 m) (λ o' w' u. (u.0, u.1 ∙ ap guards s.1, u.2, u.3))
                (λ w' u. u ∙ ap guards s.1);
      deletes = λ o w m.
          deletes_config api store configs stored ApiNetwork.network_finalizer key ns nm
            (λ s. s.available) o (ApiNetwork.internal_name o)
            ((bosh_client_impl api).delete_network (ApiNetwork.internal_name o)) w
            (internal_name-key o m) m (deleted api configs stored config_laws _ w);
      readies = λ o w m.
          let e = prepare_to_save-metadata o in
          (ap (λ x. x.namespace) e ∙ m.0, ap (λ x. x.name) e ∙ m.1);
      settles = λ o w m e.
          let e = prepare_to_save-metadata o in
          (ap (λ x. x.namespace) e ∙ m.0, ap (λ x. x.name) e ∙ m.1);
      dies = λ o w m dying. m;
      keeps = λ o w m. ground arith;
      ensures = λ o. contains-added _ _;
      ensures_report = λ o. refl;
      removes = λ o. contains-removed _ _;
      removes_report = λ o. refl;
      prepares = λ o.
          ap (λ x. contains_string x.finalizers ApiNetwork.network_finalizer)
            (prepare_to_save-metadata o);
    }

    -- By `KeepsConfigs`, `StoreLaws` and `ReadsAzs`: reconciling the network of a namespace and name,
    -- as the API server holds it, leaves no cloud config of its internal name in BOSH while the stored
    -- network has no finalizer, however it ends, an AZ that is missing included, if there was none
    -- before.
    pub network_no_orphan :
        (o : Network) (w : W)
        → Named ns nm o
        → contains_string (finalizers o) ApiNetwork.network_finalizer
          ≡ contains_string (stored w).0 ApiNetwork.network_finalizer
        → (is_some (configs w key)
            && not (contains_string (stored w).0 ApiNetwork.network_finalizer))
          ≡ false
        → let w' =
            (reconcile_with_bosh
              (network_artifact raw_string kube)
              store
              (bosh_client_impl api)
              o
              w).1 in
          (is_some (configs w' key)
            && not (contains_string (stored w').0 ApiNetwork.network_finalizer))
          ≡ false
    network_no_orphan o w m h safe =
        no_orphan (network_artifact raw_string kube) store (bosh_client_impl api)
          (watch configs stored ApiNetwork.network_finalizer key (λ s. s.available))
          (fixed (Named ns nm)) network-Faithful o w m h safe
