-- ===== src/Controllers/Histories/Apart.antt =====
-- A run of the AZ controller on one AZ leaves every other AZ alone.
use boshv.Base.{
  true, ◌≡◌, ◌≢◌, refl, sym, ap, subst, ◌∙◌, Option, none, some, [], ◌∷◌, Str, str, str_discrete,
  pure, arith,
}
use boshv.Base.Outcome.{after_bind, weaken, both, always}
use boshv.Base.Runs.{Chains, Any, Runs, Runs-bind, Runs-weaken}
use boshv.Api.Types.{Az, AzStatus, set_status}
use boshv.Api.Helpers.Names.{Without, dashed_injective}
use boshv.Api.Az as ApiAz
use boshv.Remote.BoshClient.{BoshClient, DirectorApi, bosh_client_impl, empty_config}
use boshv.Remote.BoshClient.CloudConfigs as CloudConfigs
use boshv.Remote.BoshClient.CloudConfigs.{Holds, write, updated, deleted}
use boshv.Controllers.Platform.{Platform}
use boshv.Controllers.Clients.{bosh_client_for_namespace}
use boshv.Controllers.Bosh.{reconcile_with_bosh}
use boshv.Controllers.Bosh.Calls.{Acts, reconcile-Runs}
use boshv.Controllers.Bosh.Views.{Stored, Named}
use boshv.Controllers.Artifacts.{az_artifact}
use boshv.Controllers.Reconcilers.{reconcile_for_team, reconcile_az}
use boshv.Controllers.Reconcilers.Fetching.{fetched_always}
use boshv.Controllers.Histories.{key, rest, Same, ActsAt, Fits, Cluster}
use boshv.Controllers.Histories.Clients.{client-Fits}

write_other :
    (configs : Str → Option Str) (name other : Str) (entry : Option Str)
    → other ≢ name
    → write configs name entry other ≡ configs other
write_other configs name other entry h = ground (arith, h)

module _ {W E : Type 0} (p : Platform W E) (bosh_system_namespace : Str)
    (configs : W → Str → Str → Option Str) (stored : W → Str → Str → Stored AzStatus)
    (home address : Str → Str) (aim : p.bosh.DirectorConfig → Str)
    (cluster : Cluster p bosh_system_namespace configs stored home address aim)
    (ns nm ns' nm' : Str) (h : Without b'-' ns) (h' : Without b'-' ns')
    (apart : (ns ≡ ns') × (nm ≡ nm') → ⊥) where
  abbrev own : Str
  own = address (home ns)

  abbrev other : Str
  other = address (home ns')

  abbrev Still : W → W → Type 0
  Still = Same p bosh_system_namespace configs stored home address

  abbrev around : W → (Str → Str → Stored AzStatus) × ((b : Str) → b ≢ other → Str → Option Str)
  around = rest p bosh_system_namespace configs stored home address other

  abbrev at_other : W → Str → Option Str
  at_other w = configs w other

  abbrev Beside : W → W → Type 0
  Beside w w' =
      (configs w' own (key ns nm) ≡ configs w own (key ns nm)) × (stored w' ns nm ≡ stored w ns nm)

  beside : Chains Beside Beside
  beside = record {
    still = λ w. (refl, refl);
    both_return = λ w w' w'' u u'. (u'.0 ∙ u.0, u'.1 ∙ u.1);
    then_fails = λ w w' w'' u u'. (u'.0 ∙ u.0, u'.1 ∙ u.1);
  }

  Same-Beside : (w w' : W) → Still w w' → Beside w w'
  Same-Beside w w' s = (ap (λ c. c own (key ns nm)) s.0, ap (λ s. s ns nm) s.1)

  -- A call at the other director's URL: the two may be one.
  around-Beside :
      (w w' : W)
      → configs w' other (key ns nm) ≡ configs w other (key ns nm)
      → around w' ≡ around w
      → Beside w w'
  around-Beside w w' here k = (go (str_discrete own other), ap (λ r. r.0 ns nm) k)
    where
      go : Dec (own ≡ other) → configs w' own (key ns nm) ≡ configs w own (key ns nm)
      go (yes e) = subst (λ a. configs w' a (key ns nm) ≡ configs w a (key ns nm)) (sym e) here
      go (no d) = ap (λ r. r.1 own d (key ns nm)) k

  key_apart : (o : Az) → Named ns' nm' o → key ns nm ≢ ApiAz.internal_name o
  unfolding ApiAz.internal_name
  key_apart o m e = apart (dashed_injective (str "az") ns nm ns' nm' h h' (e ∙ (cc (m.0, m.1))))

  elsewhere : (o : Az) → Named ns' nm' o → Named ns nm o → ⊥
  elsewhere o m m' = apart (sym m'.0 ∙ m.0, sym m'.1 ∙ m.1)

  acts :
      (api : DirectorApi W E)
      → ActsAt p bosh_system_namespace configs stored home address other api
      → Acts
          (az_artifact p.raw_string)
          p.kube.azs
          (bosh_client_impl api)
          Beside
          Beside
          (Named ns' nm')
  unfolding ApiAz.ensure_finalizer ApiAz.ensure_no_finalizer ApiAz.prepare_to_save
      ApiAz.create_unless_exists ApiAz.delete_if_exists bosh_client_impl
  acts api law = record {
    updates = λ o m w.
        weaken _ _ _ _ (p.kube.azs.update o w)
          (both _ _ _ _ (p.kube.azs.update o w) ((cluster.places own ns' nm').updates o w m)
            (cluster.updates_apart ns nm o w (elsewhere o m)))
          (λ o' w' u. (u.0.0, (ap (λ c. c (key ns nm)) u.0.2, u.1)))
          (λ w' u. (ap (λ c. c (key ns nm)) u.0.0, u.1));
    updates_status = λ o m w.
        weaken _ _ _ _ (p.kube.azs.update_status o w)
          (both _ _ _ _ (p.kube.azs.update_status o w)
            ((cluster.places own ns' nm').updates_status o w m)
            (cluster.updates_status_apart ns nm o w (elsewhere o m)))
          (λ o' w' u. (u.0.0, (ap (λ c. c (key ns nm)) u.0.3, u.1)))
          (λ w' u. (ap (λ c. c (key ns nm)) u.0.0, u.1));
    creates = λ o m w.
        after_bind
          (λ _. Holds api (at_other) around w (ApiAz.internal_name o) (record empty_config {
            azs =
                record {
                  name = ApiAz.internal_name o;
                  cloud_properties = o.status.original_cloud_properties;
                }
                ∷ [];
          }))
          (λ o' w'. Named ns' nm' o' × Beside w w') (CloudConfigs.Same api at_other around w)
          (Beside w)
          ((bosh_client_impl api).create_az (ApiAz.internal_name o) (record {
            name = ApiAz.internal_name o;
            cloud_properties = o.status.original_cloud_properties;
          }))
          (λ _. pure (set_status o (record o.status { available = true }))) w
          (updated api at_other around law (ApiAz.internal_name o) _ w)
          (λ w' s. around-Beside w w' (ap (λ c. c (key ns nm)) s.0) s.1)
          (λ _ w' u. (
            m,
            around-Beside w w'
                (ap (λ c. c (key ns nm)) u.2.0
                  ∙ write_other (configs w other) (ApiAz.internal_name o) (key ns nm) (some u.0)
                      (key_apart o m))
                u.2.1,
          ));
    deletes = λ o m w.
        weaken _ _ _ _ ((bosh_client_impl api).delete_az (ApiAz.internal_name o) w)
          (deleted api at_other around law (ApiAz.internal_name o) w)
          (λ _ w' u. (
            tt,
            around-Beside w w'
                (ap (λ c. c (key ns nm)) u.0
                  ∙ write_other (configs w other) (ApiAz.internal_name o) (key ns nm) none
                      (key_apart o m))
                u.1,
          ))
          (λ w' s. around-Beside w w' (ap (λ c. c (key ns nm)) s.0) s.1);
    prepares = λ o m. ground arith;
    guards = λ o m. m;
    unguards = λ o m. m;
  }

  abbrev FitsOther : BoshClient W E → Type 0
  FitsOther = Fits p bosh_system_namespace configs stored home address other

  client-Beside :
      Runs Beside Beside FitsOther (bosh_client_for_namespace p bosh_system_namespace ns')
  client-Beside =
      Runs-weaken Still Still Beside Beside FitsOther
        (bosh_client_for_namespace p bosh_system_namespace ns') Same-Beside Same-Beside
        (client-Fits p bosh_system_namespace configs stored home address aim cluster ns')

  for_team-Beside :
      (o : Az)
      → Named ns' nm' o
      → Runs Beside Beside Any (
          reconcile_for_team p bosh_system_namespace
            (az_artifact p.raw_string)
            p.kube.azs
            (record { namespace = ns'; name = nm' })
            o)
  unfolding reconcile_for_team
  for_team-Beside o m =
      Runs-bind Beside Beside beside FitsOther Any
        (bosh_client_for_namespace p bosh_system_namespace ns')
        (λ bc. reconcile_with_bosh (az_artifact p.raw_string) p.kube.azs bc o) client-Beside
        λ bc fits.
          reconcile-Runs (az_artifact p.raw_string) p.kube.azs bc Beside Beside (Named ns' nm')
            beside
            (subst
              (λ bc. Acts (az_artifact p.raw_string) p.kube.azs bc Beside Beside (Named ns' nm'))
              (sym fits.1) (acts fits.0 fits.2))
            o m

  pub run_apart :
      (w : W)
      → Beside w (reconcile_az p bosh_system_namespace (record { namespace = ns'; name = nm' }) w).1
  unfolding reconcile_az
  run_apart w =
      fetched_always p bosh_system_namespace p.kube.azs (record { namespace = ns'; name = nm' })
        (reconcile_for_team p bosh_system_namespace (az_artifact p.raw_string) p.kube.azs
          (record { namespace = ns'; name = nm' }))
        (Beside w) w
        (weaken _ _ _ _ (p.kube.azs.get ns' nm' w) (cluster.gets ns' nm' w)
          (λ o w' k. beside.both_return w w' _ (Same-Beside w w' k.1) (
            always (λ _ w''. Unit × Beside w' w'') (Beside w') (Beside w') _
              (for_team-Beside o k.0.0 w') (λ _ _ u. u.1) (λ _ u. u)))
          (Same-Beside w))
