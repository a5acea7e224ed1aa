-- ===== src/Controllers/Histories/Safety.antt =====
-- No AZ of a cluster is orphaned over a history of runs of the AZ controller.
use boshv.Base.{
  false, not, ◌&&◌, ◌≡◌, sym, ap, subst, ◌∙◌, Option, none, some, Str, str, Result, ok, err,
  str_discrete, arith,
}
use boshv.Base.Outcome.{Ensures, weaken}
use boshv.Base.Runs.{Runs}
use boshv.Api.Types.{Az, AzStatus}
use boshv.Api.Helpers.{contains_string}
use boshv.Api.Helpers.Names.{Without}
use boshv.Api.Az.{az_finalizer}
use boshv.Remote.BoshClient.{BoshClient, DirectorApi}
use boshv.Remote.BoshClient.CloudConfigs.{KeepsConfigs, write}
use boshv.Controllers.Platform.{Platform}
use boshv.Controllers.Bosh.Watching.{Watch, Faithful, fixed}
use boshv.Controllers.Bosh.Views.{Stored, Named, is_some, watch}
use boshv.Controllers.CloudKinds.Azs.{az-Faithful}
use boshv.Controllers.Artifacts.{az_artifact}
use boshv.Controllers.Reconcilers.{reconcile_az}
use boshv.Controllers.Reconcilers.Safety.{run_no_orphan}
use boshv.Controllers.Histories.{
  key, rest, Same, Fits, Cluster, exists, guarded, History, start, reconciled, elsewhere,
}
use boshv.Controllers.Clients.{bosh_client_for_namespace}
use boshv.Controllers.Histories.Clients.{client-Fits}
use boshv.Controllers.Histories.Apart.{run_apart}

-- What holds of all that is kept holds of one place.
narrow :
    {W E A V T : Type 0} (configs : W → Str → Option Str) (kept : W → V) (one : V → T)
    (C : (Str → Option Str) → Type 0) (w : W) (r : Result E A × W)
    → Ensures
        (λ _ w'. C (configs w') × (kept w' ≡ kept w))
        (λ w'. (configs w' ≡ configs w) × (kept w' ≡ kept w))
        r
    → Ensures
        (λ _ w'. C (configs w') × (one (kept w') ≡ one (kept w)))
        (λ w'. (configs w' ≡ configs w) × (one (kept w') ≡ one (kept w)))
        r
narrow configs kept one C w (ok _, w') k = (k.0, ap one k.1)
narrow configs kept one C w (err _, w') k = (k.0, ap one k.1)

KeepsConfigs-one :
    {W E V T : Type 0} (api : DirectorApi W E) (configs : W → Str → Option Str) (kept : W → V)
    (one : V → T)
    → KeepsConfigs api configs kept
    → KeepsConfigs api configs (λ w. one (kept w))
KeepsConfigs-one api configs kept one law = record {
  diffs = λ name bytes w.
      narrow configs kept one (λ c. c ≡ configs w) w (api.diff_config (str "cloud") name bytes w)
        (law.diffs name bytes w);
  updates = λ name from_id bytes w.
      narrow configs kept one (λ c. c ≡ write (configs w) name (some bytes)) w
        (api.update_config (str "cloud") name from_id bytes w) (law.updates name from_id bytes w);
  deletes = λ name w.
      narrow configs kept one (λ c. c ≡ write (configs w) name none) w
        (api.delete_config (str "cloud") name w) (law.deletes name w);
}

module _ {W E : Type 0} (p : Platform W E) (bosh_system_namespace : Str)
    (configs : W → Str → Str → Option Str) (stored : W → Str → Str → Stored AzStatus)
    (home address : Str → Str) (aim : p.bosh.DirectorConfig → Str)
    (cluster : Cluster p bosh_system_namespace configs stored home address aim) where
  abbrev Unmoved : W → W → Type 0
  Unmoved = Same p bosh_system_namespace configs stored home address

  module _ (ns nm : Str) where
    abbrev here : W → Str → Option Str
    here w = configs w (address (home ns))

    abbrev seen : Watch W Az
    seen = watch here (λ w. stored w ns nm) az_finalizer (key ns nm) (λ s. s.available)

    abbrev Art : BoshClient W E → Type 0
    Art bc = Faithful (az_artifact p.raw_string) p.kube.azs bc seen (fixed (Named ns nm))

    fits :
        (bc : BoshClient W E)
        → Fits p bosh_system_namespace configs stored home address (address (home ns)) bc
        → Art bc
    fits bc f = subst Art (sym f.1) (
        az-Faithful p.raw_string f.0 p.kube.azs here (λ w. stored w ns nm)
          (KeepsConfigs-one f.0 here
            (rest p bosh_system_namespace configs stored home address (address (home ns)))
            (λ r. r.0 ns nm) f.2)
          ns nm (cluster.places (address (home ns)) ns nm))

    abbrev Still : W → W → Type 0
    Still w w' =
        (seen.guarded w' ≡ seen.guarded w)
        × (seen.exists w' ≡ seen.exists w)
        × ((o : Az) → Named ns nm o → Named ns nm o)

    Same-Still : (w w' : W) → Unmoved w w' → Still w w'
    Same-Still w w' s = (
      ap (λ s. contains_string (s ns nm).0 az_finalizer) s.1,
      ap (λ c. is_some (c (address (home ns)) (key ns nm))) s.0,
      λ o m. m,
    )

    client : Runs Still Still Art (bosh_client_for_namespace p bosh_system_namespace ns)
    client w =
        weaken _ _ _ _ (bosh_client_for_namespace p bosh_system_namespace ns w)
          (client-Fits p bosh_system_namespace configs stored home address aim cluster ns w)
          (λ bc w' k. (fits bc k.0, Same-Still w w' k.1)) (Same-Still w)

    abbrev Safe : W → Type 0
    Safe w =
        (exists p bosh_system_namespace configs stored home address ns nm w
          && not (guarded p bosh_system_namespace configs stored home address ns nm w))
        ≡ false

    own_run :
        (w : W)
        → Safe w
        → Safe (reconcile_az p bosh_system_namespace (record { namespace = ns; name = nm }) w).1
    unfolding reconcile_az
    own_run w safe =
        run_no_orphan p bosh_system_namespace (az_artifact p.raw_string) p.kube.azs seen
          (fixed (Named ns nm)) (record { namespace = ns; name = nm })
          (λ w.
            weaken _ _ _ _ (p.kube.azs.get ns nm w) (cluster.gets ns nm w)
              (λ o w' k. (
                (
                  k.0.0,
                  ap (λ fs. contains_string fs az_finalizer)
                      (k.0.1 ∙ sym (ap (λ s. (s ns nm).0) k.1.1)),
                ),
                Same-Still w w' k.1,
              ))
              (Same-Still w))
          client w safe

    other_run :
        (ns' nm' : Str) (w : W)
        → Without b'-' ns
        → Without b'-' ns'
        → ((ns ≡ ns') × (nm ≡ nm') → ⊥)
        → Safe w
        → Safe (reconcile_az p bosh_system_namespace (record { namespace = ns'; name = nm' }) w).1
    other_run ns' nm' w h h' apart safe =
        let u =
          run_apart p bosh_system_namespace configs stored home address aim cluster ns nm ns' nm' h
            h' apart w in
        ap
          (λ (x : Option Str × Stored AzStatus).
            is_some x.0 && not (contains_string x.1.0 az_finalizer))
          (λ i. (u.0 i, u.1 i))
        ∙ safe

    any_run :
        (ns' nm' : Str) (w : W)
        → Without b'-' ns
        → Without b'-' ns'
        → Dec (ns ≡ ns')
        → Dec (nm ≡ nm')
        → Safe w
        → Safe (reconcile_az p bosh_system_namespace (record { namespace = ns'; name = nm' }) w).1
    any_run ns' nm' w h h' (yes e) (yes f) safe =
        subst
          (λ (x : Str × Str).
            Safe
              (reconcile_az p bosh_system_namespace (record { namespace = x.0; name = x.1 }) w).1)
          (λ i. (e i, f i)) (own_run w safe)
    any_run ns' nm' w h h' (no d) f safe = other_run ns' nm' w h h' (λ x. d x.0) safe
    any_run ns' nm' w h h' (yes e) (no d) safe = other_run ns' nm' w h h' (λ x. d x.1) safe

  -- By `Cluster`: over any history of runs of the AZ controller, on any AZs in any order and however
  -- each run ends, and of what others do between them, no AZ ever has a cloud config at the director of
  -- its namespace while its stored object has no finalizer, if there was none at the start. Namespaces
  -- may have different directors, or share one. The teams that a namespace has are, from the first time
  -- that one is saved, for one director, which keeps its URL, whatever their specs say later, and an
  -- API that is made from a config acts on the director at that config's URL alone. It is about AZs in
  -- namespaces without a dash; between the runs others write no config of an AZ at the director of its
  -- namespace, and leave the finalizer where it is.
  pub history_no_orphan :
      (w w' : W) (ns nm : Str)
      → History p bosh_system_namespace configs stored home address w w'
      → ((ns nm : Str) → Without b'-' ns → Safe ns nm w)
      → Without b'-' ns
      → (exists p bosh_system_namespace configs stored home address ns nm w'
          && not (guarded p bosh_system_namespace configs stored home address ns nm w'))
        ≡ false
  history_no_orphan w w' ns nm start safe h = safe ns nm h
  history_no_orphan w w' ns nm (reconciled {w1} past ns' nm' h' e) safe h = subst (Safe ns nm) e (
      any_run ns nm ns' nm' w1 h h' (str_discrete ns ns') (str_discrete nm nm')
        (history_no_orphan w w1 ns nm past safe h))
  history_no_orphan w w' ns nm (elsewhere {w1} past out) safe h =
      let earlier = history_no_orphan w w1 ns nm past safe h in ground (arith, out ns nm)
