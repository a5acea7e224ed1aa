-- ===== src/Tests/Retries.antt =====
-- A controller of AZs whose first calls of the API server fail.
use boshv.Base.{
  ℕ, zero, suc, ◌≤◌, false, ◌≡◌, refl, inr, false, Result, ok, err, [], Str, str, str_discrete,
  join, arith,
}
use boshv.Base.Outcome.{Ensures}
use boshv.Api.Types.{Az, AzStatus, set_finalizers}
use boshv.Api.Helpers.{contains_string}
use boshv.Api.Az as ApiAz
use boshv.Kube.{Store}
use boshv.Remote.BoshClient.{bosh_client_impl}
use boshv.Controllers.Bosh.Watching.{Faithful, fixed}
use boshv.Controllers.Bosh.Views.{StoreLaws}
use boshv.Controllers.CloudKinds.Azs.{az-Faithful}
use boshv.Controllers.Reconcilers.{fetched, reconcile_for_team}
use boshv.Controllers.Reconcilers.Safety.{Reads}
use boshv.Controllers.Reconcilers.Retrying.{retrying}
use boshv.Controllers.Reconcilers.Spending.{Answers, Transient}
use boshv.Controllers.Reconcilers.Convergence.{Settled, controller_converges}
use boshv.Tests.World.{World, configs, stored, director_api, director_api-KeepsConfigs}
use boshv.Tests.Bosh.{raw_string, new_az, artifact, view, Mine, start}
use boshv.Tests.Uaa.{team}
use boshv.Tests.Controllers.{platform, az_store, az_kube, request}

abbrev failure : Result Str Az → Str
failure (ok _) = []
failure (err e) = e

-- The stored AZ, or an error if one is yet to come.
abbrev busy : ℕ → World AzStatus → Result Str Az × World AzStatus
busy zero w = (ok (set_finalizers (record new_az { status = w.stored.1 }) w.stored.0), w)
busy (suc n) w = (err (str "busy"), record w { faults = n })

abbrev busy_store : Store (World AzStatus) Str Az
busy_store = record az_store { get = λ _ _ w. busy w.faults w }

busy_store-StoreLaws : {ns nm : Str} → StoreLaws busy_store configs stored ns nm
busy_store-StoreLaws = record {
  updates = λ _ _ m. (m, refl, refl, refl);
  updates_status = λ _ _ m. (m, refl, refl, refl);
}

law : Faithful artifact busy_store (bosh_client_impl director_api) view (fixed Mine)
unfolding str join
law =
    az-Faithful raw_string director_api busy_store configs stored director_api-KeepsConfigs
      (str "ns") (str "z1") busy_store-StoreLaws

busy-Got :
    (n : ℕ) (w : World AzStatus)
    → Ensures
        (λ o w'.
          (Mine o × (view.has_finalizer o ≡ view.guarded w'))
          × ((view.guarded w' ≡ view.guarded w)
              × (view.exists w' ≡ view.exists w)
              × ((o : Az) → Mine o → Mine o)))
        (λ w'.
          (view.guarded w' ≡ view.guarded w)
          × (view.exists w' ≡ view.exists w)
          × ((o : Az) → Mine o → Mine o))
        (busy n w)
unfolding contains_string
busy-Got zero w = (((refl, refl), refl), (refl, refl, λ o m. m))
busy-Got (suc n) w = (refl, refl, λ o m. m)

-- An error that is yet to come is never that the AZ is gone.
busy-Answers :
    (n : ℕ) (w : World AzStatus)
    → w.faults ≡ n
    → Answers
        (platform az_kube)
        (str "system")
        artifact
        busy_store
        view
        (fixed Mine)
        request
        (λ w. w.faults)
        false
        w
        (busy n w)
unfolding ApiAz.being_deleted str str_discrete
busy-Answers zero w e = (refl, omega arith)
busy-Answers (suc n) w e = inr (refl, omega (arith, e))

reads : Reads (platform az_kube) (str "system") artifact busy_store view (fixed Mine) request
unfolding contains_string
reads = record {
  gets = λ w. busy-Got w.faults w;
  lists_teams = λ _ w. (tt, (refl, refl, λ o m. m));
  gets_secret = λ _ _ w. (tt, (refl, refl, λ o m. m));
  gets_director = λ _ _ w. (tt, (refl, refl, λ o m. m));
  parses_uaa = λ _ w. (tt, (refl, refl, λ o m. m));
  makes_uaa = λ _ w. (tt, (refl, refl, λ o m. m));
  parses_director = λ _ w. (tt, (refl, refl, λ o m. m));
  makes_director = λ _ w. (law, (refl, refl, λ o m. m));
}

keeps : (w : World AzStatus) → w.faults ≤ w.faults
keeps w = omega arith

transient :
    Transient
      (platform az_kube)
      (str "system")
      artifact
      busy_store
      view
      (fixed Mine)
      request
      (λ w. w.faults)
      false
      team
unfolding ApiAz.create_unless_exists ApiAz.delete_if_exists bosh_client_impl
transient = record {
  gets = λ w. busy-Answers w.faults w refl;
  lists_team = λ w. (refl, keeps w);
  gets_secret = λ _ _ w. (tt, keeps w);
  gets_director = λ _ _ w. (tt, keeps w);
  parses_uaa = λ _ w. (tt, keeps w);
  makes_uaa = λ _ w. (tt, keeps w);
  parses_director = λ _ w. (tt, keeps w);
  makes_director = λ _ w. (λ o. ((λ w'. (tt, keeps w')), (λ w'. (tt, keeps w'))), keeps w);
  updates = λ _ w. (tt, keeps w);
  updates_status = λ _ w. (tt, keeps w);
}

-- Two calls fail before the third is answered.
abbrev unlucky : World AzStatus
unlucky = record start { faults = 2 }

controller_converges_example :
    let (r, w) =
      retrying 2
        (fetched
          (platform az_kube)
          (str "system")
          busy_store
          request
          (reconcile_for_team (platform az_kube) (str "system") artifact busy_store request))
        unlucky in
    (r ≡ ok tt) × Settled view false w
unfolding str str_discrete join contains_string
controller_converges_example =
    controller_converges (platform az_kube) (str "system") artifact busy_store view (fixed Mine)
      request (λ w. w.faults) false reads team transient 2 unlucky refl (omega arith)
