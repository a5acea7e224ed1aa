-- ===== src/Controllers/Reconcilers/Requests.antt =====
-- Requests for which a controller has no object: controllers/*_controller.go.
use boshv.Base.{
  Bool, true, false, ◌||◌, ◌≡◌, refl, Result, ok, err, Str, str, ◌!=◌, Io, raise, return_error,
  none, some, if◌then◌else◌,
}
use boshv.Kube.{Store}
use boshv.Controllers.Platform.{Platform, Request, ignore_does_not_exist}
use boshv.Controllers.Reconcilers.{
  fetched, reconcile_az, reconcile_extension, reconcile_network, reconcile_release,
  reconcile_base_image, reconcile_deployment, reconcile_compilation, reconcile_team,
  reconcile_director,
}

module _ {W E : Type 0} (p : Platform W E) (bosh_system_namespace : Str) where
  abbrev pub absent : E → Bool
  absent e = p.errors.is_not_found e || p.errors.is_gone e

  -- How a controller ends after its first call: a call that fails is the last one, and it is an error
  -- unless it says that the object does not exist.
  abbrev pub EndsAfter : {K : Type 0} → Result E K × W → Result E (Unit {0}) × W → Type 0
  EndsAfter (ok o, w') end = Unit
  EndsAfter (err e, w') end = end ≡ (if absent e then ok tt else err e, w')

  -- How one ends that refuses requests from elsewhere before any call.
  abbrev pub EndsRefused : Bool → Str → W → Type 0 → Result E (Unit {0}) × W → Type 0
  EndsRefused true message w Inside end = end ≡ (err (p.errors.new_error message), w)
  EndsRefused false message w Inside end = Inside

  fetched-EndsAfter :
      {K : Type 0} (store : Store W E K) (req : Request) (go : K → Io W E (Unit {0})) (w : W)
      → EndsAfter
          (store.get req.namespace req.name w)
          (fetched p bosh_system_namespace store req go w)
  unfolding fetched ignore_does_not_exist
  fetched-EndsAfter {K} store req go w = cases (store.get req.namespace req.name w)
    where
      ended :
          (e : E) (b : Bool) (w' : W)
          → return_error (if b then none else some e) w' ≡ (if b then ok tt else err e, w')
      ended e true w' = refl
      ended e false w' = refl

      cases :
          (x : Result E K × W)
          → EndsAfter x (
              (elim x.0 as (λ _. Io W E (Unit {0})) [
                | ok o ↦ go o
                | err e ↦ return_error (ignore_does_not_exist p.errors e)
              ])
                x.1)
      cases (ok o, w') = tt
      cases (err e, w') = ended e (p.errors.is_not_found e || p.errors.is_gone e) w'

  refused :
      (b : Bool) (message : Str) (m : Io W E (Unit {0})) (w : W)
      (Inside : Result E (Unit {0}) × W → Type 0)
      → Inside (m w)
      → let end = (if b then raise (p.errors.new_error message) else m) w in
        EndsRefused b message w (Inside end) end
  refused true message m w Inside h = refl
  refused false message m w Inside h = h

  pub lookup_failures :
      (req : Request) (w : W)
      → let elsewhere = req.namespace != bosh_system_namespace in
        EndsAfter
          (p.kube.azs.get req.namespace req.name w)
          (reconcile_az p bosh_system_namespace req w)
        × EndsAfter
            (p.kube.extensions.get req.namespace req.name w)
            (reconcile_extension p bosh_system_namespace req w)
        × EndsAfter
            (p.kube.networks.get req.namespace req.name w)
            (reconcile_network p bosh_system_namespace req w)
        × EndsAfter
            (p.kube.releases.get req.namespace req.name w)
            (reconcile_release p bosh_system_namespace req w)
        × EndsAfter
            (p.kube.base_images.get req.namespace req.name w)
            (reconcile_base_image p bosh_system_namespace req w)
        × EndsAfter
            (p.kube.deployments.get req.namespace req.name w)
            (reconcile_deployment p bosh_system_namespace req w)
        × EndsAfter
            (p.kube.teams.get req.namespace req.name w)
            (reconcile_team p bosh_system_namespace req w)
        × EndsRefused elsewhere
            (str "cannot create compilation outside BOSH system namespace")
            w
            (EndsAfter
              (p.kube.compilations.get req.namespace req.name w)
              (reconcile_compilation p bosh_system_namespace req w))
            (reconcile_compilation p bosh_system_namespace req w)
        × EndsRefused elsewhere
            (str "cannot create director outside BOSH system namespace")
            w
            (EndsAfter
              (p.kube.directors.get req.namespace req.name w)
              (reconcile_director p bosh_system_namespace req w))
            (reconcile_director p bosh_system_namespace req w)
  unfolding reconcile_az reconcile_extension reconcile_network reconcile_release
      reconcile_base_image reconcile_deployment reconcile_team reconcile_compilation
      reconcile_director
  lookup_failures req w = (
    fetched-EndsAfter p.kube.azs req _ w,
    fetched-EndsAfter p.kube.extensions req _ w,
    fetched-EndsAfter p.kube.networks req _ w,
    fetched-EndsAfter p.kube.releases req _ w,
    fetched-EndsAfter p.kube.base_images req _ w,
    fetched-EndsAfter p.kube.deployments req _ w,
    fetched-EndsAfter p.kube.teams req _ w,
    refused (req.namespace != bosh_system_namespace) _ _ w
        (EndsAfter (p.kube.compilations.get req.namespace req.name w))
        (fetched-EndsAfter p.kube.compilations req _ w),
    refused (req.namespace != bosh_system_namespace) _ _ w
        (EndsAfter (p.kube.directors.get req.namespace req.name w))
        (fetched-EndsAfter p.kube.directors req _ w),
  )
