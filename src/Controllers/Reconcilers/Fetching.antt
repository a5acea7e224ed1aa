-- ===== src/Controllers/Reconcilers/Fetching.antt =====
-- What holds after a controller has asked for the object of its request, whatever the answer.
use boshv.Base.{
  Bool, true, false, Result, ok, err, Str, Io, return_error, none, some, ◌||◌, if◌then◌else◌,
}
use boshv.Base.Outcome.{Ensures}
use boshv.Kube.{Store}
use boshv.Controllers.Platform.{Platform, Request, ignore_does_not_exist}
use boshv.Controllers.Reconcilers.{fetched}

module _ {W E K : Type 0} (p : Platform W E) (bosh_system_namespace : Str) (store : Store W E K)
    (req : Request) (next : K → Io W E (Unit {0})) (P : W → Type 0) where
  missing : (e : E) (b : Bool) (w : W) → P w → P (return_error (if b then none else some e) w).1
  missing e true w h = h
  missing e false w h = h

  pub fetched_always :
      (w : W)
      → Ensures (λ o w'. P (next o w').1) P (store.get req.namespace req.name w)
      → P (fetched p bosh_system_namespace store req next w).1
  unfolding fetched ignore_does_not_exist
  fetched_always w h = go (store.get req.namespace req.name w) h
    where
      go :
          (x : Result E K × W)
          → Ensures (λ o w'. P (next o w').1) P x
          → P
              ((elim x.0 as (λ _. Io W E (Unit {0})) [
                | ok o ↦ next o
                | err e ↦ return_error (ignore_does_not_exist p.errors e)
              ])
                x.1).1
      go (ok o, w') k = k
      go (err e, w') k = missing e (p.errors.is_not_found e || p.errors.is_gone e) w' k
