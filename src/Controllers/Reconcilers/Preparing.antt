-- ===== src/Controllers/Reconcilers/Preparing.antt =====
-- The two controllers of BOSH artifacts that write the object before they reconcile it:
-- controllers/deployment_controller.go and controllers/compilation_controller.go.
use boshv.Base.{Bool, true, false, not, ◌&&◌, ◌≡◌, sym, ap, ◌∙◌, Option, Str, Io, ◌>>=◌}
use boshv.Base.Outcome.{Ensures, after_bind, weaken, always}
use boshv.Api.Types.{Object}
use boshv.Api.Helpers.{contains_string}
use boshv.Kube.{Store}
use boshv.Controllers.Platform.{Platform}
use boshv.Controllers.Bosh.{BoshArtifact, save_if}
use boshv.Controllers.Bosh.Watching.{Watch, fixed}
use boshv.Controllers.Bosh.Views.{Stored, Named, StoreLaws, is_some, watch}
use boshv.Controllers.Reconcilers.{fetched}
use boshv.Controllers.Reconcilers.Fetching.{fetched_always}
use boshv.Controllers.Reconcilers.Safety.{Reads}

module _ {W E S T : Type 0} (store : Store W E (Object S T)) (configs : W → Str → Option Str)
    (stored : W → Stored T) (f key ns nm : Str) (available : T → Bool)
    (store_laws : StoreLaws store configs stored ns nm) where
  abbrev seen : Watch W (Object S T)
  seen = watch configs stored f key available

  -- The object is the stored one, which is not orphaned.
  abbrev pub Current : Object S T → W → Type 0
  Current o w =
      Named ns nm o
      × (seen.has_finalizer o ≡ seen.guarded w)
      × ((seen.exists w && not (seen.guarded w)) ≡ false)

  abbrev Clear : W → Type 0
  Clear w = (seen.exists w && not (seen.guarded w)) ≡ false

  Clear-kept :
      (w w' : W)
      → seen.exists w' ≡ seen.exists w
      → seen.guarded w' ≡ seen.guarded w
      → Clear w
      → Clear w'
  Clear-kept w w' e g c = ap (λ (x : Bool × Bool). x.0 && not x.1) (λ i. (e i, g i)) ∙ c

  pub saved :
      (x : Bool × Object S T) (w : W)
      → Current x.1 w
      → Ensures Current Clear (save_if store.update x w)
  saved (false, o) w c = c
  saved (true, o) w c =
      weaken _ Current _ Clear (store.update o w) (store_laws.updates o w c.0)
        (λ o' w' u. (
          u.0,
          ap (λ fs. contains_string fs f) (u.3 ∙ sym u.1),
          Clear-kept w w' (ap (λ c. is_some (c key)) u.2)
              (ap (λ fs. contains_string fs f) u.1 ∙ c.1) c.2,
        ))
        (λ w' u.
          Clear-kept w w' (ap (λ c. is_some (c key)) u.0) (ap (λ s. contains_string s.0 f) u.1) c.2)

  pub saved_status :
      (x : Bool × Object S T) (w : W)
      → Current x.1 w
      → Ensures Current Clear (save_if store.update_status x w)
  saved_status (false, o) w c = c
  saved_status (true, o) w c =
      weaken _ Current _ Clear (store.update_status o w) (store_laws.updates_status o w c.0)
        (λ o' w' u. (
          u.0,
          ap (λ fs. contains_string fs f) (u.2 ∙ sym (ap (λ s. s.0) u.1)),
          Clear-kept w w' (ap (λ c. is_some (c key)) u.3) (ap (λ s. contains_string s.0 f) u.1) c.2,
        ))
        (λ w' u.
          Clear-kept w w' (ap (λ c. is_some (c key)) u.0) (ap (λ s. contains_string s.0 f) u.1) c.2)

  -- A run that saves the object that it gets, and then goes on.
  pub prepared_run :
      (p : Platform W E) (bosh_system_namespace : Str) (art : BoshArtifact W E (Object S T))
      (save : Object S T → Io W E (Object S T)) (next : Object S T → Io W E (Unit {0}))
      → Reads p bosh_system_namespace art store seen
          (fixed (Named ns nm))
          (record { namespace = ns; name = nm })
      → ((o : Object S T) (w : W) → Current o w → Ensures Current Clear (save o w))
      → ((o : Object S T) (w : W) → Current o w → Ensures (λ _. Clear) Clear (next o w))
      → (w : W) → Clear w
      → Clear
          (fetched p bosh_system_namespace store
            (record { namespace = ns; name = nm })
            (λ o. save o >>= next)
            w).1
  prepared_run p bosh_system_namespace art save next reads saves nexts w safe =
      fetched_always p bosh_system_namespace store (record { namespace = ns; name = nm })
        (λ o. save o >>= next) Clear w
        (weaken _ _ _ _ (store.get ns nm w) (reads.gets w)
          (λ o w' k.
            always (λ _. Clear) Clear Clear _
              (after_bind Current (λ _. Clear) Clear Clear (save o) next w'
                (saves o w' (k.0.0, k.0.1, Clear-kept w w' k.1.1 k.1.0 safe)) (λ w'' c. c) nexts)
              (λ _ _ c. c) (λ _ c. c))
          (λ w' u. Clear-kept w w' u.1 u.0 safe))
