-- ===== src/Controllers/Uploads.antt =====
-- The kinds that are uploaded to BOSH, releases and base images: an artifact is known by the name and
-- the version in the status of its object, so the status is watched too.
pub mod Releases
pub mod BaseImages
pub mod Mislabelled
use boshv.Base.{Bool, true, false, ◌≡◌, refl, sym, ap, subst, ◌∙◌, Str, Io, arith}
use boshv.Base.Outcome.{Ensures, both, weaken}
use boshv.Api.Types.{Object, finalizers}
use boshv.Api.Helpers.{contains_string}
use boshv.Kube.{Store}
use boshv.Controllers.Bosh.Watching.{Watch, Belongs}
use boshv.Controllers.Bosh.Views.{Stored, Named, StoreLaws}

-- The status is a subresource: an update of the object leaves it as it is stored, and answers with it;
-- an update of the status answers with what it was given.
module _ {W E S T : Type 0} (store : Store W E (Object S T)) (stored : W → Stored T)
    (ns nm : Str) where
  pub record KeepsStatus : Type 0 where
    pub updates :
        (o : Object S T) (w : W)
        → Named ns nm o
        → Ensures
            (λ o' w'. (o'.status ≡ (stored w).1) × ((stored w').1 ≡ (stored w).1))
            (λ _. Unit)
            (store.update o w)
    pub updates_status :
        (o : Object S T) (w : W)
        → Named ns nm o
        → Ensures (λ o' _. o'.status ≡ o.status) (λ _. Unit) (store.update_status o w)

module _ {W S T : Type 0} (present : W → Str → Str → Bool) (stored : W → Stored T)
    (f name version : Str) (available : T → Bool) where
  -- The object with finalizer `f` whose artifact has this name and version.
  abbrev pub watch : Watch W (Object S T)
  watch = record {
    guarded = λ w. contains_string (stored w).0 f;
    exists = λ w. present w name version;
    reported = λ w. available (stored w).1;
    has_finalizer = λ o. contains_string (finalizers o) f;
    available = λ o. available o.status;
  }

-- `Names` tells whether a status names the artifact, and `Read` which objects are read as the watched
-- one.
abbrev pub named_by_status :
    {W S T : Type 0}
    → (W → Stored T)
    → Str
    → Str
    → (T → Type 0)
    → (Object S T → W → Type 0)
    → Belongs W (Object S T)
named_by_status stored ns nm Names Read = record {
  Mine = λ o w. Named ns nm o × Read o w;
  Prepared = λ o _. Named ns nm o × Names o.status;
  Ready = λ o w. Named ns nm o × Names o.status × (o.status ≡ (stored w).1);
}

module _ {W E S T : Type 0} (store : Store W E (Object S T)) (present : W → Str → Str → Bool)
    (stored : W → Stored T) (f name version ns nm : Str) (available : T → Bool) (Names : T → Type 0)
    (Read : Object S T → W → Type 0) (store_laws : StoreLaws store present stored ns nm)
    (status_laws : KeepsStatus store stored ns nm) where
  open watch {S = S} present stored f name version available use {
    guarded, exists, reported, has_finalizer,
  }
  open named_by_status stored ns nm Names Read use {Prepared, Ready}

  pub saves :
      (o : Object S T) (w : W)
      → Ready o w
      → Ensures
          (λ o' w'. Ready o' w' × (guarded w' ≡ has_finalizer o) × (exists w' ≡ exists w))
          (λ w'. (guarded w' ≡ guarded w) × (exists w' ≡ exists w))
          (store.update o w)
  saves o w m =
      weaken _ _ _ _ (store.update o w)
        (both _ _ _ _ (store.update o w) (store_laws.updates o w m.0) (status_laws.updates o w m.0))
        (λ o' w' u. (
          (u.0.0, subst Names (m.2 ∙ sym u.1.0) m.1, u.1.0 ∙ sym u.1.1),
          ap (λ fs. contains_string fs f) u.0.1,
          ap (λ p. p name version) u.0.2,
        ))
        (λ w' u. (ap (λ s. contains_string s.0 f) u.0.1, ap (λ p. p name version) u.0.0))

  pub saves_status :
      (o : Object S T) (w : W)
      → Prepared o w
      → Ensures
          (λ o' w'.
            Ready o' w'
            × (guarded w' ≡ guarded w)
            × (exists w' ≡ exists w)
            × (has_finalizer o' ≡ guarded w)
            × (reported w' ≡ available o.status))
          (λ w'. (guarded w' ≡ guarded w) × (exists w' ≡ exists w))
          (store.update_status o w)
  saves_status o w m =
      weaken _ _ _ _ (store.update_status o w)
        (both _ _ _ _ (store.update_status o w) (store_laws.updates_status o w m.0)
          (status_laws.updates_status o w m.0))
        (λ o' w' u. (
          (u.0.0, subst Names (sym u.1) m.1, u.1 ∙ sym (ap (λ s. s.1) u.0.1)),
          ap (λ s. contains_string s.0 f) u.0.1,
          ap (λ p. p name version) u.0.3,
          ap (λ fs. contains_string fs f) u.0.2,
          ap (λ s. available s.1) u.0.1,
        ))
        (λ w' u. (ap (λ s. contains_string s.0 f) u.0.1, ap (λ p. p name version) u.0.0))
