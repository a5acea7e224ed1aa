-- ===== src/Controllers/Bosh/Views.antt =====
-- One object of a kind that is kept as a cloud config: what the API server stores of it, and its config.
use boshv.Base.{
  Bool, true, false, ◌≡◌, ap, ◌∙◌, Option, none, some, List, [], ◌∷◌, ◌++◌, Str, Io, pure, ◌>>=◌,
  arith,
}
use boshv.Base.Outcome.{Ensures, after_bind, weaken}
use boshv.Api.Types.{Object, name, namespace, finalizers}
use boshv.Api.Helpers.{contains_string, remove_string}
use boshv.Api.Helpers.Finalizers.{contains_string-append, contains_string-remove_string}
use boshv.Kube.{Store}
use boshv.Remote.Config.{CloudConfig}
use boshv.Remote.BoshClient.{DirectorApi}
use boshv.Remote.BoshClient.CloudConfigs.{write, Same, Becomes, Holds}
use boshv.Controllers.Bosh.Watching.{Watch}

-- The stored finalizers and status of an object; an object that is gone has no finalizer.
abbrev pub Stored : Type 0 → Type 0
Stored T = List Str × T

abbrev pub is_some : Option Str → Bool
is_some none = false
is_some (some _) = true

-- The object of this namespace and name.
abbrev pub Named : {S T : Type 0} → Str → Str → Object S T → Type 0
Named ns nm o = (namespace o ≡ ns) × (name o ≡ nm)

module _ {W E S T C : Type 0} (store : Store W E (Object S T)) (configs : W → C)
    (stored : W → Stored T) (ns nm : Str) where
  abbrev pub Unchanged : W → W → Type 0
  Unchanged w w' = (configs w' ≡ configs w) × (stored w' ≡ stored w)

  -- The API server's writes of the object of a namespace and name: an update stores the finalizers, a
  -- status update the status alone; both answer with that object, and touch nothing in BOSH.
  pub record StoreLaws : Type 0 where
    pub updates :
        (o : Object S T) (w : W)
        → Named ns nm o
        → Ensures
            (λ o' w'.
              Named ns nm o'
              × ((stored w').0 ≡ finalizers o)
              × (configs w' ≡ configs w)
              × (finalizers o' ≡ finalizers o))
            (Unchanged w)
            (store.update o w)
    pub updates_status :
        (o : Object S T) (w : W)
        → Named ns nm o
        → Ensures
            (λ o' w'.
              Named ns nm o'
              × (stored w' ≡ ((stored w).0, o.status))
              × (finalizers o' ≡ (stored w).0)
              × (configs w' ≡ configs w))
            (Unchanged w)
            (store.update_status o w)

-- The object with finalizer `f` whose config has the name `key`.
abbrev pub watch :
    {W S T : Type 0}
    → (W → Str → Option Str)
    → (W → Stored T)
    → Str
    → Str
    → (T → Bool)
    → Watch W (Object S T)
watch configs stored f key available = record {
  guarded = λ w. contains_string (stored w).0 f;
  exists = λ w. is_some (configs w key);
  reported = λ w. available (stored w).1;
  has_finalizer = λ o. contains_string (finalizers o) f;
  available = λ o. available o.status;
}

pub contains-added : (fs : List Str) (f : Str) → contains_string (fs ++ f ∷ []) f ≡ true
contains-added fs f = ground (arith, contains_string-append fs f f)

pub contains-removed : (fs : List Str) (f : Str) → contains_string (remove_string fs f) f ≡ false
contains-removed fs f = ground (arith, contains_string-remove_string fs f f)

module _ {W E S T : Type 0} (api : DirectorApi W E) (store : Store W E (Object S T))
    (configs : W → Str → Option Str) (stored : W → Stored T) (f key ns nm : Str)
    (available : T → Bool) where
  open watch {S = S} configs stored f key available use {guarded, exists, reported, has_finalizer}

  pub stores :
      StoreLaws store configs stored ns nm
      → (o : Object S T) (w : W) → Named ns nm o
      → Ensures
          (λ o' w'. Named ns nm o' × (guarded w' ≡ has_finalizer o) × (exists w' ≡ exists w))
          (λ w'. (guarded w' ≡ guarded w) × (exists w' ≡ exists w))
          (store.update o w)
  stores law o w m =
      weaken _ _ _ _ (store.update o w) (law.updates o w m)
        (λ o' w' u. (u.0, ap (λ fs. contains_string fs f) u.1, ap (λ c. is_some (c key)) u.2))
        (λ w' u. (ap (λ s. contains_string s.0 f) u.1, ap (λ c. is_some (c key)) u.0))

  pub stores_status :
      StoreLaws store configs stored ns nm
      → (o : Object S T) (w : W) → Named ns nm o
      → Ensures
          (λ o' w'.
            Named ns nm o'
            × (guarded w' ≡ guarded w)
            × (exists w' ≡ exists w)
            × (has_finalizer o' ≡ guarded w)
            × (reported w' ≡ available o.status))
          (λ w'. (guarded w' ≡ guarded w) × (exists w' ≡ exists w))
          (store.update_status o w)
  stores_status law o w m =
      weaken _ _ _ _ (store.update_status o w) (law.updates_status o w m)
        (λ o' w' u. (
          u.0,
          ap (λ s. contains_string s.0 f) u.1,
          ap (λ c. is_some (c key)) u.3,
          ap (λ fs. contains_string fs f) u.2,
          ap (λ s. available s.1) u.1,
        ))
        (λ w' u. (ap (λ s. contains_string s.0 f) u.1, ap (λ c. is_some (c key)) u.0))

  written : (c : Str → Option Str) (b : Str) → is_some (write c key (some b) key) ≡ true
  written c b = ground arith

  erased : (c : Str → Option Str) → is_some (write c key none key) ≡ false
  erased c = ground arith

  -- A call that writes the config, and the object that is handed on after it.
  pub creates_config :
      (name : Str) (config : CloudConfig) (m : Io W E (Unit {0})) (o : Object S T) (w : W)
      → name ≡ key
      → Named ns nm o
      → available o.status ≡ true
      → Ensures (λ _. Holds api configs stored w name config) (Same api configs stored w) (m w)
      → Ensures
          (λ o' w'.
            Named ns nm o'
            × (guarded w' ≡ guarded w)
            × (exists w' ≡ true)
            × (available o'.status ≡ true))
          (λ w'. guarded w' ≡ guarded w)
          ((m >>= λ _. pure o) w)
  creates_config name config m o w e named a h =
      after_bind (λ _. Holds api configs stored w name config) _ (Same api configs stored w) _ m
        (λ _. pure o) w h (λ w' s. ap (λ s. contains_string s.0 f) s.1)
        (λ _ w' u. (
          named,
          ap (λ s. contains_string s.0 f) u.2.1,
          ap (λ c. is_some (c key)) u.2.0
              ∙ ap (λ n. is_some (write (configs w) n (some u.0) key)) e
              ∙ written (configs w) u.0,
          a,
        ))

  pub deletes_config :
      (o : Object S T) (name : Str) (m : Io W E (Unit {0})) (w : W)
      → name ≡ key
      → Named ns nm o
      → Ensures (λ _. Becomes api configs stored w name none) (Same api configs stored w) (m w)
      → Ensures
          (λ _ w'. Named ns nm o × (guarded w' ≡ guarded w) × (exists w' ≡ false))
          (λ w'. (guarded w' ≡ guarded w) × (exists w' ≡ exists w))
          (m w)
  deletes_config o name m w e named h =
      weaken _ _ _ _ (m w) h
        (λ _ w' u. (
          named,
          ap (λ s. contains_string s.0 f) u.1,
          ap (λ c. is_some (c key)) u.0
              ∙ ap (λ n. is_some (write (configs w) n none key)) e
              ∙ erased (configs w),
        ))
        (λ w' s. (ap (λ s. contains_string s.0 f) s.1, ap (λ c. is_some (c key)) s.0))
