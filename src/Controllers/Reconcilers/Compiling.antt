-- ===== src/Controllers/Reconcilers/Compiling.antt =====
-- The run of `Reconcile` of controllers/compilation_controller.go as a whole.
use boshv.Base.{
  false, not, ◌&&◌, ◌≡◌, sym, subst, Option, Str, str, Io, ◌>>=◌, Bool-cases, inl, inr, ◌!=◌, arith,
}
use boshv.Base.Runs.{Any}
use boshv.Api.Types.{Compilation, CompilationStatus}
use boshv.Api.Helpers.{contains_string}
use boshv.Api.Helpers.Names.{dashed}
use boshv.Api.Compilation as ApiCompilation
use boshv.Controllers.Platform.{Platform, Request}
use boshv.Controllers.Clients.{bosh_client_for_director}
use boshv.Controllers.Clients.Calls.{director-Runs}
use boshv.Controllers.Bosh.{save_if, reconcile_with_bosh}
use boshv.Controllers.Bosh.Watching.{Watch, fixed}
use boshv.Controllers.Bosh.Views.{Stored, Named, StoreLaws, is_some, watch}
use boshv.Controllers.Artifacts.{compilation_artifact}
use boshv.Controllers.Reconcilers.{fetched, reconcile_compilation}
use boshv.Controllers.Reconcilers.Safety.{Untouched, Reads, Quiet, Fits, quiet, opens, client-Safe}
use boshv.Controllers.Reconcilers.Preparing.{saved_status, prepared_run}

module _ {W E : Type 0} (p : Platform W E) (bosh_system_namespace : Str)
    (configs : W → Str → Option Str) (ns nm : Str) where
  abbrev request : Request
  request = record { namespace = ns; name = nm }

  module _ (stored : W → Stored CompilationStatus)
      (store_laws : StoreLaws p.kube.compilations configs stored ns nm) where
    abbrev compilation_seen : Watch W Compilation
    compilation_seen =
        watch configs stored ApiCompilation.compilation_finalizer (dashed (str "compilation") ns nm)
          (λ s. s.available)

    metadata_kept : (c : Compilation) → (ApiCompilation.prepare_to_save c).1.metadata ≡ c.metadata
    unfolding ApiCompilation.prepare_to_save
    metadata_kept c = ground arith

    abbrev reconciled : Compilation → Io W E (Unit {0})
    reconciled c =
        bosh_client_for_director p bosh_system_namespace c.status.original_director >>= λ bc.
        reconcile_with_bosh compilation_artifact p.kube.compilations bc c

    inside :
        Reads p bosh_system_namespace compilation_artifact p.kube.compilations compilation_seen
          (fixed (Named ns nm))
          request
        → ((namespace name : Str)
            → Quiet p bosh_system_namespace compilation_artifact p.kube.compilations
                compilation_seen
                (fixed (Named ns nm))
                request
                Any
                (p.kube.teams.get namespace name))
        → (w : W)
        → (is_some (configs w (dashed (str "compilation") ns nm))
            && not (contains_string (stored w).0 ApiCompilation.compilation_finalizer))
          ≡ false
        → let w' =
            (fetched p bosh_system_namespace p.kube.compilations request
              (λ c.
                save_if p.kube.compilations.update_status (ApiCompilation.prepare_to_save c)
                >>= reconciled)
              w).1 in
          (is_some (configs w' (dashed (str "compilation") ns nm))
            && not (contains_string (stored w').0 ApiCompilation.compilation_finalizer))
          ≡ false
    inside reads gets_team w safe =
        prepared_run p.kube.compilations configs stored ApiCompilation.compilation_finalizer
          (dashed (str "compilation") ns nm) ns nm (λ s. s.available) store_laws p
          bosh_system_namespace compilation_artifact
          (λ c. save_if p.kube.compilations.update_status (ApiCompilation.prepare_to_save c))
          reconciled reads
          (λ c w k.
            saved_status p.kube.compilations configs stored ApiCompilation.compilation_finalizer
              (dashed (str "compilation") ns nm) ns nm (λ s. s.available) store_laws
              (ApiCompilation.prepare_to_save c) w
              (subst
                (λ m.
                  ((m.namespace ≡ ns) × (m.name ≡ nm))
                  × (contains_string m.finalizers ApiCompilation.compilation_finalizer
                      ≡ compilation_seen.guarded w)
                  × ((compilation_seen.exists w && not (compilation_seen.guarded w)) ≡ false))
                (sym (metadata_kept c)) k))
          (λ c w k.
            client-Safe p bosh_system_namespace compilation_artifact p.kube.compilations
              compilation_seen (fixed (Named ns nm)) request
              (bosh_client_for_director p bosh_system_namespace c.status.original_director) c w
              (director-Runs p bosh_system_namespace ns
                (Untouched p bosh_system_namespace compilation_artifact p.kube.compilations
                  compilation_seen (fixed (Named ns nm)) request)
                (Untouched p bosh_system_namespace compilation_artifact p.kube.compilations
                  compilation_seen (fixed (Named ns nm)) request)
                Any
                (Fits p bosh_system_namespace compilation_artifact p.kube.compilations
                  compilation_seen (fixed (Named ns nm)) request)
                (quiet p bosh_system_namespace compilation_artifact p.kube.compilations
                  compilation_seen (fixed (Named ns nm)) request)
                (opens p bosh_system_namespace compilation_artifact p.kube.compilations
                  compilation_seen (fixed (Named ns nm)) request reads)
                gets_team c.status.original_director)
              k.0 k.1 k.2)
          w safe

    -- By `Reads` and `StoreLaws`, and if asking for a team changes nothing: however the run of the
    -- compilation controller on the compilation of a namespace and name ends, the save of the original
    -- director included and the refusal of other namespaces, it leaves no cloud config of its internal
    -- name in BOSH without the finalizer on the stored object, if there was none before.
    pub compilation_run_no_orphan :
        Reads p bosh_system_namespace compilation_artifact p.kube.compilations compilation_seen
          (fixed (Named ns nm))
          request
        → ((namespace name : Str)
            → Quiet p bosh_system_namespace compilation_artifact p.kube.compilations
                compilation_seen
                (fixed (Named ns nm))
                request
                Any
                (p.kube.teams.get namespace name))
        → (w : W)
        → (is_some (configs w (dashed (str "compilation") ns nm))
            && not (contains_string (stored w).0 ApiCompilation.compilation_finalizer))
          ≡ false
        → let w' = (reconcile_compilation p bosh_system_namespace request w).1 in
          (is_some (configs w' (dashed (str "compilation") ns nm))
            && not (contains_string (stored w').0 ApiCompilation.compilation_finalizer))
          ≡ false
    unfolding reconcile_compilation
    compilation_run_no_orphan reads gets_team w safe =
        elim (Bool-cases (ns != bosh_system_namespace)) [
          | inl e ↦ rw (e, reconcile_compilation) safe
          | inr e ↦ rw (e, reconcile_compilation) (inside reads gets_team w safe)
        ]
