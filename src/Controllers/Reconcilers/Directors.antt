-- ===== src/Controllers/Reconcilers/Directors.antt =====
-- A director and the team that is made for it: `Reconcile` of controllers/director_controller.go and of
-- controllers/team_controller.go, one after the other.
use boshv.Base.{
  ℕ, true, false, ◌≡◌, ◌≢◌, refl, sym, ap, subst, ◌∙◌, Option, none, some, [], ◌∷◌, Str, Result, ok,
  err, arith,
}
use boshv.Api.Types.{Director, Team, name, namespace, finalizers}
use boshv.Api.Helpers.{contains_string, remove_string}
use boshv.Api.Director as ApiDirector
use boshv.Api.Team as ApiTeam
use boshv.Controllers.Platform.{Platform}
use boshv.Controllers.Clients.{uaa_admin_for_director}
use boshv.Controllers.Reconcilers.{fetched, finalize_director, reconcile_director, reconcile_team}
use boshv.Controllers.Reconcilers.Retrying.{retrying, retrying-fails}

abbrev pub answer : {E K : Type 0} → E → Option K → Result E K
answer missing none = err missing
answer missing (some o) = ok o

-- `t` as the API server keeps it once its deletion is asked for.
abbrev pub Marked : Team → Team → Type 0
Marked t t' =
    (ApiTeam.being_deleted t' ≡ true)
    × (finalizers t' ≡ finalizers t)
    × (t'.spec ≡ t.spec)
    × (t'.status ≡ t.status)

-- A team that the team controller has taken on for the director `d`.
pub record TakenOn (d : Director) (t : Team) : Type 0 where
  pub guarded : ApiTeam.has_finalizer t ≡ true
  pub for_director : t.spec.director ≡ name d
  pub director_saved : t.status.original_director ≡ name d
  pub secret_saved : t.status.secret_namespace ≢ []
  pub not_warned : t.status.warning ≡ []

module _ {W E : Type 0} (p : Platform W E) (bosh_system_namespace : Str)
    (teams : W → Str → Str → Option Team) (directors : W → Str → Option Director)
    (missing : Str → Str → E) where
  -- How the API server keeps the teams, and the directors of the BOSH system namespace, when no call of
  -- it fails. An object with a finalizer outlives a request to delete it, and an object that is being
  -- deleted goes when its last finalizer does.
  pub record KeepsObjects : Type 0 where
    pub gets_team :
        (ns nm : Str) (w : W)
        → p.kube.teams.get ns nm w ≡ (answer (missing ns nm) (teams w ns nm), w)
    pub gets_director :
        (nm : Str) (w : W)
        → p.kube.directors.get bosh_system_namespace nm w
          ≡ (answer (missing bosh_system_namespace nm) (directors w nm), w)
    pub marks_team :
        (t there : Team) (w : W)
        → teams w (namespace t) (name t) ≡ some there
        → finalizers there ≢ []
        → ((p.kube.teams.delete t w).0 ≡ ok tt)
          × (directors (p.kube.teams.delete t w).1 ≡ directors w)
          × (there' : Team) × (teams (p.kube.teams.delete t w).1 (namespace t) (name t)
              ≡ some there')
          × Marked there there'
    pub drops_director :
        (d there : Director) (w : W)
        → namespace d ≡ bosh_system_namespace
        → directors w (name d) ≡ some there
        → ApiDirector.being_deleted there ≡ true
        → finalizers d ≡ []
        → ((p.kube.directors.update d w).0 ≡ ok d)
          × (directors (p.kube.directors.update d w).1 (name d) ≡ none)
          × (teams (p.kube.directors.update d w).1 ≡ teams w)

  guarded-not_empty : (t : Team) → ApiTeam.has_finalizer t ≡ true → finalizers t ≢ []
  unfolding ApiTeam.has_finalizer contains_string
  guarded-not_empty t h e = ground (arith, h, e)

  remove_string-alone : (s : Str) → remove_string (s ∷ []) s ≡ []
  unfolding remove_string
  remove_string-alone s = ground arith

  unguarded-empty :
      (d : Director)
      → finalizers d ≡ ApiDirector.director_finalizer ∷ []
      → finalizers (ApiDirector.ensure_no_finalizer d).1 ≡ []
  unfolding ApiDirector.ensure_no_finalizer
  unguarded-empty d e =
      ap (λ fs. remove_string fs ApiDirector.director_finalizer) e
      ∙ remove_string-alone ApiDirector.director_finalizer

  alone-guarded :
      (d : Director)
      → finalizers d ≡ ApiDirector.director_finalizer ∷ []
      → ApiDirector.has_finalizer d ≡ true
  unfolding ApiDirector.has_finalizer contains_string
  alone-guarded d e = ground (arith, e)

  saved :
      (d : Director) (t : Team)
      → name d ≢ []
      → TakenOn d t
      → ApiTeam.prepare_to_save bosh_system_namespace t ≡ (false, t)
  unfolding ApiTeam.prepare_to_save
  saved d t named h =
      ground (arith, named, h.for_director, h.director_saved, h.secret_saved, h.not_warned)

  TakenOn-Marked : (d : Director) (t t' : Team) → TakenOn d t → Marked t t' → TakenOn d t'
  unfolding ApiTeam.has_finalizer
  TakenOn-Marked d t t' h (m, fs, spec, status) = record {
    guarded = ap (λ fs. contains_string fs ApiTeam.team_finalizer) fs ∙ h.guarded;
    for_director = ap (λ s. s.director) spec ∙ h.for_director;
    director_saved = ap (λ s. s.original_director) status ∙ h.director_saved;
    secret_saved = λ e. h.secret_saved (sym (ap (λ s. s.secret_namespace) status) ∙ e);
    not_warned = ap (λ s. s.warning) status ∙ h.not_warned;
  }

  module _ (keeps : KeepsObjects) where
    run_fails :
        (ns nm : Str) (d : Director) (t : Team) (w : W)
        → name d ≢ []
        → teams w ns nm ≡ some t
        → TakenOn d t
        → directors w (name d) ≡ none
        → reconcile_team p bosh_system_namespace (record { namespace = ns; name = nm }) w
          ≡ (err (missing bosh_system_namespace (name d)), w)
    unfolding reconcile_team fetched uaa_admin_for_director
    run_fails ns nm d t w named there taken gone =
        let got : p.kube.teams.get ns nm w ≡ (ok t, w) =
          keeps.gets_team ns nm w ∙ ap (λ o. (answer (missing ns nm) o, w)) there in
        let lost : p.kube.directors.get bosh_system_namespace t.status.original_director w
            ≡ (err (missing bosh_system_namespace (name d)), w) =
          ap (λ n. p.kube.directors.get bosh_system_namespace n w) taken.director_saved
          ∙ keeps.gets_director (name d) w
          ∙ ap (λ o. (answer (missing bosh_system_namespace (name d)) o, w)) gone in
        ground (arith, got, saved d t named taken, lost)

    -- The two calls that finalizing a director makes.
    finalized :
        (d d' : Director) (w w1 w2 : W)
        → ApiDirector.has_finalizer d ≡ true
        → p.kube.teams.delete (ApiDirector.team d) w ≡ (ok tt, w1)
        → p.kube.directors.update (ApiDirector.ensure_no_finalizer d).1 w1 ≡ (ok d', w2)
        → finalize_director p bosh_system_namespace d w ≡ (ok tt, w2)
    unfolding finalize_director ApiDirector.ensure_no_finalizer
    finalized d d' w w1 w2 has deleted updated = ground (arith, deleted, updated)

    reconciled :
        (d d' : Director) (w w1 w2 : W)
        → namespace d ≡ bosh_system_namespace
        → directors w (name d) ≡ some d
        → ApiDirector.being_deleted d ≡ true
        → ApiDirector.has_finalizer d ≡ true
        → p.kube.teams.delete (ApiDirector.team d) w ≡ (ok tt, w1)
        → p.kube.directors.update (ApiDirector.ensure_no_finalizer d).1 w1 ≡ (ok d', w2)
        → reconcile_director p bosh_system_namespace
            (record { namespace = namespace d; name = name d })
            w
          ≡ (ok tt, w2)
    unfolding reconcile_director fetched
    reconciled d d' w w1 w2 home there dying has deleted updated =
        let got : p.kube.directors.get (namespace d) (name d) w ≡ (ok d, w) =
          ap (λ ns. p.kube.directors.get ns (name d) w) home
          ∙ keeps.gets_director (name d) w
          ∙ ap (λ o. (answer (missing bosh_system_namespace (name d)) o, w)) there in
        let last = finalized d d' w w1 w2 has deleted updated in
        ground (arith, got, home, dying, last)

    -- By `KeepsObjects`: let `d` be a director of the BOSH system namespace, with a name, that has our
    -- finalizer alone and is being deleted, and let the team controller have taken on the team that is
    -- made for it: the team has our finalizer, its status is saved and its spec is as it was.
    -- Reconciling the director ends well, and then the director is gone, while its team is there,
    -- marked for deletion and with our finalizer. From then on reconciling the team, however often it
    -- is run again, fails as the director is missing, and changes nothing: the team keeps its
    -- finalizer.
    pub director_strands_team :
        (d : Director) (t : Team) (w : W)
        → name d ≢ []
        → namespace d ≡ bosh_system_namespace
        → directors w (name d) ≡ some d
        → ApiDirector.being_deleted d ≡ true
        → finalizers d ≡ ApiDirector.director_finalizer ∷ []
        → teams w (namespace d) (ApiDirector.team_name d) ≡ some t
        → TakenOn d t
        → let done =
            reconcile_director p bosh_system_namespace
              (record { namespace = namespace d; name = name d })
              w in
          (done.0 ≡ ok tt)
          × (directors done.1 (name d) ≡ none)
          × (t' : Team) × (teams done.1 (namespace d) (ApiDirector.team_name d) ≡ some t')
          × (ApiTeam.being_deleted t' ≡ true)
          × (ApiTeam.has_finalizer t' ≡ true)
          × ((n : ℕ)
              → retrying n
                  (reconcile_team p bosh_system_namespace
                    (record { namespace = namespace d; name = ApiDirector.team_name d }))
                  done.1
                ≡ (err (missing bosh_system_namespace (name d)), done.1))
    unfolding ApiDirector.ensure_no_finalizer ApiDirector.team ApiTeam.has_finalizer
    director_strands_team d t w named home there dying fs team taken =
        let (deleted, same, t', team', mark) =
          keeps.marks_team (ApiDirector.team d) t w team (guarded-not_empty t taken.guarded) in
        let w1 = (p.kube.teams.delete (ApiDirector.team d) w).1 in
        let bare = (ApiDirector.ensure_no_finalizer d).1 in
        let (updated, gone, teams_same) =
          keeps.drops_director bare d w1 home (ap (λ ds. ds (name d)) same ∙ there) dying
            (unguarded-empty d fs) in
        let w2 = (p.kube.directors.update bare w1).1 in
        let run =
          reconciled d bare w w1 w2 home there dying (alone-guarded d fs) (λ i. (deleted i, w1))
            (λ i. (updated i, w2)) in
        let still : teams w2 (namespace d) (ApiDirector.team_name d) ≡ some t' =
          ap (λ ts. ts (namespace d) (ApiDirector.team_name d)) teams_same ∙ team' in
        subst
          (λ (done : Result E (Unit {0}) × W).
            (done.0 ≡ ok tt)
            × (directors done.1 (name d) ≡ none)
            × (t' : Team) × (teams done.1 (namespace d) (ApiDirector.team_name d) ≡ some t')
            × (ApiTeam.being_deleted t' ≡ true)
            × (ApiTeam.has_finalizer t' ≡ true)
            × ((n : ℕ)
                → retrying n
                    (reconcile_team p bosh_system_namespace
                      (record { namespace = namespace d; name = ApiDirector.team_name d }))
                    done.1
                  ≡ (err (missing bosh_system_namespace (name d)), done.1)))
          (sym run)
          (
            refl,
            gone,
            t',
            still,
            mark.0,
            (TakenOn-Marked d t t' taken mark).guarded,
            λ n. retrying-fails n _ _ w2 (
                run_fails (namespace d) (ApiDirector.team_name d) d t' w2 named still
                  (TakenOn-Marked d t t' taken mark) gone),
          )
