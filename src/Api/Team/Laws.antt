-- ===== src/Api/Team/Laws.antt =====
-- `PrepareToSave` of team_types.go over a history of edits.
use boshv.Base.{Bool, true, ◌&&◌, ◌≡◌, ◌≢◌, List, [], Str, str, ◌!=◌, if◌then◌else◌, arith}
use boshv.Api.Types.{Team, TeamSpec, TeamStatus}
use boshv.Api.Freezing.{Event, Freezes, FreezesFirst, run-StaysFrozen}
use boshv.Api.Team.{prepare_to_save}

module _ (secret_namespace : Str) where
  abbrev pub mutated : Str × Str → TeamSpec → Bool
  mutated original spec = spec.director != original.0

  abbrev pub frozen : TeamStatus → Bool
  frozen s = s.original_director != [] && s.secret_namespace != []

  abbrev pub original : TeamStatus → Str × Str
  original s = (s.original_director, s.secret_namespace)

  prepare_to_save-Freezes :
      Freezes (prepare_to_save secret_namespace) frozen original (λ s. s.warning) mutated
  unfolding prepare_to_save str
  prepare_to_save-Freezes = record {
    spec_kept = λ o. ground arith;
    still_frozen = λ o h. ground arith;
    original_kept = λ o h. ground arith;
    warned = λ o h. ground arith;
    settled = λ o h. ground arith;
  }

  prepare_to_save-frozen :
      (t : Team)
      → t.spec.director ≢ []
      → secret_namespace ≢ []
      → frozen ((prepare_to_save secret_namespace) t).1.status ≡ true
  unfolding prepare_to_save str
  prepare_to_save-frozen t h k = ground arith

  prepare_to_save-original :
      (t : Team)
      → original ((prepare_to_save secret_namespace) t).1.status
        ≡ (if frozen t.status then original t.status else (t.spec.director, secret_namespace))
  unfolding prepare_to_save str
  prepare_to_save-original t = ground arith

  -- The first save of a team whose spec names a director, for a BOSH system namespace with a name, fixes
  -- its original director and its secret namespace, as these two unless it had both. Over any edits of
  -- the spec and any saves they stay; after a last save the team has a warning exactly if its spec names
  -- another director, and a further save writes nothing.
  pub team_stays_frozen :
      (t : Team) (events : List (Event TeamSpec))
      → t.spec.director ≢ []
      → secret_namespace ≢ []
      → FreezesFirst
          (prepare_to_save secret_namespace)
          frozen
          original
          (λ s. s.warning)
          mutated
          ((t.spec.director, secret_namespace))
          events
          t
  team_stays_frozen t events h k = (
    prepare_to_save-original t,
    run-StaysFrozen (prepare_to_save secret_namespace) frozen original (λ s. s.warning) mutated
        prepare_to_save-Freezes events _ (prepare_to_save-frozen t h k),
  )
