-- ===== src/Api/Release/Laws.antt =====
-- `PrepareToSave` of release_types.go over a history of edits.
use boshv.Base.{Bool, true, ◌||◌, ◌≡◌, ◌≢◌, List, [], str, ◌!=◌, if◌then◌else◌, arith}
use boshv.Api.Types.{Release, ReleaseSpec, ReleaseStatus}
use boshv.Api.Freezing.{Event, Freezes, FreezesFirst, run-StaysFrozen}
use boshv.Api.Release.{prepare_to_save}

abbrev pub mutated : ReleaseSpec → ReleaseSpec → Bool
mutated original spec =
    spec.release_name != original.release_name
    || spec.version != original.version
    || spec.url != original.url
    || spec.sha1 != original.sha1

abbrev pub frozen : ReleaseStatus → Bool
frozen s = s.original_spec.release_name != []

abbrev pub original : ReleaseStatus → ReleaseSpec
original s = s.original_spec

prepare_to_save-Freezes : Freezes prepare_to_save frozen original (λ s. s.warning) mutated
unfolding prepare_to_save str
prepare_to_save-Freezes = record {
  spec_kept = λ o. ground arith;
  still_frozen = λ o h. ground arith;
  original_kept = λ o h. ground arith;
  warned = λ o h. ground arith;
  settled = λ o h. ground arith;
}

prepare_to_save-frozen :
    (r : Release) → r.spec.release_name ≢ [] → frozen (prepare_to_save r).1.status ≡ true
unfolding prepare_to_save str
prepare_to_save-frozen r h = ground arith

prepare_to_save-original :
    (r : Release)
    → original (prepare_to_save r).1.status
      ≡ (if frozen r.status then original r.status else r.spec)
unfolding prepare_to_save str
prepare_to_save-original r = ground arith

-- The first save of a release whose spec has a name fixes its original spec, as its spec unless it had
-- one. Over any edits of the spec and any saves it stays; after a last save the release has a warning
-- exactly if its spec differs in the name, version, URL or SHA1, and a further save writes nothing.
pub release_stays_frozen :
    (r : Release) (events : List (Event ReleaseSpec))
    → r.spec.release_name ≢ []
    → FreezesFirst prepare_to_save frozen original (λ s. s.warning) mutated (r.spec) events r
release_stays_frozen r events h = (
  prepare_to_save-original r,
  run-StaysFrozen prepare_to_save frozen original (λ s. s.warning) mutated prepare_to_save-Freezes
      events _ (prepare_to_save-frozen r h),
)
