-- ===== src/Api/Compilation/Laws.antt =====
-- `PrepareToSave` of compilation_types.go over a history of edits.
use boshv.Base.{Bool, true, ◌≡◌, ◌≢◌, List, [], Str, str, ◌!=◌, if◌then◌else◌, arith}
use boshv.Api.Types.{Compilation, CompilationSpec, CompilationStatus}
use boshv.Api.Freezing.{Event, Freezes, FreezesFirst, run-StaysFrozen}
use boshv.Api.Compilation.{prepare_to_save}

abbrev pub mutated : Str → CompilationSpec → Bool
mutated original spec = original != spec.director

abbrev pub frozen : CompilationStatus → Bool
frozen s = s.original_director != []

abbrev pub original : CompilationStatus → Str
original s = s.original_director

prepare_to_save-Freezes : Freezes prepare_to_save frozen original (λ s. s.warning) mutated
unfolding prepare_to_save str
prepare_to_save-Freezes = record {
  spec_kept = λ o. ground arith;
  still_frozen = λ o h. ground arith;
  original_kept = λ o h. ground arith;
  warned = λ o h. ground arith;
  settled = λ o h. ground arith;
}

prepare_to_save-frozen :
    (c : Compilation) → c.spec.director ≢ [] → frozen (prepare_to_save c).1.status ≡ true
unfolding prepare_to_save str
prepare_to_save-frozen c h = ground arith

prepare_to_save-original :
    (c : Compilation)
    → original (prepare_to_save c).1.status
      ≡ (if frozen c.status then original c.status else c.spec.director)
unfolding prepare_to_save str
prepare_to_save-original c = ground arith

-- The first save of a compilation whose spec names a director fixes its original director, as that one
-- unless it had one. Over any edits of the spec and any saves it stays; after a last save the
-- compilation has a warning exactly if its spec names another director, and a further save writes
-- nothing.
pub compilation_stays_frozen :
    (c : Compilation) (events : List (Event CompilationSpec))
    → c.spec.director ≢ []
    → FreezesFirst prepare_to_save frozen original
        (λ s. s.warning)
        mutated
        (c.spec.director)
        events
        c
compilation_stays_frozen c events h = (
  prepare_to_save-original c,
  run-StaysFrozen prepare_to_save frozen original (λ s. s.warning) mutated prepare_to_save-Freezes
      events _ (prepare_to_save-frozen c h),
)
