-- ===== src/Api/Az/Laws.antt =====
-- `PrepareToSave` of az_types.go over a history of edits.
use boshv.Base.{Bool, true, ◌≡◌, List, Str, str, ◌!=◌, if◌then◌else◌, arith}
use boshv.Api.Types.{Az, AzSpec, AzStatus, RawPtr}
use boshv.Api.Freezing.{Event, Freezes, FreezesFirst, run-StaysFrozen}
use boshv.Api.Az.{prepare_to_save}

module _ (raw_string : RawPtr → Str) where
  abbrev pub mutated : RawPtr → AzSpec → Bool
  mutated original spec = raw_string spec.cloud_properties != raw_string original

  abbrev pub frozen : AzStatus → Bool
  frozen s = s.immutable_fields_frozen

  abbrev pub original : AzStatus → RawPtr
  original s = s.original_cloud_properties

  prepare_to_save-Freezes :
      Freezes (prepare_to_save raw_string) frozen original (λ s. s.warning) mutated
  unfolding prepare_to_save str
  prepare_to_save-Freezes = record {
    spec_kept = λ o. ground arith;
    still_frozen = λ o h. ground arith;
    original_kept = λ o h. ground arith;
    warned = λ o h. ground arith;
    settled = λ o h. ground arith;
  }

  prepare_to_save-frozen : (a : Az) → frozen ((prepare_to_save raw_string) a).1.status ≡ true
  unfolding prepare_to_save str
  prepare_to_save-frozen a = ground arith

  prepare_to_save-original :
      (a : Az)
      → original ((prepare_to_save raw_string) a).1.status
        ≡ (if frozen a.status then original a.status else a.spec.cloud_properties)
  unfolding prepare_to_save str
  prepare_to_save-original a = ground arith

  -- The first save of an AZ fixes its original cloud properties, as those of its spec unless they were
  -- frozen before. Over any edits of the spec and any saves they stay; after a last save the AZ has a
  -- warning exactly if the cloud properties of its spec read otherwise, and a further save writes
  -- nothing.
  pub az_stays_frozen :
      (a : Az) (events : List (Event AzSpec))
      → FreezesFirst
          (prepare_to_save raw_string)
          frozen
          original
          (λ s. s.warning)
          mutated
          (a.spec.cloud_properties)
          events
          a
  az_stays_frozen a events = (
    prepare_to_save-original a,
    run-StaysFrozen (prepare_to_save raw_string) frozen original (λ s. s.warning) mutated
        prepare_to_save-Freezes events _ (prepare_to_save-frozen a),
  )
