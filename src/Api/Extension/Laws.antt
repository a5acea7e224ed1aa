-- ===== src/Api/Extension/Laws.antt =====
-- `PrepareToSave` of extension_types.go over a history of edits.
use boshv.Base.{Bool, true, false, ◌≡◌, ◌≢◌, none, some, List, Str, str, ◌!=◌, if◌then◌else◌, arith}
use boshv.Api.Types.{Extension, ExtensionSpec, ExtensionStatus, RawPtr}
use boshv.Api.Freezing.{Event, Freezes, FreezesFirst, run-StaysFrozen}
use boshv.Api.Extension.{prepare_to_save}

module _ (raw_string : RawPtr → Str) where
  abbrev pub mutated : RawPtr → ExtensionSpec → Bool
  mutated original spec = raw_string spec.cloud_properties != raw_string original

  abbrev pub frozen : ExtensionStatus → Bool
  frozen s = elim s.original_cloud_properties [ none ↦ false | some _ ↦ true ]

  abbrev pub original : ExtensionStatus → RawPtr
  original s = s.original_cloud_properties

  prepare_to_save-Freezes :
      Freezes (prepare_to_save raw_string) frozen original (λ s. s.warning) mutated
  unfolding prepare_to_save str
  prepare_to_save-Freezes = record {
    spec_kept = λ o. ground arith;
    still_frozen = λ o h. ground arith;
    original_kept = λ o h. ground arith;
    warned = λ o h. ground arith;
    settled = λ o h. ground arith;
  }

  prepare_to_save-frozen :
      (x : Extension)
      → x.spec.cloud_properties ≢ none
      → frozen ((prepare_to_save raw_string) x).1.status ≡ true
  unfolding prepare_to_save str
  prepare_to_save-frozen x h = ground arith

  prepare_to_save-original :
      (x : Extension)
      → original ((prepare_to_save raw_string) x).1.status
        ≡ (if frozen x.status then original x.status else x.spec.cloud_properties)
  unfolding prepare_to_save str
  prepare_to_save-original x = ground arith

  -- The first save of an extension whose spec has cloud properties fixes its original cloud properties,
  -- as those of its spec unless it had some. Over any edits of the spec and any saves they stay; after
  -- a last save the extension has a warning exactly if the cloud properties of its spec read otherwise,
  -- and a further save writes nothing.
  pub extension_stays_frozen :
      (x : Extension) (events : List (Event ExtensionSpec))
      → x.spec.cloud_properties ≢ none
      → FreezesFirst
          (prepare_to_save raw_string)
          frozen
          original
          (λ s. s.warning)
          mutated
          (x.spec.cloud_properties)
          events
          x
  extension_stays_frozen x events h = (
    prepare_to_save-original x,
    run-StaysFrozen (prepare_to_save raw_string) frozen original (λ s. s.warning) mutated
        prepare_to_save-Freezes events _ (prepare_to_save-frozen x h),
  )
