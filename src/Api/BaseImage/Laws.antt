-- ===== src/Api/BaseImage/Laws.antt =====
-- `PrepareToSave` of base_image_types.go over a history of edits.
use boshv.Base.{Bool, true, ◌||◌, ◌≡◌, ◌≢◌, List, [], str, ◌!=◌, if◌then◌else◌, arith}
use boshv.Api.Types.{BaseImage, BaseImageSpec, BaseImageStatus}
use boshv.Api.Freezing.{Event, Freezes, FreezesFirst, run-StaysFrozen}
use boshv.Api.BaseImage.{prepare_to_save}

abbrev pub mutated : BaseImageSpec → BaseImageSpec → Bool
mutated original spec =
    spec.base_image_name != original.base_image_name
    || spec.version != original.version
    || spec.url != original.url
    || spec.sha1 != original.sha1

abbrev pub frozen : BaseImageStatus → Bool
frozen s = s.original_spec.base_image_name != []

abbrev pub original : BaseImageStatus → BaseImageSpec
original s = s.original_spec

prepare_to_save-Freezes : Freezes prepare_to_save frozen original (λ s. s.warning) mutated
unfolding prepare_to_save str
prepare_to_save-Freezes = record {
  spec_kept = λ o. ground arith;
  still_frozen = λ o h. ground arith;
  original_kept = λ o h. ground arith;
  warned = λ o h. ground arith;
  settled = λ o h. ground arith;
}

prepare_to_save-frozen :
    (b : BaseImage) → b.spec.base_image_name ≢ [] → frozen (prepare_to_save b).1.status ≡ true
unfolding prepare_to_save str
prepare_to_save-frozen b h = ground arith

prepare_to_save-original :
    (b : BaseImage)
    → original (prepare_to_save b).1.status
      ≡ (if frozen b.status then original b.status else b.spec)
unfolding prepare_to_save str
prepare_to_save-original b = ground arith

-- The first save of a base image whose spec has a name fixes its original spec, as its spec unless it
-- had one. Over any edits of the spec and any saves it stays; after a last save the base image has a
-- warning exactly if its spec differs in the name, version, URL or SHA1, and a further save writes
-- nothing.
pub base_image_stays_frozen :
    (b : BaseImage) (events : List (Event BaseImageSpec))
    → b.spec.base_image_name ≢ []
    → FreezesFirst prepare_to_save frozen original (λ s. s.warning) mutated (b.spec) events b
base_image_stays_frozen b events h = (
  prepare_to_save-original b,
  run-StaysFrozen prepare_to_save frozen original (λ s. s.warning) mutated prepare_to_save-Freezes
      events _ (prepare_to_save-frozen b h),
)
