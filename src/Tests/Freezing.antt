-- ===== src/Tests/Freezing.antt =====
-- `PrepareToSave` at histories of small objects, and `match` at two network specs.
use mathlib.Core.List.Perm
use boshv.Base.{
  List, refl, str_discrete, ◌&&◌, true, false, ◌≡◌, ◌↔◌, none, some, [], ◌∷◌, Str, str, ◌!=◌, ◌||◌,
  arith,
}
use boshv.Api.Types.{Network, NetworkSpec, Subnet, RawPtr}
use boshv.Api.Freezing.{Event, edit, save, FreezesFirst}
use boshv.Api.Az as ApiAz
use boshv.Api.Extension as ApiExtension
use boshv.Api.Network as ApiNetwork
use boshv.Api.Compilation as ApiCompilation
use boshv.Api.Release as ApiRelease
use boshv.Api.BaseImage as ApiBaseImage
use boshv.Api.Team as ApiTeam
use boshv.Api.FrozenLaws.{kinds_stay_frozen}
use boshv.Api.Network.Match.{spec_match}
use boshv.Api.Network.Same.{SameSubnet, SameSpec, sorted_spec, spec_match_iff}
use boshv.Api.Network.Freezing.{after, first, network_stays_frozen}
use boshv.Api.Network.Laws.{prepare_to_save_sorts}
use boshv.Tests.World.{meta}
use boshv.Tests.Bosh.{new_az as az}
use boshv.Tests.Kinds.{extension, compilation}
use boshv.Tests.Names.{release, base_image}
use boshv.Tests.Uaa.{team}

abbrev raw_string : RawPtr → Str
raw_string none = str "nil"
raw_string (some r) = r.raw

kinds_stay_frozen_example :
    FreezesFirst
      (ApiAz.prepare_to_save raw_string)
      (λ s. s.immutable_fields_frozen)
      (λ s. s.original_cloud_properties)
      (λ s. s.warning)
      (λ original spec. raw_string spec.cloud_properties != raw_string original)
      none
      (edit (record { cloud_properties = some (record { raw = str "{}" }) }) ∷ save ∷ [])
      az
    × FreezesFirst
        (ApiExtension.prepare_to_save raw_string)
        (λ s. elim s.original_cloud_properties [ none ↦ false | some _ ↦ true ])
        (λ s. s.original_cloud_properties)
        (λ s. s.warning)
        (λ original spec. raw_string spec.cloud_properties != raw_string original)
        (some (record { raw = str "{}" }))
        (edit (record { cloud_properties = none }) ∷ save ∷ [])
        extension
    × FreezesFirst ApiCompilation.prepare_to_save
        (λ s. s.original_director != [])
        (λ s. s.original_director)
        (λ s. s.warning)
        (λ original spec. original != spec.director)
        (str "d")
        (save ∷ [])
        compilation
    × FreezesFirst ApiRelease.prepare_to_save
        (λ s. s.original_spec.release_name != [])
        (λ s. s.original_spec)
        (λ s. s.warning)
        (λ original spec.
          spec.release_name != original.release_name
          || spec.version != original.version
          || spec.url != original.url
          || spec.sha1 != original.sha1)
        release.spec
        (edit (record release.spec { version = str "0.0.10" }) ∷ save ∷ [])
        release
    × FreezesFirst ApiBaseImage.prepare_to_save
        (λ s. s.original_spec.base_image_name != [])
        (λ s. s.original_spec)
        (λ s. s.warning)
        (λ original spec.
          spec.base_image_name != original.base_image_name
          || spec.version != original.version
          || spec.url != original.url
          || spec.sha1 != original.sha1)
        base_image.spec
        (edit (record base_image.spec { version = str "315.42" }) ∷ save ∷ [])
        base_image
    × FreezesFirst {O = Str × Str}
        (ApiTeam.prepare_to_save (str "system"))
        (λ s. s.original_director != [] && s.secret_namespace != [])
        (λ s. (s.original_director, s.secret_namespace))
        (λ s. s.warning)
        (λ original spec. spec.director != original.0)
        (str "d", str "system")
        (edit (record { director = str "e" }) ∷ [])
        team
unfolding str
kinds_stay_frozen_example =
    kinds_stay_frozen raw_string (str "system") az extension compilation release base_image team
      (edit (record { cloud_properties = some (record { raw = str "{}" }) }) ∷ save ∷ [])
      (edit (record { cloud_properties = none }) ∷ save ∷ []) (save ∷ [])
      (edit (record release.spec { version = str "0.0.10" }) ∷ save ∷ [])
      (edit (record base_image.spec { version = str "315.42" }) ∷ save ∷ [])
      (edit (record { director = str "e" }) ∷ []) (λ e. ground arith) (ground arith) (ground arith)
      (ground arith) (ground arith) (ground arith)

abbrev subnet : (dns : List Str) → Subnet
subnet dns = record {
  range = str "10.0.0.0/24";
  gateway = str "10.0.0.1";
  dns = dns;
  reserved = [];
  static = [];
  azs = [];
  cloud_properties = none;
}

abbrev original : NetworkSpec
original = record {
  type = str "manual";
  subnets = subnet (str "8.8.8.8" ∷ str "1.1.1.1" ∷ []) ∷ [];
}

abbrev network : Network
network = record {
  metadata = meta (str "ns") (str "n") [];
  spec = original;
  status = record { warning = []; original_spec = original; available = false };
}

spec_match_iff_example :
    ((spec_match raw_string original original).0 ≡ true) ↔ SameSpec raw_string original original
spec_match_iff_example = spec_match_iff raw_string original original

same_subnet : (dns : List Str) → SameSubnet raw_string (subnet dns) (subnet dns)
same_subnet dns = record {
  range = refl;
  gateway = refl;
  dns = Perm.refl _;
  reserved = Perm.refl _;
  static = Perm.refl _;
  azs = Perm.refl _;
  cloud_properties = refl;
}

same : SameSpec raw_string original original
same = (refl, (same_subnet _, tt))

prepare_to_save_sorts_example :
    ((ApiNetwork.prepare_to_save raw_string network).1.status.original_spec
      ≡ sorted_spec raw_string original)
    × ((ApiNetwork.prepare_to_save raw_string network).1.spec ≡ sorted_spec raw_string original)
    × ((ApiNetwork.prepare_to_save raw_string network).0 ≡ false)
unfolding str str_discrete
prepare_to_save_sorts_example = prepare_to_save_sorts raw_string network (ground arith) same

-- Two edits, the first of which is saved.
abbrev edits : List (Event NetworkSpec)
edits =
    edit (record original { subnets = [] })
    ∷ save
    ∷ edit (record { type = str "dynamic"; subnets = [] })
    ∷ []

network_stays_frozen_example :
    let edited = after raw_string edits (ApiNetwork.prepare_to_save raw_string network).1 in
    let last = (ApiNetwork.prepare_to_save raw_string edited).1 in
    SameSpec raw_string (first raw_string network) last.status.original_spec
    × ((last.status.warning ≡ []) ↔ SameSpec raw_string (first raw_string network) edited.spec)
unfolding str
network_stays_frozen_example = network_stays_frozen raw_string network edits (ground arith)
