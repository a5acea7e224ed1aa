-- ===== src/Api/FrozenLaws.antt =====
-- `PrepareToSave` of the six kinds whose first save fixes what BOSH gets: az_types.go,
-- extension_types.go, compilation_types.go, release_types.go, base_image_types.go and team_types.go.
use boshv.Base.{◌≢◌, none, List, [], Str}
use boshv.Api.Types.{
  RawPtr, Az, AzSpec, Extension, ExtensionSpec, Compilation, CompilationSpec, Release, ReleaseSpec,
  BaseImage, BaseImageSpec, Team, TeamSpec,
}
use boshv.Api.Freezing.{Event, FreezesFirst}
use boshv.Api.Az as ApiAz
use boshv.Api.Extension as ApiExtension
use boshv.Api.Compilation as ApiCompilation
use boshv.Api.Release as ApiRelease
use boshv.Api.BaseImage as ApiBaseImage
use boshv.Api.Team as ApiTeam
use boshv.Api.Az.Laws as AzLaws
use boshv.Api.Extension.Laws as ExtensionLaws
use boshv.Api.Compilation.Laws as CompilationLaws
use boshv.Api.Release.Laws as ReleaseLaws
use boshv.Api.BaseImage.Laws as BaseImageLaws
use boshv.Api.Team.Laws as TeamLaws

-- Of an AZ, an extension, a compilation, a release, a base image and a team, over any history of edits
-- of the spec and of saves that follow a first save: the first save takes the original from the spec,
-- or keeps the one that is there; the original never changes; after a last save the object has a
-- warning exactly if its spec differs from the original, and a further save writes nothing. The original
-- are the cloud properties of an AZ or an extension, which are compared as they read, the director of
-- a compilation, the spec of a release or a base image, and the director and the secret namespace of
-- a team, of which the director is compared. It is assumed that the spec of the extension has cloud
-- properties, that those of the compilation and the team name a director, and that the release, the
-- base image and the BOSH system namespace have a name.
pub kinds_stay_frozen :
    (raw_string : RawPtr → Str) (secret_namespace : Str) (a : Az) (x : Extension) (c : Compilation)
    (r : Release) (b : BaseImage) (t : Team) (a_events : List (Event AzSpec))
    (x_events : List (Event ExtensionSpec)) (c_events : List (Event CompilationSpec))
    (r_events : List (Event ReleaseSpec)) (b_events : List (Event BaseImageSpec))
    (t_events : List (Event TeamSpec))
    → x.spec.cloud_properties ≢ none
    → c.spec.director ≢ []
    → r.spec.release_name ≢ []
    → b.spec.base_image_name ≢ []
    → t.spec.director ≢ []
    → secret_namespace ≢ []
    → FreezesFirst
        (ApiAz.prepare_to_save raw_string)
        (AzLaws.frozen raw_string)
        (AzLaws.original raw_string)
        (λ s. s.warning)
        (AzLaws.mutated raw_string)
        a.spec.cloud_properties
        a_events
        a
      × FreezesFirst
          (ApiExtension.prepare_to_save raw_string)
          (ExtensionLaws.frozen raw_string)
          (ExtensionLaws.original raw_string)
          (λ s. s.warning)
          (ExtensionLaws.mutated raw_string)
          x.spec.cloud_properties
          x_events
          x
      × FreezesFirst ApiCompilation.prepare_to_save CompilationLaws.frozen CompilationLaws.original
          (λ s. s.warning)
          CompilationLaws.mutated
          c.spec.director
          c_events
          c
      × FreezesFirst ApiRelease.prepare_to_save ReleaseLaws.frozen ReleaseLaws.original
          (λ s. s.warning)
          ReleaseLaws.mutated
          r.spec
          r_events
          r
      × FreezesFirst ApiBaseImage.prepare_to_save BaseImageLaws.frozen BaseImageLaws.original
          (λ s. s.warning)
          BaseImageLaws.mutated
          b.spec
          b_events
          b
      × FreezesFirst
          (ApiTeam.prepare_to_save secret_namespace)
          (TeamLaws.frozen secret_namespace)
          (TeamLaws.original secret_namespace)
          (λ s. s.warning)
          (TeamLaws.mutated secret_namespace)
          (t.spec.director, secret_namespace)
          t_events
          t
kinds_stay_frozen raw_string secret_namespace a x c r b t ae xe ce re be te hx hc hr hb ht hs = (
  AzLaws.az_stays_frozen raw_string a ae,
  ExtensionLaws.extension_stays_frozen raw_string x xe hx,
  CompilationLaws.compilation_stays_frozen c ce hc,
  ReleaseLaws.release_stays_frozen r re hr,
  BaseImageLaws.base_image_stays_frozen b be hb,
  TeamLaws.team_stays_frozen secret_namespace t te ht hs,
)
