-- ===== src/Api/FinalizerLaws.antt =====
-- The finalizers of all nine kinds that have one.
use boshv.Base.{Str}
use boshv.Api.Types.{
  Az, Extension, Network, Compilation, Release, BaseImage, Deployment, Team, Director,
}
use boshv.Api.Helpers.Finalizers.{Lifecycle, ensure-Lifecycle}
use boshv.Api.Az as ApiAz
use boshv.Api.Extension as ApiExtension
use boshv.Api.Network as ApiNetwork
use boshv.Api.Compilation as ApiCompilation
use boshv.Api.Release as ApiRelease
use boshv.Api.BaseImage as ApiBaseImage
use boshv.Api.Deployment as ApiDeployment
use boshv.Api.Team as ApiTeam
use boshv.Api.Director as ApiDirector

-- Of every kind: `EnsureFinalizer` reports that the finalizer was missing, leaves it on the object and
-- every other finalizer as it was; `EnsureNoFinalizer` reports that it was there, removes each of its
-- occurrences and no other finalizer, undoes `EnsureFinalizer`, and changes nothing if it was missing.
pub finalizer-Lifecycle :
    (a : Az) (x : Extension) (n : Network) (c : Compilation) (r : Release) (s : BaseImage)
    (d : Deployment) (t : Team) (q : Director) (g : Str)
    → Lifecycle ApiAz.az_finalizer ApiAz.ensure_finalizer ApiAz.ensure_no_finalizer a g
      × Lifecycle ApiExtension.extension_finalizer ApiExtension.ensure_finalizer
          ApiExtension.ensure_no_finalizer x g
      × Lifecycle ApiNetwork.network_finalizer ApiNetwork.ensure_finalizer
          ApiNetwork.ensure_no_finalizer n g
      × Lifecycle ApiCompilation.compilation_finalizer ApiCompilation.ensure_finalizer
          ApiCompilation.ensure_no_finalizer c g
      × Lifecycle ApiRelease.release_finalizer ApiRelease.ensure_finalizer
          ApiRelease.ensure_no_finalizer r g
      × Lifecycle ApiBaseImage.base_image_finalizer ApiBaseImage.ensure_finalizer
          ApiBaseImage.ensure_no_finalizer s g
      × Lifecycle ApiDeployment.deployment_finalizer ApiDeployment.ensure_finalizer
          ApiDeployment.ensure_no_finalizer d g
      × Lifecycle ApiTeam.team_finalizer ApiTeam.ensure_finalizer ApiTeam.ensure_no_finalizer t g
      × Lifecycle ApiDirector.director_finalizer ApiDirector.ensure_finalizer
          ApiDirector.ensure_no_finalizer q g
unfolding ApiAz.ensure_finalizer ApiAz.ensure_no_finalizer ApiExtension.ensure_finalizer
    ApiExtension.ensure_no_finalizer ApiNetwork.ensure_finalizer ApiNetwork.ensure_no_finalizer
    ApiCompilation.ensure_finalizer ApiCompilation.ensure_no_finalizer ApiRelease.ensure_finalizer
    ApiRelease.ensure_no_finalizer ApiBaseImage.ensure_finalizer ApiBaseImage.ensure_no_finalizer
    ApiDeployment.ensure_finalizer ApiDeployment.ensure_no_finalizer ApiTeam.ensure_finalizer
    ApiTeam.ensure_no_finalizer ApiDirector.ensure_finalizer ApiDirector.ensure_no_finalizer
finalizer-Lifecycle a x n c r s d t q g = (
  ensure-Lifecycle _ a g,
  ensure-Lifecycle _ x g,
  ensure-Lifecycle _ n g,
  ensure-Lifecycle _ c g,
  ensure-Lifecycle _ r g,
  ensure-Lifecycle _ s g,
  ensure-Lifecycle _ d g,
  ensure-Lifecycle _ t g,
  ensure-Lifecycle _ q g,
)
