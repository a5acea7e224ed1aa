-- ===== src/Controllers/Artifacts.antt =====
-- The kinds fill the interfaces `boshArtifact` and `uaaEntity`.
use boshv.Base.{List, Str}
use boshv.Api.Types.{
  RawPtr, Az, Extension, Network, Compilation, Release, BaseImage, Deployment, Team,
}
use boshv.Api.Az as ApiAz
use boshv.Api.Extension as ApiExtension
use boshv.Api.Network as ApiNetwork
use boshv.Api.Compilation as ApiCompilation
use boshv.Api.Release as ApiRelease
use boshv.Api.BaseImage as ApiBaseImage
use boshv.Api.Deployment as ApiDeployment
use boshv.Api.Team as ApiTeam
use boshv.Kube.{Kube}
use boshv.Remote.Config
use boshv.Controllers.Bosh.{BoshArtifact}
use boshv.Controllers.Uaa.{UaaEntity}

module _ {W E : Type 0} where
  abbrev pub az_artifact : (RawPtr → Str) → BoshArtifact W E Az
  az_artifact raw_string = record {
    being_deleted = ApiAz.being_deleted;
    ensure_no_finalizer = ApiAz.ensure_no_finalizer;
    ensure_finalizer = ApiAz.ensure_finalizer;
    prepare_to_save = ApiAz.prepare_to_save raw_string;
    create_unless_exists = ApiAz.create_unless_exists;
    delete_if_exists = ApiAz.delete_if_exists;
  }

  abbrev pub extension_artifact : (RawPtr → Str) → BoshArtifact W E Extension
  extension_artifact raw_string = record {
    being_deleted = ApiExtension.being_deleted;
    ensure_no_finalizer = ApiExtension.ensure_no_finalizer;
    ensure_finalizer = ApiExtension.ensure_finalizer;
    prepare_to_save = ApiExtension.prepare_to_save raw_string;
    create_unless_exists = ApiExtension.create_unless_exists;
    delete_if_exists = ApiExtension.delete_if_exists;
  }

  abbrev pub network_artifact : (RawPtr → Str) → Kube W E → BoshArtifact W E Network
  network_artifact raw_string c = record {
    being_deleted = ApiNetwork.being_deleted;
    ensure_no_finalizer = ApiNetwork.ensure_no_finalizer;
    ensure_finalizer = ApiNetwork.ensure_finalizer;
    prepare_to_save = ApiNetwork.prepare_to_save raw_string;
    create_unless_exists = λ bc. ApiNetwork.create_unless_exists bc c;
    delete_if_exists = ApiNetwork.delete_if_exists;
  }

  abbrev pub compilation_artifact : BoshArtifact W E Compilation
  compilation_artifact = record {
    being_deleted = ApiCompilation.being_deleted;
    ensure_no_finalizer = ApiCompilation.ensure_no_finalizer;
    ensure_finalizer = ApiCompilation.ensure_finalizer;
    prepare_to_save = ApiCompilation.prepare_to_save;
    create_unless_exists = ApiCompilation.create_unless_exists;
    delete_if_exists = ApiCompilation.delete_if_exists;
  }

  abbrev pub release_artifact : BoshArtifact W E Release
  release_artifact = record {
    being_deleted = ApiRelease.being_deleted;
    ensure_no_finalizer = ApiRelease.ensure_no_finalizer;
    ensure_finalizer = ApiRelease.ensure_finalizer;
    prepare_to_save = ApiRelease.prepare_to_save;
    create_unless_exists = ApiRelease.create_unless_exists;
    delete_if_exists = ApiRelease.delete_if_exists;
  }

  abbrev pub base_image_artifact : BoshArtifact W E BaseImage
  base_image_artifact = record {
    being_deleted = ApiBaseImage.being_deleted;
    ensure_no_finalizer = ApiBaseImage.ensure_no_finalizer;
    ensure_finalizer = ApiBaseImage.ensure_finalizer;
    prepare_to_save = ApiBaseImage.prepare_to_save;
    create_unless_exists = ApiBaseImage.create_unless_exists;
    delete_if_exists = ApiBaseImage.delete_if_exists;
  }

  abbrev pub deployment_artifact :
      (List Config.Release → List Config.Release) → Kube W E → BoshArtifact W E Deployment
  deployment_artifact range_releases c = record {
    being_deleted = ApiDeployment.being_deleted;
    ensure_no_finalizer = ApiDeployment.ensure_no_finalizer;
    ensure_finalizer = ApiDeployment.ensure_finalizer;
    prepare_to_save = ApiDeployment.prepare_to_save;
    create_unless_exists = λ bc. ApiDeployment.create_unless_exists bc range_releases c;
    delete_if_exists = ApiDeployment.delete_if_exists;
  }

  abbrev pub team_entity : UaaEntity W E Team
  team_entity = record {
    being_deleted = ApiTeam.being_deleted;
    ensure_no_finalizer = ApiTeam.ensure_no_finalizer;
    ensure_finalizer = ApiTeam.ensure_finalizer;
    secret_name = ApiTeam.secret_name;
    secret_namespace = ApiTeam.secret_namespace;
    create_unless_exists = ApiTeam.create_unless_exists;
    delete_if_exists = ApiTeam.delete_if_exists;
  }
