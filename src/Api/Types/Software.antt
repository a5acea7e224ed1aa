-- ===== src/Api/Types/Software.antt =====
-- The kinds that say what runs: release_types.go, base_image_types.go, role_types.go and
-- deployment_types.go.
use boshv.Base.{Bool, List, Str}
use boshv.Base.Int.{ℤ}
use boshv.Api.Types.Meta.{Object, RawPtr}

pub record ReleaseSpec : Type 0 where
  pub release_name : Str
  pub version : Str
  pub url : Str
  pub sha1 : Str

pub record ReleaseStatus : Type 0 where
  pub warning : Str
  pub original_spec : ReleaseSpec
  pub available : Bool

abbrev pub Release : Type 0
Release = Object ReleaseSpec ReleaseStatus

pub record BaseImageSpec : Type 0 where
  pub base_image_name : Str
  pub version : Str
  pub url : Str
  pub sha1 : Str

pub record BaseImageStatus : Type 0 where
  pub warning : Str
  pub original_spec : BaseImageSpec
  pub available : Bool

abbrev pub BaseImage : Type 0
BaseImage = Object BaseImageSpec BaseImageStatus

pub record RoleSource : Type 0 where
  pub job : Str
  pub release : Str

pub record RoleSpec : Type 0 where
  pub source : RoleSource
  pub properties : RawPtr

-- A role has no status.
abbrev pub Role : Type 0
Role = Object RoleSpec (Unit {0})

pub record Resources : Type 0 where
  pub ram : ℤ
  pub cpu : ℤ
  pub ephemeral_disk_size : ℤ
  pub persistent_disk_size : ℤ

pub record ExportedConfiguration : Type 0 where
  pub internal_link : Str
  pub exported : Bool

pub record ImportedConfiguration : Type 0 where
  pub internal_link : Str
  pub imported_from : Str

-- The two maps stand as lists of their entries, in the order in which a `range` meets them.
pub record Container : Type 0 where
  pub role : Str
  pub exported_configuration : List (Str × ExportedConfiguration)
  pub imported_configuration : List (Str × ImportedConfiguration)
  pub resources : Resources

pub record UpdateStrategy : Type 0 where
  pub min_ready_seconds : ℤ
  pub max_ready_seconds : ℤ
  pub max_unavailable_percent : Str
  pub max_unavailable_replicas : ℤ
  pub type : Str

pub record DeploymentSpec : Type 0 where
  pub azs : List Str
  pub replicas : ℤ
  pub containers : List Container
  pub extensions : List Str
  pub base_image : Str
  pub network : Str
  pub update_strategy : UpdateStrategy
  pub force_reconciliation : Bool

pub record DeploymentStatus : Type 0 where
  pub available : Bool

abbrev pub Deployment : Type 0
Deployment = Object DeploymentSpec DeploymentStatus
