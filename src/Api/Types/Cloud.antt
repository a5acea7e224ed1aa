-- ===== src/Api/Types/Cloud.antt =====
-- The kinds that become cloud configs: az_types.go, extension_types.go, network_types.go and
-- compilation_types.go.
use boshv.Base.{Bool, List, Str}
use boshv.Base.Int.{ℤ}
use boshv.Api.Types.Meta.{Object, RawPtr}

pub record AzSpec : Type 0 where
  pub cloud_properties : RawPtr

pub record AzStatus : Type 0 where
  pub immutable_fields_frozen : Bool
  pub warning : Str
  pub original_cloud_properties : RawPtr
  pub available : Bool

abbrev pub Az : Type 0
Az = Object AzSpec AzStatus

pub record ExtensionSpec : Type 0 where
  pub cloud_properties : RawPtr

pub record ExtensionStatus : Type 0 where
  pub warning : Str
  pub original_cloud_properties : RawPtr
  pub available : Bool

abbrev pub Extension : Type 0
Extension = Object ExtensionSpec ExtensionStatus

pub record Subnet : Type 0 where
  pub range : Str
  pub gateway : Str
  pub dns : List Str
  pub reserved : List Str
  pub static : List Str
  pub azs : List Str
  pub cloud_properties : RawPtr

pub record NetworkSpec : Type 0 where
  pub type : Str
  pub subnets : List Subnet

pub record NetworkStatus : Type 0 where
  pub warning : Str
  pub original_spec : NetworkSpec
  pub available : Bool

abbrev pub Network : Type 0
Network = Object NetworkSpec NetworkStatus

pub record CompilationSpec : Type 0 where
  pub replicas : ℤ
  pub az_cloud_properties : RawPtr
  pub cpu : ℤ
  pub ram : ℤ
  pub ephemeral_disk_size : ℤ
  pub cloud_properties : RawPtr
  pub network_type : Str
  pub subnet_range : Str
  pub subnet_gateway : Str
  pub subnet_dns : List Str
  pub subnet_reserved : List Str
  pub subnet_cloud_properties : RawPtr
  pub director : Str

pub record CompilationStatus : Type 0 where
  pub warning : Str
  pub original_director : Str
  pub available : Bool

abbrev pub Compilation : Type 0
Compilation = Object CompilationSpec CompilationStatus
