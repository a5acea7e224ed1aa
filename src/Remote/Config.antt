-- ===== src/Remote/Config.antt =====
-- The structs of remote-clients/bosh_client.go that are sent to BOSH as cloud configs and manifests.
use boshv.Base.{Bool, Option, List, Str, str_discrete}
use boshv.Base.Int.{ℤ}
use boshv.Api.Types.{RawPtr}

pub record Az : Type 0 where
  pub name : Str
  pub cloud_properties : RawPtr

pub record VmExtension : Type 0 where
  pub name : Str
  pub cloud_properties : RawPtr

pub record Subnet : Type 0 where
  pub range : Str
  pub gateway : Str
  pub dns : List Str
  pub reserved : List Str
  pub static : List Str
  pub azs : List Str
  pub cloud_properties : RawPtr

pub record Network : Type 0 where
  pub name : Str
  pub type : Str
  pub subnets : List Subnet

pub record VmResources : Type 0 where
  pub cpu : ℤ
  pub ram : ℤ
  pub ephemeral_disk_size : ℤ

pub record Compilation : Type 0 where
  pub workers : ℤ
  pub az : Str
  pub orphan_workers : Bool
  pub vm_resources : VmResources
  pub cloud_properties : RawPtr
  pub network : Str
  pub reuse_compilation_vms : Bool

pub record CloudConfig : Type 0 where
  pub azs : List Az
  pub vm_extensions : List VmExtension
  pub networks : List Network
  pub compilation : Option Compilation

-- The dynamic types that an `interface{}` field of the source can hold.
pub data IntOrString : Type 0 where
  int : ℤ → IntOrString
  string : Str → IntOrString

pub record DeploymentUpdate : Type 0 where
  pub canaries : ℤ
  pub max_in_flight : IntOrString
  pub canary_watch_time : IntOrString
  pub update_watch_time : IntOrString
  pub serial : Bool
  pub vm_strategy : Str

pub record Release : Type 0 where
  pub name : Str
  pub version : Str

unfoldable pub Release-discrete : Discrete Release
unfolding str_discrete
Release-discrete = hlevel str_discrete

pub record Stemcell : Type 0 where
  pub alias : Str
  pub name : Str
  pub version : Str

pub record ConsumesLink : Type 0 where
  pub from : Str
  pub deployment : Str

pub record ProvidesLink : Type 0 where
  pub link_name : Str
  pub shared : Bool

-- The maps stand as association lists with distinct keys.
pub record Job : Type 0 where
  pub name : Str
  pub release : Str
  pub consumes : List (Str × ConsumesLink)
  pub provides : List (Str × ProvidesLink)
  pub properties : RawPtr

pub record DeploymentNetwork : Type 0 where
  pub name : Str

pub record InstanceGroup : Type 0 where
  pub name : Str
  pub azs : List Str
  pub instances : ℤ
  pub jobs : List Job
  pub vm_extensions : List Str
  pub vm_resources : VmResources
  pub stemcell : Str
  pub persistent_disk_size : ℤ
  pub networks : List DeploymentNetwork

pub record Deployment : Type 0 where
  pub name : Str
  pub update : DeploymentUpdate
  pub releases : List Release
  pub stemcells : List Stemcell
  pub instance_groups : List InstanceGroup
