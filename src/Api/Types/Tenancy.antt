-- ===== src/Api/Types/Tenancy.antt =====
-- The kinds of tenancy: team_types.go and director_types.go.
use boshv.Base.{Bool, Str}
use boshv.Api.Types.Meta.{Object}

pub record TeamSpec : Type 0 where
  pub director : Str

pub record TeamStatus : Type 0 where
  pub warning : Str
  pub original_director : Str
  pub secret_namespace : Str
  pub available : Bool

abbrev pub Team : Type 0
Team = Object TeamSpec TeamStatus

pub record DirectorSpec : Type 0 where
  pub url : Str
  pub ca_cert : Str
  pub uaa_url : Str
  pub uaa_ca_cert : Str
  pub uaa_client : Str
  pub uaa_client_secret : Str

-- A director's status has no field.
abbrev pub Director : Type 0
Director = Object DirectorSpec (Unit {0})
