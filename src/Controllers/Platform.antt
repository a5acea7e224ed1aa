-- ===== src/Controllers/Platform.antt =====
-- What a reconciler is given from outside: the Kubernetes API, the BOSH and UAA libraries, random
-- bytes, the text of a raw extension and the order of a map's keys. controllers/helpers.go: the
-- errors that are no failure.
use boshv.Base.{ℕ, List, Str, Io, Option, none, some, ◌||◌, if◌then◌else◌}
use boshv.Api.Types.{RawPtr}
use boshv.Kube.{Kube, Errors}
use boshv.Remote.Config
use boshv.Remote.BoshClient.{BoshLibrary}
use boshv.Remote.UaaClient.{UaaLibrary}

pub record Platform (W E : Type 0) : Type 1 where
  pub kube : Kube W E
  pub errors : Errors E
  pub bosh : BoshLibrary W E
  pub uaa : UaaLibrary W E
  pub rand_read : ℕ → Io W E Str
  pub raw_string : RawPtr → Str
  pub range_releases : List Config.Release → List Config.Release

-- A request names an object.
pub record Request : Type 0 where
  pub namespace : Str
  pub name : Str

module _ {E : Type 0} (errors : Errors E) where
  unfoldable pub ignore_does_not_exist : E → Option E
  ignore_does_not_exist e = if errors.is_not_found e || errors.is_gone e then none else some e

  unfoldable pub ignore_already_exists : E → Option E
  ignore_already_exists e = if errors.is_already_exists e then none else some e
