-- ===== src/Kube.antt =====
-- The Kubernetes API as the controllers see it: `client.Client` of controller-runtime, a library.
-- Its calls are parameters, one `Store` for each kind. The standard errors of the API machinery
-- are seen through the tests that `apierrs` makes.
use boshv.Base.{Bool, List, Str, Io}
use boshv.Api.Types.{
  Az, Extension, Network, Compilation, Release, BaseImage, Role, Deployment, Team, Director,
}

-- `Get` takes a namespace and a name. A write gives back the object as the server now holds it:
-- the library decodes the answer into the object that it was handed.
pub record Store (W E K : Type 0) : Type 0 where
  pub get : Str → Str → Io W E K
  pub create : K → Io W E K
  pub update : K → Io W E K
  pub update_status : K → Io W E K
  pub delete : K → Io W E (Unit {0})

-- `v1.Secret`, with the entry "secret" of its data.
pub record Secret : Type 0 where
  pub name : Str
  pub namespace : Str
  pub secret : Str

-- Secrets are read, created and deleted.
pub record SecretStore (W E : Type 0) : Type 0 where
  pub get : Str → Str → Io W E Secret
  pub create : Secret → Io W E Secret
  pub delete : Str → Str → Io W E (Unit {0})

pub record Kube (W E : Type 0) : Type 0 where
  pub azs : Store W E Az
  pub extensions : Store W E Extension
  pub networks : Store W E Network
  pub compilations : Store W E Compilation
  pub releases : Store W E Release
  pub base_images : Store W E BaseImage
  pub roles : Store W E Role
  pub deployments : Store W E Deployment
  pub teams : Store W E Team
  pub directors : Store W E Director
  pub secrets : SecretStore W E
  pub list_teams : Str → Io W E (List Team)

-- `errors.New`, and `IsNotFound`, `IsGone` and `IsAlreadyExists` of apimachinery's errors.
pub record Errors (E : Type 0) : Type 0 where
  pub new_error : Str → E
  pub is_not_found : E → Bool
  pub is_gone : E → Bool
  pub is_already_exists : E → Bool
