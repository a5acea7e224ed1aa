-- ===== src/Remote/BoshClient.antt =====
-- The interface `BOSHClient` of remote-clients/bosh_client.go, and `boshClientImpl`, which fills it
-- by calls of the BOSH library's director.
pub mod CloudConfigs
pub mod Deployments
pub mod Uploads
use boshv.Base.{
  Bool, true, false, Option, none, some, List, [], ◌∷◌, Str, str, Result, Io, pure, lift, ◌>>=◌,
  ◌>>◌,
}
use boshv.Remote.Config
use boshv.Remote.Config.{CloudConfig}

pub record BoshClient (W E : Type 0) : Type 0 where
  pub has_release : Str → Str → Io W E Bool
  pub upload_release : Str → Str → Io W E (Unit {0})
  pub delete_release : Str → Str → Io W E (Unit {0})
  pub has_base_image : Str → Str → Io W E Bool
  pub upload_base_image : Str → Str → Io W E (Unit {0})
  pub delete_base_image : Str → Str → Io W E (Unit {0})
  pub create_vm_extension : Str → Config.VmExtension → Io W E (Unit {0})
  pub delete_vm_extension : Str → Io W E (Unit {0})
  pub create_az : Str → Config.Az → Io W E (Unit {0})
  pub delete_az : Str → Io W E (Unit {0})
  pub create_network : Str → Config.Network → Io W E (Unit {0})
  pub delete_network : Str → Io W E (Unit {0})
  pub create_compilation : Str → Config.Network → Config.Az → Config.Compilation → Io W E (Unit {0})
  pub delete_compilation : Str → Io W E (Unit {0})
  pub create_deployment : Str → Config.Deployment → Io W E (Unit {0})
  pub delete_deployment : Str → Io W E (Unit {0})

-- The handles that the library's `FindRelease`, `FindStemcell` and `FindDeployment` give.
pub record Deletable (W E : Type 0) : Type 0 where
  pub delete : Bool → Io W E (Unit {0})

pub record DeploymentHandle (W E : Type 0) : Type 0 where
  pub update : Str → Io W E (Unit {0})
  pub delete : Bool → Io W E (Unit {0})

-- The calls of `boshdir.Director` that the source makes, and `json.Marshal` at its two types. Of a
-- config difference the source uses `FromId`. Options that are empty structs are left out.
pub record DirectorApi (W E : Type 0) : Type 0 where
  pub has_release : Str → Str → Io W E Bool
  pub upload_release_url : Str → Str → Bool → Bool → Io W E (Unit {0})
  pub find_release : Str → Str → Io W E (Deletable W E)
  pub has_stemcell : Str → Str → Io W E Bool
  pub upload_stemcell_url : Str → Str → Bool → Io W E (Unit {0})
  pub find_stemcell : Str → Str → Io W E (Deletable W E)
  pub diff_config : Str → Str → Str → Io W E Str
  pub update_config : Str → Str → Str → Str → Io W E (Unit {0})
  pub delete_config : Str → Str → Io W E Bool
  pub find_deployment : Str → Io W E (DeploymentHandle W E)
  pub marshal_cloud_config : CloudConfig → Result E Str
  pub marshal_deployment : Config.Deployment → Result E Str

abbrev pub empty_config : CloudConfig
empty_config = record { azs = []; vm_extensions = []; networks = []; compilation = none }

module _ {W E : Type 0} (api : DirectorApi W E) where
  has_release : Str → Str → Io W E Bool
  has_release release_name version = api.has_release release_name version

  upload_release : Str → Str → Io W E (Unit {0})
  upload_release url sha1 = api.upload_release_url url sha1 false false

  delete_release : Str → Str → Io W E (Unit {0})
  delete_release release_name version = do
    release ← api.find_release release_name version
    release.delete false

  has_base_image : Str → Str → Io W E Bool
  has_base_image base_image_name version = api.has_stemcell base_image_name version

  upload_base_image : Str → Str → Io W E (Unit {0})
  upload_base_image url sha1 = api.upload_stemcell_url url sha1 false

  delete_base_image : Str → Str → Io W E (Unit {0})
  delete_base_image base_image_name version = do
    stemcell ← api.find_stemcell base_image_name version
    stemcell.delete false

  pub update_cloud_config : Str → CloudConfig → Io W E (Unit {0})
  update_cloud_config name cloud_config = do
    bytes ← lift (api.marshal_cloud_config cloud_config)
    from_id ← api.diff_config (str "cloud") name bytes
    api.update_config (str "cloud") name from_id bytes

  pub delete_cloud_config : Str → Io W E (Unit {0})
  delete_cloud_config name = do _ ← api.delete_config (str "cloud") name; pure tt

  create_vm_extension : Str → Config.VmExtension → Io W E (Unit {0})
  create_vm_extension name vm_extension =
      update_cloud_config name (record empty_config { vm_extensions = vm_extension ∷ [] })

  delete_vm_extension : Str → Io W E (Unit {0})
  delete_vm_extension name = delete_cloud_config name

  create_az : Str → Config.Az → Io W E (Unit {0})
  create_az name az = update_cloud_config name (record empty_config { azs = az ∷ [] })

  delete_az : Str → Io W E (Unit {0})
  delete_az name = delete_cloud_config name

  create_network : Str → Config.Network → Io W E (Unit {0})
  create_network name network =
      update_cloud_config name (record empty_config { networks = network ∷ [] })

  delete_network : Str → Io W E (Unit {0})
  delete_network name = delete_cloud_config name

  create_compilation : Str → Config.Network → Config.Az → Config.Compilation → Io W E (Unit {0})
  create_compilation name network az compilation = update_cloud_config name (record empty_config {
    networks = network ∷ [];
    azs = az ∷ [];
    compilation = some compilation;
  })

  delete_compilation : Str → Io W E (Unit {0})
  delete_compilation name = delete_cloud_config name

  create_deployment : Str → Config.Deployment → Io W E (Unit {0})
  create_deployment name deployment = do
    bytes ← lift (api.marshal_deployment deployment)
    d ← api.find_deployment name
    d.update bytes

  delete_deployment : Str → Io W E (Unit {0})
  delete_deployment name = do d ← api.find_deployment name; d.delete false

  unfoldable pub bosh_client_impl : BoshClient W E
  unfolding has_release upload_release delete_release has_base_image upload_base_image
      delete_base_image create_vm_extension delete_vm_extension create_az delete_az create_network
      delete_network create_compilation delete_compilation create_deployment delete_deployment
      update_cloud_config delete_cloud_config
  bosh_client_impl = record {
    has_release = has_release;
    upload_release = upload_release;
    delete_release = delete_release;
    has_base_image = has_base_image;
    upload_base_image = upload_base_image;
    delete_base_image = delete_base_image;
    create_vm_extension = create_vm_extension;
    delete_vm_extension = delete_vm_extension;
    create_az = create_az;
    delete_az = delete_az;
    create_network = create_network;
    delete_network = delete_network;
    create_compilation = create_compilation;
    delete_compilation = delete_compilation;
    create_deployment = create_deployment;
    delete_deployment = delete_deployment;
  }

-- The constructors of the BOSH libraries, and the fields of their configs that the source sets.
pub record BoshLibrary (W E : Type 0) : Type 1 where
  pub UaaConfig : Type 0
  pub Uaa : Type 0
  pub DirectorConfig : Type 0
  pub uaa_config_from_url : Str → Io W E UaaConfig
  pub set_uaa_config : UaaConfig → Str → Str → Str → UaaConfig
  pub new_uaa : UaaConfig → Io W E Uaa
  pub director_config_from_url : Str → Io W E DirectorConfig
  pub set_director_config : DirectorConfig → Str → Uaa → DirectorConfig
  pub new_director : DirectorConfig → Io W E (DirectorApi W E)

-- The arguments of `NewBOSHClient`, in its order.
pub record BoshAccess : Type 0 where
  pub url : Str
  pub ca_cert : Str
  pub uaa_url : Str
  pub uaa_client_name : Str
  pub uaa_client_secret : Str
  pub uaa_ca_cert : Str

unfoldable pub new_bosh_client :
    {W E : Type 0} → BoshLibrary W E → BoshAccess → Io W E (BoshClient W E)
new_bosh_client lib a = do
  uaa_config ← lib.uaa_config_from_url a.uaa_url
  uaa ←
      lib.new_uaa
        (lib.set_uaa_config uaa_config a.uaa_client_name a.uaa_client_secret a.uaa_ca_cert)
  director_config ← lib.director_config_from_url a.url
  api ← lib.new_director (lib.set_director_config director_config a.ca_cert uaa)
  pure (bosh_client_impl api)
