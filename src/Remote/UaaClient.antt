-- ===== src/Remote/UaaClient.antt =====
-- remote-clients/uaa_client.go: the interface `UAAClient`, and `uaaClientImpl`, which fills it by
-- calls of the go-uaa library.
pub mod Registry
use boshv.Base.{ℕ, Bool, Option, none, some, List, [], ◌∷◌, ◌++◌, Str, str, Io, pure, ◌>>=◌, eqb}
use boshv.Base.Lists.{length}

pub record UaaClient (W E : Type 0) : Type 0 where
  pub has_client : Str → Io W E Bool
  pub create_client : Str → Str → List Str → Io W E (Unit {0})
  pub delete_client : Str → Io W E (Unit {0})

-- The fields of the library's `uaa.Client` that the source sets.
pub record ClientRecord : Type 0 where
  pub client_id : Str
  pub client_secret : Str
  pub authorized_grant_types : List Str
  pub scope : List Str
  pub authorities : List Str

-- The calls of `uaa.API` that the source makes: `ListClients` takes a filter, the attribute and the
-- order to sort by, the start index and the number of items on a page.
pub record UaaApi (W E : Type 0) : Type 0 where
  pub list_clients : Str → Str → Str → ℕ → ℕ → Io W E (List ClientRecord)
  pub create_client : ClientRecord → Io W E (Unit {0})
  pub delete_client : Str → Io W E (Unit {0})

-- `fmt.Sprintf("client_id eq \"%s\"", name)`
unfoldable pub client_filter : Str → Str
client_filter name = str "client_id eq \"" ++ (name ++ str "\"")

module _ {W E : Type 0} (api : UaaApi W E) where
  has_client : Str → Io W E Bool
  has_client name = do
    clients ← api.list_clients (client_filter name) (str "client_id") (str "ascending") 1 2
    pure (eqb (length clients) 1)

  create_client : Str → Str → List Str → Io W E (Unit {0})
  create_client name secret authorities = do
    _ ← api.create_client (record {
      client_id = name;
      client_secret = secret;
      authorized_grant_types = str "client_credentials" ∷ [];
      scope = str "uaa.none" ∷ [];
      authorities = authorities;
    })
    pure tt

  delete_client : Str → Io W E (Unit {0})
  delete_client name = do _ ← api.delete_client name; pure tt

  unfoldable pub uaa_client_impl : UaaClient W E
  unfolding has_client create_client delete_client
  uaa_client_impl = record {
    has_client = has_client;
    create_client = create_client;
    delete_client = delete_client;
  }

-- The library's constructors. `rootCAs.AppendCertsFromPEM` on the system's pool, the HTTP client over
-- that pool and the credentials are the arguments from which the library's API object is made.
pub record UaaLibrary (W E : Type 0) : Type 1 where
  pub TargetUrl : Type 0
  pub CertPool : Type 0
  pub Api : Type 0
  pub system_cert_pool : W → Option CertPool
  pub new_cert_pool : CertPool
  pub append_certs : CertPool → Str → CertPool
  pub build_target_url : Str → Io W E TargetUrl
  pub with_credentials : TargetUrl → CertPool → Str → Str → Api
  pub validate : Api → Io W E (UaaApi W E)

-- The arguments of `NewUAAClient`, in its order.
pub record UaaAccess : Type 0 where
  pub url : Str
  pub client_name : Str
  pub client_secret : Str
  pub ca_cert : Str

module _ {W E : Type 0} (lib : UaaLibrary W E) where
  root_cas : Option lib.CertPool → lib.CertPool
  root_cas none = lib.new_cert_pool
  root_cas (some pool) = pool

  unfoldable pub new_uaa_client : UaaAccess → Io W E (UaaClient W E)
  unfolding root_cas
  new_uaa_client a w =
      let pool = lib.append_certs (root_cas (lib.system_cert_pool w)) a.ca_cert in connect pool w
    where
      connect : lib.CertPool → Io W E (UaaClient W E)
      connect pool = do
        target_url ← lib.build_target_url a.url
        api ← lib.validate (lib.with_credentials target_url pool a.client_name a.client_secret)
        pure (uaa_client_impl api)
