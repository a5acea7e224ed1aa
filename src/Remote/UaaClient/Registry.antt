-- ===== src/Remote/UaaClient/Registry.antt =====
-- The clients that UAA knows, by name, as `uaaClientImpl` reads and writes them.
use boshv.Base.{
  ℕ, ◌≤◌, ◌++◌, ap, ◌∙◌, ◌⊎◌, inl, inr, Io, ◌>>=◌, Bool, true, false, ◌≡◌, Option, none, some, List,
  [], ◌∷◌, Str, str, ◌==◌, if◌then◌else◌, pure, eqb, arith,
}
use boshv.Base.Lists.{length}
use boshv.Base.Outcome.{Ensures, after_bind, weaken}
use boshv.Api.Helpers.Names.{Without}
use boshv.Remote.UaaClient.{UaaApi, ClientRecord, client_filter, uaa_client_impl}

abbrev pub is_known : Option ClientRecord → Bool
is_known none = false
is_known (some _) = true

-- A registry with one entry changed.
abbrev pub register :
    (Str → Option ClientRecord) → Str → Option ClientRecord → Str → Option ClientRecord
register clients name entry k = if k == name then entry else clients k

module _ {W E V : Type 0} (api : UaaApi W E) (clients : W → Str → Option ClientRecord)
    (rest : W → V) where
  abbrev pub Same : W → W → Type 0
  Same w w' = (clients w' ≡ clients w) × (rest w' ≡ rest w)

  abbrev pub Becomes : W → Str → Option ClientRecord → W → Type 0
  Becomes w name entry w' = (clients w' ≡ register (clients w) name entry) × (rest w' ≡ rest w)

  -- What UAA documents of the library's calls: a filter `client_id eq "..."`, which names a client
  -- without quotes, lists that client if it is known, however the list is sorted, on a first page of
  -- any size. A new client is known by its id, and a deleted one is not.
  pub record KeepsClients : Type 0 where
    pub lists :
        (name sort_by order : Str) (count : ℕ) (w : W)
        → Without b'"' name
        → 1 ≤ count
        → Ensures
            (λ found w'. (length found ≡ (if is_known (clients w name) then 1 else 0)) × Same w w')
            (Same w)
            (api.list_clients (str "client_id eq \"" ++ (name ++ str "\"")) sort_by order 1 count w)
    pub creates :
        (c : ClientRecord) (w : W)
        → Ensures (λ _. Becomes w c.client_id (some c)) (Same w) (api.create_client c w)
    pub deletes :
        (name : Str) (w : W)
        → Ensures (λ _. Becomes w name none) (Same w) (api.delete_client name w)

  -- The record of a client that may get tokens by its own credentials.
  abbrev pub credentials : Str → Str → List Str → ClientRecord
  credentials name secret authorities = record {
    client_id = name;
    client_secret = secret;
    authorized_grant_types = str "client_credentials" ∷ [];
    scope = str "uaa.none" ∷ [];
    authorities = authorities;
  }

  -- What a write that fails half way leaves: as before, or as after.
  abbrev pub Partly : W → Str → Option ClientRecord → W → Type 0
  Partly w name entry w' = Same w w' ⊎ Becomes w name entry w'

  module _ (law : KeepsClients) where
    has_client_lem :
        (name : Str) (w : W)
        → Without b'"' name
        → Ensures
            (λ known w'. (known ≡ is_known (clients w name)) × Same w w')
            (Same w)
            ((uaa_client_impl api).has_client name w)
    unfolding uaa_client_impl client_filter
    has_client_lem name w plain =
        after_bind _ (λ known w'. (known ≡ is_known (clients w name)) × Same w w') _ (Same w)
          (api.list_clients (client_filter name) (str "client_id") (str "ascending") 1 2)
          (λ found. pure (eqb (length found) 1)) w
          (law.lists name (str "client_id") (str "ascending") 2 w plain (omega arith)) (λ w' s. s)
          (λ found w' s. (ground arith, s.1))

    registered :
        (known : Option ClientRecord → Bool) (m : Str → Option ClientRecord) (name other : Str)
        (entry : Option ClientRecord)
        → known (register m name entry other)
          ≡ (if other == name then known entry else known (m other))
    registered known m name other entry = ground arith

    -- Asking for a client after a write.
    then_asked :
        (name other : Str) (entry : Option ClientRecord) (m : Io W E (Unit {0})) (w : W)
        → Without b'"' other
        → Ensures (λ _. Becomes w name entry) (Same w) (m w)
        → Ensures
            (λ known w'.
              (known ≡ (if other == name then is_known entry else is_known (clients w other)))
              × Becomes w name entry w')
            (Partly w name entry)
            ((m >>= λ _. (uaa_client_impl api).has_client other) w)
    then_asked name other entry m w plain h =
        after_bind (λ _. Becomes w name entry)
          (λ known w'.
            (known ≡ (if other == name then is_known entry else is_known (clients w other)))
            × Becomes w name entry w')
          (Same w) (Partly w name entry) m (λ _. (uaa_client_impl api).has_client other) w h
          (λ w' s. inl s)
          λ _ w1 b.
            weaken (λ known w'. (known ≡ is_known (clients w1 other)) × Same w1 w')
              (λ known w'.
                (known ≡ (if other == name then is_known entry else is_known (clients w other)))
                × Becomes w name entry w')
              (Same w1) (Partly w name entry) ((uaa_client_impl api).has_client other w1)
              (has_client_lem other w1 plain)
              (λ known w' k. (
                k.0
                    ∙ ap (λ c. is_known (c other)) b.0
                    ∙ registered is_known (clients w) name other entry,
                (k.1.0 ∙ b.0, k.1.1 ∙ b.1),
              ))
              (λ w' s. inr (s.0 ∙ b.0, s.1 ∙ b.1))

    -- By `KeepsClients`, of names without a quote: `HasClient` tells whether a client is known and
    -- changes nothing. After `CreateClient`, which makes a client known with its secret and authorities
    -- for the grant by its own credentials, and after `DeleteClient`, `HasClient` of any name tells
    -- that the created client is known and the deleted one is not, and of every other name what it told
    -- before. A call that fails leaves the clients as before or as after the write.
    pub client_registry :
        (name other secret : Str) (authorities : List Str) (w : W)
        → Without b'"' name
        → Without b'"' other
        → let uc = uaa_client_impl api in
          Ensures
            (λ known w'. (known ≡ is_known (clients w name)) × Same w w')
            (Same w)
            (uc.has_client name w)
          × Ensures
              (λ known w'.
                (known ≡ (if other == name then true else is_known (clients w other)))
                × Becomes w name (some (credentials name secret authorities)) w')
              (Partly w name (some (credentials name secret authorities)))
              ((uc.create_client name secret authorities >>= λ _. uc.has_client other) w)
          × Ensures
              (λ known w'.
                (known ≡ (if other == name then false else is_known (clients w other)))
                × Becomes w name none w')
              (Partly w name none)
              ((uc.delete_client name >>= λ _. uc.has_client other) w)
    unfolding uaa_client_impl
    client_registry name other secret authorities w plain plain' = (
      has_client_lem name w plain,
      then_asked name other (some (credentials name secret authorities))
          ((uaa_client_impl api).create_client name secret authorities) w plain'
          (after_bind _ (λ _. Becomes w name (some (credentials name secret authorities))) _
            (Same w) (api.create_client (credentials name secret authorities)) (λ _. pure tt) w
            (law.creates (credentials name secret authorities) w) (λ w' s. s) (λ _ w' s. s)),
      then_asked name other none ((uaa_client_impl api).delete_client name) w plain' (
          after_bind _ (λ _. Becomes w name none) _ (Same w) (api.delete_client name) (λ _. pure tt)
            w (law.deletes name w) (λ w' s. s) (λ _ w' s. s)),
    )
