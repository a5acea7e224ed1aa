-- ===== src/Api/InternalNames.antt =====
-- `InternalName` of the kinds, and `ClientName` of a team: which objects share a name in BOSH or UAA.
use boshv.Base.{◌≡◌, ◌≢◌, ◌⊎◌, inl, inr, ◌++◌, Str, str, arith}
use boshv.Api.Types.{Object, Az, Extension, Network, Compilation, Deployment, Team, name, namespace}
use boshv.Api.Base32.{Bytes}
use boshv.Api.Helpers.Names.{
  Without, standard_name_injective, dashed_shift, dashed_injective, dashed_kinds,
}
use boshv.Api.Az as ApiAz
use boshv.Api.Extension as ApiExtension
use boshv.Api.Network as ApiNetwork
use boshv.Api.Compilation as ApiCompilation
use boshv.Api.Deployment.Manifest.Jobs as ApiDeployment
use boshv.Api.Team as ApiTeam

-- The object under another namespace and name.
abbrev pub placed : {S T : Type 0} → Object S T → Str → Str → Object S T
placed o namespace name = record o {
  metadata = record o.metadata { namespace = namespace; name = name };
}

same_kind_collides :
    (az : Az) (x : Extension) (n : Network) (k : Compilation) (d : Deployment) (a b c : Str)
    → let ab = a ++ (str "-" ++ b) in
      let bc = b ++ (str "-" ++ c) in
      (ApiAz.internal_name (placed az ab c) ≡ ApiAz.internal_name (placed az a bc))
      × (ApiExtension.internal_name (placed x ab c) ≡ ApiExtension.internal_name (placed x a bc))
      × (ApiNetwork.internal_name (placed n ab c) ≡ ApiNetwork.internal_name (placed n a bc))
      × (ApiCompilation.internal_name (placed k ab c)
          ≡ ApiCompilation.internal_name (placed k a bc))
      × (ApiDeployment.internal_name (placed d ab c) ≡ ApiDeployment.internal_name (placed d a bc))
unfolding ApiAz.internal_name ApiExtension.internal_name ApiNetwork.internal_name
    ApiCompilation.internal_name ApiDeployment.internal_name
same_kind_collides az x n k d a b c = (
  dashed_shift (str "az") a b c,
  dashed_shift (str "extension") a b c,
  dashed_shift (str "network") a b c,
  dashed_shift (str "compilation") a b c,
  dashed_shift (str "deployment") a b c,
)

-- Of two places whose namespaces have no dash: if two objects of one kind have the same internal
-- name there, for one of the five kinds, then the places have the same namespace and name.
pub internal_name_injective :
    (az az' : Az) (x x' : Extension) (n n' : Network) (k k' : Compilation) (d d' : Deployment)
    (ns nm ns' nm' : Str)
    → Without b'-' ns
    → Without b'-' ns'
    → (ApiAz.internal_name (placed az ns nm) ≡ ApiAz.internal_name (placed az' ns' nm'))
      ⊎ (ApiExtension.internal_name (placed x ns nm)
          ≡ ApiExtension.internal_name (placed x' ns' nm'))
      ⊎ (ApiNetwork.internal_name (placed n ns nm) ≡ ApiNetwork.internal_name (placed n' ns' nm'))
      ⊎ (ApiCompilation.internal_name (placed k ns nm)
          ≡ ApiCompilation.internal_name (placed k' ns' nm'))
      ⊎ (ApiDeployment.internal_name (placed d ns nm)
          ≡ ApiDeployment.internal_name (placed d' ns' nm'))
    → (ns ≡ ns') × (nm ≡ nm')
unfolding ApiAz.internal_name ApiExtension.internal_name ApiNetwork.internal_name
    ApiCompilation.internal_name ApiDeployment.internal_name
internal_name_injective az az' x x' n n' k k' d d' ns nm ns' nm' h h' same = elim same [
  | inl e ↦ dashed_injective (str "az") ns nm ns' nm' h h' e
  | inr (inl e) ↦ dashed_injective (str "extension") ns nm ns' nm' h h' e
  | inr (inr (inl e)) ↦ dashed_injective (str "network") ns nm ns' nm' h h' e
  | inr (inr (inr (inl e))) ↦ dashed_injective (str "compilation") ns nm ns' nm' h h' e
  | inr (inr (inr (inr e))) ↦ dashed_injective (str "deployment") ns nm ns' nm' h h' e
]

kinds_apart :
    (az : Az) (x : Extension) (n : Network) (k : Compilation)
    → (ApiAz.internal_name az ≢ ApiExtension.internal_name x)
      × (ApiAz.internal_name az ≢ ApiNetwork.internal_name n)
      × (ApiAz.internal_name az ≢ ApiCompilation.internal_name k)
      × (ApiExtension.internal_name x ≢ ApiNetwork.internal_name n)
      × (ApiExtension.internal_name x ≢ ApiCompilation.internal_name k)
      × (ApiNetwork.internal_name n ≢ ApiCompilation.internal_name k)
unfolding ApiAz.internal_name ApiExtension.internal_name ApiNetwork.internal_name
    ApiCompilation.internal_name str
kinds_apart az x n k = (
  dashed_kinds _ _ _ _ _ _ _ _ (omega arith),
  dashed_kinds _ _ _ _ _ _ _ _ (omega arith),
  dashed_kinds _ _ _ _ _ _ _ _ (omega arith),
  dashed_kinds _ _ _ _ _ _ _ _ (omega arith),
  dashed_kinds _ _ _ _ _ _ _ _ (omega arith),
  dashed_kinds _ _ _ _ _ _ _ _ (omega arith),
)

-- For every kind with an internal name: the object c in the namespace a-b and the object b-c in the
-- namespace a have the same internal name, whatever the texts a, b and c. The four kinds that are
-- kept as cloud configs never share an internal name with each other.
pub internal_name_scope :
    (az : Az) (x : Extension) (n : Network) (k : Compilation) (d : Deployment) (a b c : Str)
    → let ab = a ++ (str "-" ++ b) in
      let bc = b ++ (str "-" ++ c) in
      ((ApiAz.internal_name (placed az ab c) ≡ ApiAz.internal_name (placed az a bc))
        × (ApiExtension.internal_name (placed x ab c) ≡ ApiExtension.internal_name (placed x a bc))
        × (ApiNetwork.internal_name (placed n ab c) ≡ ApiNetwork.internal_name (placed n a bc))
        × (ApiCompilation.internal_name (placed k ab c)
            ≡ ApiCompilation.internal_name (placed k a bc))
        × (ApiDeployment.internal_name (placed d ab c)
            ≡ ApiDeployment.internal_name (placed d a bc)))
      × (ApiAz.internal_name az ≢ ApiExtension.internal_name x)
      × (ApiAz.internal_name az ≢ ApiNetwork.internal_name n)
      × (ApiAz.internal_name az ≢ ApiCompilation.internal_name k)
      × (ApiExtension.internal_name x ≢ ApiNetwork.internal_name n)
      × (ApiExtension.internal_name x ≢ ApiCompilation.internal_name k)
      × (ApiNetwork.internal_name n ≢ ApiCompilation.internal_name k)
internal_name_scope az x n k d a b c =
    let apart = kinds_apart az x n k in
    (same_kind_collides az x n k d a b c, apart.0, apart.1, apart.2, apart.3, apart.4, apart.5)

-- Two teams with one UAA client name have the same name and the same namespace, if names and
-- namespaces are bytes and names have no slash.
pub client_name_injective :
    (t t' : Team)
    → Bytes (name t)
    → Bytes (namespace t)
    → Bytes (name t')
    → Bytes (namespace t')
    → Without b'/' (name t)
    → Without b'/' (name t')
    → ApiTeam.client_name t ≡ ApiTeam.client_name t'
    → (name t ≡ name t') × (namespace t ≡ namespace t')
unfolding ApiTeam.client_name
client_name_injective t t' hn hs hn' hs' w w' e =
    standard_name_injective (name t) (namespace t) (name t') (namespace t') hn hs hn' hs' w w' e
