-- ===== src/Api/Deployment/Manifest/References.antt =====
-- What the names in a deployment's spec become in the manifest of `resolveReferences` of
-- api/v1/deployment_types.go.
use boshv.Base.{
  Result, ok, err, ◌≡◌, refl, ap, List, [], ◌∷◌, map, Str, str, Io, pure, ◌>>=◌, for_each,
}
use boshv.Base.Outcome.{Ensures, after_bind}
use boshv.Api.Types.{Object, Deployment, name, namespace}
use boshv.Api.Az as ApiAz
use boshv.Api.Extension as ApiExtension
use boshv.Api.Network as ApiNetwork
use boshv.Api.Helpers.Names.{dashed}
use boshv.Api.Deployment.Manifest.{
  releases, stemcell, resolve_az, resolve_extension, instance_group, resolve_references,
}
use boshv.Api.Deployment.Manifest.Jobs.{internal_name, resolve_job}
use boshv.Api.Deployment.Manifest.Steps.{
  group, with_azs, with_jobs, with_extensions, manifest, with_stemcell, with_releases,
}
use boshv.Kube.{Kube, Store}
use boshv.Remote.Config

module _ {W E : Type 0} (kube : Kube W E) where
  abbrev pub Anything : W → Type 0
  Anything _ = Unit

  -- The API server answers with the object of the namespace and name that it is asked for.
  abbrev pub Answers : {S T : Type 0} → Store W E (Object S T) → Type 0
  Answers store =
      (ns nm : Str) (w : W)
      → Ensures (λ o _. (namespace o ≡ ns) × (name o ≡ nm)) Anything (store.get ns nm w)

  -- A call whose result, if it returns, is a given one.
  abbrev Gives : {A : Type 0} → Io W E A → A → Type 0
  Gives m a = (w : W) → Ensures (λ b _. b ≡ a) Anything (m w)

  for_each-Gives :
      {A B : Type 0} (f : A → Io W E B) (g : A → B)
      → ((x : A) → Gives (f x) (g x))
      → (xs : List A) → Gives (for_each f xs) (map g xs)
  unfolding for_each
  for_each-Gives f g h [] w = refl
  for_each-Gives f g h (x ∷ xs) w =
      after_bind (λ y _. y ≡ g x) (λ ys _. ys ≡ map g (x ∷ xs)) Anything Anything (f x)
        (λ y. for_each f xs >>= λ ys. pure (y ∷ ys)) w (h x w) (λ w' u. u)
        λ y w1 e.
          after_bind (λ ys _. ys ≡ map g xs) (λ ys _. ys ≡ map g (x ∷ xs)) Anything Anything
            (for_each f xs) (λ ys. pure (y ∷ ys)) w1 (for_each-Gives f g h xs w1) (λ w' u. u)
            λ ys w2 k. cc (e, k)

  -- After any call, whatever it gives.
  pub after_any :
      {A B : Type 0} (P : B → W → Type 0) (m : Io W E A) (f : A → Io W E B) (w : W)
      → ((a : A) (w' : W) → Ensures P Anything (f a w'))
      → Ensures P Anything ((m >>= f) w)
  after_any {A} {B} P m f w h =
      after_bind (λ _ _. Unit {0}) P Anything Anything m f w (trivial (m w)) (λ w' u. u)
        (λ a w' _. h a w')
    where
      trivial : (r : Result E A × W) → Ensures {A = A} (λ _ _. Unit {0}) Anything r
      trivial (ok _, w') = tt
      trivial (err _, w') = tt

  module _ (azs : Answers kube.azs) (extensions : Answers kube.extensions)
      (networks : Answers kube.networks) (d : Deployment) where
    resolve_az-Gives : (a : Str) → Gives (resolve_az kube d a) (dashed (str "az") (namespace d) a)
    unfolding resolve_az ApiAz.internal_name
    resolve_az-Gives a w =
        after_bind (λ o _. (namespace o ≡ namespace d) × (name o ≡ a))
          (λ b _. b ≡ dashed (str "az") (namespace d) a) Anything Anything
          (kube.azs.get (namespace d) a) (λ az. pure (ApiAz.internal_name az)) w
          (azs (namespace d) a w) (λ w' u. u) (λ o w' m. cc (m.0, m.1))

    resolve_extension-Gives :
        (x : Str) → Gives (resolve_extension kube d x) (dashed (str "extension") (namespace d) x)
    unfolding resolve_extension ApiExtension.internal_name
    resolve_extension-Gives x w =
        after_bind (λ o _. (namespace o ≡ namespace d) × (name o ≡ x))
          (λ b _. b ≡ dashed (str "extension") (namespace d) x) Anything Anything
          (kube.extensions.get (namespace d) x) (λ o. pure (ApiExtension.internal_name o)) w
          (extensions (namespace d) x w) (λ w' u. u) (λ o w' m. cc (m.0, m.1))

    -- The instance group refers to the cloud configs of the AZs, the extensions and the network.
    abbrev Refers : Config.InstanceGroup → Type 0
    Refers ig =
        (ig.azs ≡ map (dashed (str "az") (namespace d)) d.spec.azs)
        × (ig.vm_extensions ≡ map (dashed (str "extension") (namespace d)) d.spec.extensions)
        × (ig.networks ≡ record { name = dashed (str "network") (namespace d) d.spec.network } ∷ [])

    instance_group-Refers : (w : W) → Ensures (λ ig _. Refers ig) Anything (instance_group kube d w)
    unfolding instance_group ApiNetwork.internal_name
    instance_group-Refers w =
        after_bind (λ xs _. xs ≡ map (dashed (str "az") (namespace d)) d.spec.azs)
          (λ ig _. Refers ig) Anything Anything (for_each (resolve_az kube d) d.spec.azs)
          (with_azs kube d) w
          (for_each-Gives (resolve_az kube d) (dashed (str "az") (namespace d)) resolve_az-Gives
            d.spec.azs w)
          (λ w' u. u)
          λ azs w1 ea.
            after_any (λ ig _. Refers ig) (for_each (resolve_job kube d) d.spec.containers)
              (with_jobs kube d azs) w1
              λ jobs w2.
                after_bind
                  (λ xs _. xs ≡ map (dashed (str "extension") (namespace d)) d.spec.extensions)
                  (λ ig _. Refers ig) Anything Anything
                  (for_each (resolve_extension kube d) d.spec.extensions)
                  (with_extensions kube d azs jobs) w2
                  (for_each-Gives (resolve_extension kube d)
                    (dashed (str "extension") (namespace d)) resolve_extension-Gives
                    d.spec.extensions w2)
                  (λ w' u. u)
                  λ xs w3 ex.
                    after_bind (λ o _. (namespace o ≡ namespace d) × (name o ≡ d.spec.network))
                      (λ ig _. Refers ig) Anything Anything
                      (kube.networks.get (namespace d) d.spec.network)
                      (λ n. pure (group d azs jobs xs (ApiNetwork.internal_name n))) w3
                      (networks (namespace d) d.spec.network w3) (λ w' u. u)
                      (λ n w4 m. (ea, ex, ap (λ x. record { name = x } ∷ []) (cc (m.0, m.1))))

    -- If the API server `Answers` for AZs, extensions and networks: a manifest that a deployment
    -- resolves to has the deployment's name and one instance group, which refers, in the order of the
    -- spec, to its AZs and extensions and to its network by the names under which the cloud configs of
    -- these objects of the deployment's namespace are kept.
    pub manifest_refers :
        (range_releases : List Config.Release → List Config.Release) (w : W)
        → Ensures
            (λ m _.
              (m.name ≡ internal_name d)
              × (ig : Config.InstanceGroup) × (m.instance_groups ≡ ig ∷ [])
              × (ig.azs ≡ map (dashed (str "az") (namespace d)) d.spec.azs)
              × (ig.vm_extensions ≡ map (dashed (str "extension") (namespace d)) d.spec.extensions)
              × (ig.networks
                  ≡ record { name = dashed (str "network") (namespace d) d.spec.network } ∷ []))
            (λ _. Unit)
            (resolve_references kube range_releases d w)
    unfolding resolve_references
    manifest_refers range_releases w =
        after_any Resolved (releases kube range_releases d) (with_releases kube d) w λ rs w1.
          after_any Resolved (stemcell kube d) (with_stemcell kube d rs) w1 λ s w2.
            after_bind (λ ig _. Refers ig) Resolved Anything Anything (instance_group kube d)
              (λ ig. pure (manifest d rs s ig)) w2 (instance_group-Refers w2) (λ w' u. u)
              (λ ig w3 r. (refl, ig, refl, r.0, r.1, r.2))
      where
        Resolved : Config.Deployment → W → Type 0
        Resolved m _ =
            (m.name ≡ internal_name d)
            × (ig : Config.InstanceGroup) × (m.instance_groups ≡ ig ∷ [])
            × (ig.azs ≡ map (dashed (str "az") (namespace d)) d.spec.azs)
            × (ig.vm_extensions ≡ map (dashed (str "extension") (namespace d)) d.spec.extensions)
            × (ig.networks
                ≡ record { name = dashed (str "network") (namespace d) d.spec.network } ∷ [])
