-- ===== src/Remote/BoshClient/Deployments.antt =====
-- The deployments of BOSH by name, with their manifests, as `boshClientImpl` writes them.
use boshv.Base.{
  Bool, false, ap, ◌≡◌, refl, ◌∙◌, Option, none, some, Str, Result, ok, err, lift, ◌>>=◌,
}
use boshv.Base.Outcome.{Ensures, after_bind, weaken}
use boshv.Remote.Config
use boshv.Remote.BoshClient.{DirectorApi, DeploymentHandle, bosh_client_impl}
use boshv.Remote.BoshClient.CloudConfigs.{Same, Becomes, write}

module _ {W E V : Type 0} (api : DirectorApi W E) (deployments : W → Str → Option Str)
    (rest : W → V) where
  -- A handle of the director's library: an update that returns leaves the deployment with that
  -- manifest, and a deletion that returns leaves none; a failed update leaves alone what is stored
  -- outside of BOSH, a failed deletion everything.
  pub record Handles (name : Str) (d : DeploymentHandle W E) : Type 0 where
    pub updates :
        (bytes : Str) (w : W)
        → Ensures
            (λ _. Becomes api deployments rest w name (some bytes))
            (λ w'. rest w' ≡ rest w)
            (d.update bytes w)
    pub deletes :
        (force : Bool) (w : W)
        → Ensures
            (λ _. Becomes api deployments rest w name none)
            (Same api deployments rest w)
            (d.delete force w)

  abbrev pub KeepsDeployments : Type 0
  KeepsDeployments =
      (name : Str) (w : W)
      → Ensures (λ d w'. Handles name d × Same api deployments rest w w')
          (Same api deployments rest w) (api.find_deployment name w)

  module _ (law : KeepsDeployments) where
    -- The named deployment has the encoded manifest.
    abbrev pub Deployed : W → Str → W → Type 0
    Deployed w name w' = (bytes : Str) × Becomes api deployments rest w name (some bytes) w'

    pub created :
        (name : Str) (manifest : Config.Deployment) (w : W)
        → Ensures
            (λ _. Deployed w name)
            (λ w'. rest w' ≡ rest w)
            ((bosh_client_impl api).create_deployment name manifest w)
    unfolding bosh_client_impl
    created name manifest w = go (api.marshal_deployment manifest)
      where
        go :
            (r : Result E Str)
            → Ensures
                (λ _. Deployed w name)
                (λ w'. rest w' ≡ rest w)
                ((lift r >>= λ bytes. api.find_deployment name >>= λ d. d.update bytes) w)
        go (err e) = refl
        go (ok bytes) =
            after_bind (λ d w'. Handles name d × Same api deployments rest w w')
              (λ _. Deployed w name) (Same api deployments rest w) (λ w'. rest w' ≡ rest w)
              (api.find_deployment name) (λ d. d.update bytes) w (law name w) (λ w' s. s.1)
              λ d w1 s.
                weaken _ (λ _. Deployed w name) _ (λ w'. rest w' ≡ rest w) (d.update bytes w1)
                  (s.0.updates bytes w1)
                  (λ _ w' u.
                    (bytes, (u.0 ∙ ap (λ c. write c name (some bytes)) s.1.0, u.1 ∙ s.1.1)))
                  (λ w' u. u ∙ s.1.1)

    pub removed :
        (name : Str) (w : W)
        → Ensures
            (λ _. Becomes api deployments rest w name none)
            (Same api deployments rest w)
            ((bosh_client_impl api).delete_deployment name w)
    unfolding bosh_client_impl
    removed name w =
        after_bind (λ d w'. Handles name d × Same api deployments rest w w')
          (λ _. Becomes api deployments rest w name none) (Same api deployments rest w)
          (Same api deployments rest w) (api.find_deployment name) (λ d. d.delete false) w
          (law name w) (λ w' s. s)
          λ d w1 s.
            weaken _ (λ _. Becomes api deployments rest w name none) _ (Same api deployments rest w)
              (d.delete false w1) (s.0.deletes false w1)
              (λ _ w' u. (u.0 ∙ ap (λ c. write c name none) s.1.0, u.1 ∙ s.1.1))
              (λ w' u. (u.0 ∙ s.1.0, u.1 ∙ s.1.1))
