-- ===== src/Remote/BoshClient/CloudConfigs.antt =====
-- The cloud configs of BOSH by name, as `boshClientImpl` writes them.
use boshv.Base.{
  ◌≡◌, refl, ◌∙◌, Option, none, some, [], ◌∷◌, Str, str, ◌==◌, if◌then◌else◌, Result, ok, err,
  arith, lift, ◌>>=◌, pure,
}
use boshv.Base.Outcome.{Ensures, after_bind, weaken}
use boshv.Remote.Config
use boshv.Remote.Config.{CloudConfig}
use boshv.Remote.BoshClient.{
  DirectorApi, empty_config, update_cloud_config, delete_cloud_config, bosh_client_impl,
}

-- A store of configs with one entry changed.
abbrev pub write : (Str → Option Str) → Str → Option Str → Str → Option Str
write configs name entry k = if k == name then entry else configs k

module _ {W E V : Type 0} (api : DirectorApi W E) (configs : W → Str → Option Str)
    (rest : W → V) where
  abbrev pub Same : W → W → Type 0
  Same w w' = (configs w' ≡ configs w) × (rest w' ≡ rest w)

  abbrev pub Becomes : W → Str → Option Str → W → Type 0
  Becomes w name entry w' = (configs w' ≡ write (configs w) name entry) × (rest w' ≡ rest w)

  -- What the library's calls do to the configs of type "cloud" and to anything else that is watched.
  pub record KeepsConfigs : Type 0 where
    pub diffs :
        (name bytes : Str) (w : W)
        → Ensures (λ _. Same w) (Same w) (api.diff_config (str "cloud") name bytes w)
    pub updates :
        (name from_id bytes : Str) (w : W)
        → Ensures
            (λ _. Becomes w name (some bytes))
            (Same w)
            (api.update_config (str "cloud") name from_id bytes w)
    pub deletes :
        (name : Str) (w : W)
        → Ensures (λ _. Becomes w name none) (Same w) (api.delete_config (str "cloud") name w)

  -- The named config is the encoded one.
  abbrev pub Holds : W → Str → CloudConfig → W → Type 0
  Holds w name config w' =
      (bytes : Str) × (api.marshal_cloud_config config ≡ ok bytes) × Becomes w name (some bytes) w'

  module _ (law : KeepsConfigs) where
    pub updated :
        (name : Str) (config : CloudConfig) (w : W)
        → Ensures (λ _. Holds w name config) (Same w) (update_cloud_config api name config w)
    unfolding update_cloud_config
    updated name config w = go (api.marshal_cloud_config config) refl
      where
        go :
            (r : Result E Str)
            → api.marshal_cloud_config config ≡ r
            → Ensures
                (λ _. Holds w name config)
                (Same w)
                ((lift r >>= λ bytes. api.diff_config (str "cloud") name bytes >>= λ from_id.
                    api.update_config (str "cloud") name from_id bytes)
                  w)
        go (err e) h = (refl, refl)
        go (ok bytes) h =
            after_bind (λ _. Same w) (λ _. Holds w name config) (Same w) (Same w)
              (api.diff_config (str "cloud") name bytes) _ w (law.diffs name bytes w) (λ w' s. s)
              λ from_id w1 s.
                weaken _ _ _ _ (api.update_config (str "cloud") name from_id bytes w1)
                  (law.updates name from_id bytes w1)
                  (λ _ w' u. (bytes, h, (ground (arith, s.0, u.0), u.1 ∙ s.1)))
                  (λ w' u. (u.0 ∙ s.0, u.1 ∙ s.1))

    pub deleted :
        (name : Str) (w : W)
        → Ensures (λ _. Becomes w name none) (Same w) (delete_cloud_config api name w)
    unfolding delete_cloud_config
    deleted name w =
        after_bind (λ _. Becomes w name none) (λ _. Becomes w name none) (Same w) (Same w)
          (api.delete_config (str "cloud") name) (λ _. pure tt) w (law.deletes name w) (λ w' s. s)
          (λ _ w' u. u)

    -- By `KeepsConfigs`: creating an AZ, a VM extension, a network or a compilation under a name leaves
    -- the config of that name as the encoding of just that resource, deleting it leaves no config of
    -- that name; all other configs stay, and a call that fails changes none.
    pub client_configs :
        (name : Str) (az : Config.Az) (x : Config.VmExtension) (n : Config.Network)
        (k : Config.Compilation) (w : W)
        → let bc = bosh_client_impl api in
          Ensures
            (λ _. Holds w name (record empty_config { azs = az ∷ [] }))
            (Same w)
            (bc.create_az name az w)
          × Ensures
              (λ _. Holds w name (record empty_config { vm_extensions = x ∷ [] }))
              (Same w)
              (bc.create_vm_extension name x w)
          × Ensures
              (λ _. Holds w name (record empty_config { networks = n ∷ [] }))
              (Same w)
              (bc.create_network name n w)
          × Ensures
              (λ _.
                Holds w name
                  (record empty_config { networks = n ∷ []; azs = az ∷ []; compilation = some k }))
              (Same w)
              (bc.create_compilation name n az k w)
          × Ensures (λ _. Becomes w name none) (Same w) (bc.delete_az name w)
          × Ensures (λ _. Becomes w name none) (Same w) (bc.delete_vm_extension name w)
          × Ensures (λ _. Becomes w name none) (Same w) (bc.delete_network name w)
          × Ensures (λ _. Becomes w name none) (Same w) (bc.delete_compilation name w)
    unfolding bosh_client_impl
    client_configs name az x n k w = (
      updated name _ w,
      updated name _ w,
      updated name _ w,
      updated name _ w,
      deleted name w,
      deleted name w,
      deleted name w,
      deleted name w,
    )
