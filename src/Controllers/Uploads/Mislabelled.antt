-- ===== src/Controllers/Uploads/Mislabelled.antt =====
-- An upload whose file has another name or version than the spec says: `CreateUnlessExists` and
-- `DeleteIfExists` of api/v1/release_types.go and api/v1/base_image_types.go go by the spec alone.
use boshv.Base.{
  Bool, true, false, not, ◌≡◌, ◌≢◌, ap, refl, ◌∙◌, Str, if◌then◌else◌, Io, pure, ◌>>=◌, arith,
}
use boshv.Base.Outcome.{Ensures, after_bind, weaken, always}
use boshv.Api.Types.{Release, BaseImage, set_status}
use boshv.Api.Release as ApiRelease
use boshv.Api.BaseImage as ApiBaseImage
use boshv.Remote.BoshClient.{DirectorApi, Deletable, bosh_client_impl}
use boshv.Remote.BoshClient.Uploads.{KeepsUploads, Same, Becomes, assign, assign_lem}

assign_other :
    (present : Str → Str → Bool) (x : Str × Str) (name version : Str) (b : Bool)
    → x ≢ (name, version)
    → assign present x.0 x.1 b name version ≡ present name version
assign_other present (n, v) name version b other =
    ground (arith, λ (p : n ≡ name) (q : v ≡ version). other (λ i. (p i, q i)))

module _ {W E V : Type 0} (present : W → Str → Str → Bool) (rest : W → V)
    (contents : Str → Str × Str) (has : Str → Str → Io W E Bool)
    (upload : Str → Str → Io W E (Unit {0})) (find : Str → Str → Io W E (Deletable W E))
    (law : KeepsUploads present rest contents has upload find) where
  -- The file is there under its own name and version, and not under those that are asked for.
  abbrev pub Misplaced : Str → Str → Str → W → Type 0
  Misplaced name version url w =
      (present w name version ≡ false) × (present w (contents url).0 (contents url).1 ≡ true)

  pub uploaded_elsewhere :
      {A : Type 0} (name version url sha1 : Str) (a : A) (w : W)
      → contents url ≢ (name, version)
      → present w name version ≡ false
      → Ensures
          (λ a' w'. (a' ≡ a) × Misplaced name version url w')
          (λ _. Unit {0})
          ((has name version >>= λ b. (if not b then upload url sha1 else pure tt) >>= λ _. pure a)
            w)
  uploaded_elsewhere {A} name version url sha1 a w other missing =
      after_bind (λ b w'. (b ≡ present w name version) × Same present rest w w') Done
        (Same present rest w) (λ _. Unit {0}) (has name version)
        (λ b. (if not b then upload url sha1 else pure tt) >>= λ _. pure a) w
        (law.tells name version w) (λ _ _. tt) λ b w1 s. go b w1 (s.0 ∙ missing) s.1
    where
      Done : A → W → Type 0
      Done a' w' = (a' ≡ a) × Misplaced name version url w'

      go :
          (b : Bool) (w1 : W)
          → b ≡ false
          → Same present rest w w1
          → Ensures Done
              (λ _. Unit {0})
              (((if not b then upload url sha1 else pure tt) >>= λ _. pure a) w1)
      go true w1 h s = cc
      go false w1 h s =
          after_bind (λ _. Becomes present rest w1 (contents url).0 (contents url).1 true) Done
            (λ w'. rest w' ≡ rest w1) (λ _. Unit {0}) (upload url sha1) (λ _. pure a) w1
            (law.uploads url sha1 w1) (λ _ _. tt)
            λ _ w2 u. (
              refl,
              (
                ap (λ p. p name version) u.0
                    ∙ assign_other (present w1) (contents url) name version true other
                    ∙ ap (λ p. p name version) s.0
                    ∙ missing,
                ap (λ p. p (contents url).0 (contents url).1) u.0
                    ∙ assign_lem (present w1) (contents url).0 (contents url).1 true,
              ),
            )

  pub missing_deleted :
      (name version : Str) (w : W)
      → present w name version ≡ false
      → Ensures
          (λ _. Same present rest w)
          (Same present rest w)
          ((has name version >>= λ b.
              if b then (find name version >>= λ d. d.delete false) else pure tt)
            w)
  missing_deleted name version w missing =
      after_bind (λ b w'. (b ≡ present w name version) × Same present rest w w')
        (λ _. Same present rest w) (Same present rest w) (Same present rest w) (has name version)
        (λ b. if b then (find name version >>= λ d. d.delete false) else pure tt) w
        (law.tells name version w) (λ w' s. s) λ b w1 s. go b w1 (s.0 ∙ missing) s.1
    where
      go :
          (b : Bool) (w1 : W)
          → b ≡ false
          → Same present rest w w1
          → Ensures
              (λ _. Same present rest w)
              (Same present rest w)
              ((if b then (find name version >>= λ d. d.delete false) else pure tt) w1)
      go true w1 h s = cc
      go false w1 h s = s

module _ {W E R B : Type 0} (api : DirectorApi W E) (releases stemcells : W → Str → Str → Bool)
    (rest_of_releases : W → R) (rest_of_stemcells : W → B) (contents : Str → Str × Str)
    (release_laws : KeepsUploads releases rest_of_releases contents api.has_release
      (λ url sha1. api.upload_release_url url sha1 false false)
      api.find_release)
    (stemcell_laws : KeepsUploads stemcells rest_of_stemcells contents api.has_stemcell
      (λ url sha1. api.upload_stemcell_url url sha1 false)
      api.find_stemcell) where
  -- If the calls are as `KeepsUploads` says, and the file at the URL of a release or a base image does
  -- not have the name and version of its original spec, which BOSH does not have: when creating it
  -- returns, its status says that it is available, BOSH has the file's name and version, and it still
  -- does not have those of the spec. While it does not have them, deleting the object leaves
  -- everything of its kind in BOSH that is there, whether it returns or fails.
  pub uploads_unchecked :
      (r : Release) (b : BaseImage) (w w' : W)
      → contents r.status.original_spec.url
        ≢ (r.status.original_spec.release_name, r.status.original_spec.version)
      → contents b.status.original_spec.url
        ≢ (b.status.original_spec.base_image_name, b.status.original_spec.version)
      → releases w r.status.original_spec.release_name r.status.original_spec.version ≡ false
      → stemcells w b.status.original_spec.base_image_name b.status.original_spec.version ≡ false
      → releases w' r.status.original_spec.release_name r.status.original_spec.version ≡ false
      → stemcells w' b.status.original_spec.base_image_name b.status.original_spec.version ≡ false
      → let r_spec = r.status.original_spec in
        let b_spec = b.status.original_spec in
        Ensures
          (λ r' w1.
            (r'.status ≡ record r.status { available = true })
            × (releases w1 r_spec.release_name r_spec.version ≡ false)
            × (releases w1 (contents r_spec.url).0 (contents r_spec.url).1 ≡ true))
          (λ _. Unit)
          (ApiRelease.create_unless_exists (bosh_client_impl api) r w)
        × Ensures
            (λ b' w1.
              (b'.status ≡ record b.status { available = true })
              × (stemcells w1 b_spec.base_image_name b_spec.version ≡ false)
              × (stemcells w1 (contents b_spec.url).0 (contents b_spec.url).1 ≡ true))
            (λ _. Unit)
            (ApiBaseImage.create_unless_exists (bosh_client_impl api) b w)
        × (releases (ApiRelease.delete_if_exists (bosh_client_impl api) r w').1 ≡ releases w')
        × (stemcells (ApiBaseImage.delete_if_exists (bosh_client_impl api) b w').1 ≡ stemcells w')
  unfolding ApiRelease.create_unless_exists ApiRelease.delete_if_exists
      ApiBaseImage.create_unless_exists ApiBaseImage.delete_if_exists bosh_client_impl
  uploads_unchecked r b w w' r_other b_other r_missing b_missing r_gone b_gone = (
    weaken
        (λ a w1.
          (a ≡ set_status r (record r.status { available = true }))
          × Misplaced releases rest_of_releases contents _ _ _ release_laws _ _
              r.status.original_spec.url w1)
        _ (λ _. Unit) _ _
        (uploaded_elsewhere releases rest_of_releases contents _ _ _ release_laws _ _ _ _ _ w
          r_other r_missing)
        (λ a w1 u. (ap (λ a. a.status) u.0, u.1.0, u.1.1)) (λ _ u. u),
    weaken
        (λ a w1.
          (a ≡ set_status b (record b.status { available = true }))
          × Misplaced stemcells rest_of_stemcells contents _ _ _ stemcell_laws _ _
              b.status.original_spec.url w1)
        _ (λ _. Unit) _ _
        (uploaded_elsewhere stemcells rest_of_stemcells contents _ _ _ stemcell_laws _ _ _ _ _ w
          b_other b_missing)
        (λ a w1 u. (ap (λ a. a.status) u.0, u.1.0, u.1.1)) (λ _ u. u),
    always (λ _. Same releases rest_of_releases w') (Same releases rest_of_releases w')
        (λ w1. releases w1 ≡ releases w') _
        (missing_deleted releases rest_of_releases contents _ _ _ release_laws _ _ w' r_gone)
        (λ _ _ s. s.0) (λ _ s. s.0),
    always (λ _. Same stemcells rest_of_stemcells w') (Same stemcells rest_of_stemcells w')
        (λ w1. stemcells w1 ≡ stemcells w') _
        (missing_deleted stemcells rest_of_stemcells contents _ _ _ stemcell_laws _ _ w' b_gone)
        (λ _ _ s. s.0) (λ _ s. s.0),
  )
