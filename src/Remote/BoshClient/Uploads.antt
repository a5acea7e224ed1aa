-- ===== src/Remote/BoshClient/Uploads.antt =====
-- The releases and the stemcells of BOSH by name and version, as `boshClientImpl` uploads and deletes
-- them.
use boshv.Base.{
  Bool, true, false, not, ap, ◌≡◌, refl, sym, ◌∙◌, Str, ◌==◌, ◌&&◌, if◌then◌else◌, Io, pure, ◌>>=◌,
  arith,
}
use boshv.Base.Outcome.{Ensures, after_bind, weaken}
use boshv.Remote.BoshClient.{Deletable}

-- What is there, with one entry changed.
abbrev pub assign : (Str → Str → Bool) → Str → Str → Bool → Str → Str → Bool
assign present name version b n v = if n == name && v == version then b else present n v

pub assign_lem : (present : Str → Str → Bool) (n v : Str) (b : Bool) → assign present n v b n v ≡ b
assign_lem present n v b = ground arith

module _ {W V : Type 0} (present : W → Str → Str → Bool) (rest : W → V) where
  abbrev pub Same : W → W → Type 0
  Same w w' = (present w' ≡ present w) × (rest w' ≡ rest w)

  abbrev pub Becomes : W → Str → Str → Bool → W → Type 0
  Becomes w name version b w' =
      (present w' ≡ assign (present w) name version b) × (rest w' ≡ rest w)

-- `contents` tells which name and version the file at a URL has.
module _ {W E V : Type 0} (present : W → Str → Str → Bool) (rest : W → V)
    (contents : Str → Str × Str) where
  -- The library's calls: an upload that returns has added what the file contains, a deletion that
  -- returns has removed what was found; a failed upload leaves alone what is stored outside of BOSH,
  -- any other failure everything.
  pub record KeepsUploads (has : Str → Str → Io W E Bool) (upload : Str → Str → Io W E (Unit {0}))
      (find : Str → Str → Io W E (Deletable W E)) : Type 0 where
    pub tells :
        (name version : Str) (w : W)
        → Ensures
            (λ b w'. (b ≡ present w name version) × Same present rest w w')
            (Same present rest w)
            (has name version w)
    pub uploads :
        (url sha1 : Str) (w : W)
        → Ensures
            (λ _. Becomes present rest w (contents url).0 (contents url).1 true)
            (λ w'. rest w' ≡ rest w)
            (upload url sha1 w)
    pub finds :
        (name version : Str) (w : W)
        → Ensures
            (λ d w'.
              ((force : Bool) (w : W)
                → Ensures
                    (λ _. Becomes present rest w name version false)
                    (Same present rest w)
                    (d.delete force w))
              × Same present rest w w')
            (Same present rest w)
            (find name version w)

  module _ (has : Str → Str → Io W E Bool) (upload : Str → Str → Io W E (Unit {0}))
      (find : Str → Str → Io W E (Deletable W E)) (law : KeepsUploads has upload find) where
    -- Upload what is missing, and hand on a value.
    pub uploaded :
        {A : Type 0} (name version url sha1 : Str) (a : A) (w : W)
        → contents url ≡ (name, version)
        → Ensures
            (λ a' w'. (a' ≡ a) × (present w' name version ≡ true) × (rest w' ≡ rest w))
            (λ w'. rest w' ≡ rest w)
            ((has name version >>= λ b.
                (if not b then upload url sha1 else pure tt) >>= λ _. pure a)
              w)
    uploaded {A} name version url sha1 a w e =
        after_bind (λ b w'. (b ≡ present w name version) × Same present rest w w') Done
          (Same present rest w) (λ w'. rest w' ≡ rest w) (has name version)
          (λ b. (if not b then upload url sha1 else pure tt) >>= λ _. pure a) w
          (law.tells name version w) (λ w' s. s.1) λ b w1 s. go b w1 s.0 s.1
      where
        Done : A → W → Type 0
        Done a' w' = (a' ≡ a) × (present w' name version ≡ true) × (rest w' ≡ rest w)

        go :
            (b : Bool) (w1 : W)
            → b ≡ present w name version
            → Same present rest w w1
            → Ensures Done
                (λ w'. rest w' ≡ rest w)
                (((if not b then upload url sha1 else pure tt) >>= λ _. pure a) w1)
        go true w1 h s = (refl, ap (λ p. p name version) s.0 ∙ sym h, s.1)
        go false w1 h s =
            after_bind (λ _. Becomes present rest w1 (contents url).0 (contents url).1 true) Done
              (λ w'. rest w' ≡ rest w1) (λ w'. rest w' ≡ rest w) (upload url sha1) (λ _. pure a) w1
              (law.uploads url sha1 w1) (λ w' r. r ∙ s.1)
              λ _ w2 u. (
                refl,
                ap (λ p. p name version) u.0
                    ∙ ap (λ x. assign (present w1) x.0 x.1 true name version) e
                    ∙ assign_lem (present w1) name version true,
                u.1 ∙ s.1,
              )

    -- Delete what is there.
    pub deleted :
        (name version : Str) (w : W)
        → Ensures
            (λ _ w'. (present w' name version ≡ false) × (rest w' ≡ rest w))
            (Same present rest w)
            ((has name version >>= λ b.
                if b then (find name version >>= λ d. d.delete false) else pure tt)
              w)
    deleted name version w =
        after_bind (λ b w'. (b ≡ present w name version) × Same present rest w w') Done
          (Same present rest w) (Same present rest w) (has name version)
          (λ b. if b then (find name version >>= λ d. d.delete false) else pure tt) w
          (law.tells name version w) (λ w' s. s) λ b w1 s. go b w1 s.0 s.1
      where
        Done : Unit {0} → W → Type 0
        Done _ w' = (present w' name version ≡ false) × (rest w' ≡ rest w)

        go :
            (b : Bool) (w1 : W)
            → b ≡ present w name version
            → Same present rest w w1
            → Ensures Done
                (Same present rest w)
                ((if b then (find name version >>= λ d. d.delete false) else pure tt) w1)
        go false w1 h s = (ap (λ p. p name version) s.0 ∙ sym h, s.1)
        go true w1 h s =
            after_bind
              (λ d w'.
                ((force : Bool) (w : W)
                  → Ensures (λ _. Becomes present rest w name version false) (Same present rest w)
                      (d.delete force w))
                × Same present rest w1 w')
              Done (Same present rest w1) (Same present rest w) (find name version)
              (λ d. d.delete false) w1 (law.finds name version w1) (λ w' r. (r.0 ∙ s.0, r.1 ∙ s.1))
              λ d w2 k.
                weaken (λ _. Becomes present rest w2 name version false) Done (Same present rest w2)
                  (Same present rest w) (d.delete false w2) (k.0 false w2)
                  (λ _ w3 u. (
                    ap (λ p. p name version) u.0 ∙ assign_lem (present w2) name version false,
                    u.1 ∙ k.1.1 ∙ s.1,
                  ))
                  (λ w3 r. (r.0 ∙ k.1.0 ∙ s.0, r.1 ∙ k.1.1 ∙ s.1))
