-- ===== src/Controllers/Uaa/Credentials.antt =====
-- The two places in which `reconcileWithUAA` of controllers/team_controller.go leaves a secret: the
-- secret in Kubernetes, by which BOSH clients log in, and the client in UAA, which checks it.
use boshv.Controllers.Uaa.Places.{Places, or_fresh, Faithful}
use boshv.Base.{
  ℕ, Bool, true, false, ◌≡◌, ◌≢◌, refl, sym, ap, subst, ◌∙◌, ◌⊎◌, inr, Option, none, some, Str, map,
  if◌then◌else◌, Result, ok, err, Io, pure, filtered, return_error, ◌>>=◌, arith,
}
use boshv.Base.Outcome.{Ensures, after_bind, after_return}
use boshv.Kube.{Store, SecretStore, Errors, Secret}
use boshv.Remote.UaaClient.{UaaClient}
use boshv.Controllers.Platform.{ignore_already_exists}
use boshv.Controllers.Secrets.{generate_secret, secret_char}
use boshv.Controllers.Bosh.{save_if}
use boshv.Controllers.Uaa.{UaaEntity, apply_to_uaa, reconcile_with_uaa}

some_injective : {a b : Str} → ◌≡◌ {A = Option Str} (some a) (some b) → a ≡ b
some_injective e = cc

module _ {W E K : Type 0} (errors : Errors E) (secrets : SecretStore W E)
    (rand_read : ℕ → Io W E Str) (ent : UaaEntity W E K) (store : Store W E K) (uc : UaaClient W E)
    (v : Places W) (Mine : K → Type 0) (Fresh : Str → Type 0)
    (law : Faithful errors secrets rand_read ent store uc v Mine Fresh) where
  abbrev Same : W → W → Type 0
  Same w w' = (v.kept w' ≡ v.kept w) × (v.checked w' ≡ v.checked w)

  -- One fresh secret goes where none was, and to both places if both had none.
  Filled : W → W → Type 0
  Filled w w' =
      (fresh : Str) × Fresh fresh
      × (v.kept w' ≡ or_fresh (v.kept w) fresh)
      × (v.checked w' ≡ or_fresh (v.checked w) fresh)

  -- A failure never replaces a secret that is kept.
  Kept : W → W → Type 0
  Kept w w' = (v.kept w ≡ none) ⊎ (v.kept w' ≡ v.kept w)

  keep_secret :
      (o : K) (data_text : Str) (w : W)
      → Mine o
      → Ensures
          (λ _ w'. (v.kept w' ≡ or_fresh (v.kept w) data_text) × (v.checked w' ≡ v.checked w))
          (Same w)
          (filtered
            (ignore_already_exists errors)
            (secrets.create (record {
              name = ent.secret_name o;
              namespace = ent.secret_namespace o;
              secret = data_text;
            }))
            w)
  unfolding ignore_already_exists
  keep_secret o data_text w m =
      go (secrets.create s w) (law.creates_secret o data_text w m)
        (λ e. law.refuses_secret o data_text w e m)
    where
      s : Secret
      s = record {
        name = ent.secret_name o;
        namespace = ent.secret_namespace o;
        secret = data_text;
      }

      refused :
          (e : E) (w' : W) (b : Bool)
          → errors.is_already_exists e ≡ b
          → Same w w'
          → (errors.is_already_exists e ≡ true → v.kept w ≢ none)
          → Ensures {E = E} {A = Unit {0}}
              (λ _ w'. (v.kept w' ≡ or_fresh (v.kept w) data_text) × (v.checked w' ≡ v.checked w))
              (Same w)
              (return_error {W = W} (if b then none else some e) w')
      refused e w' true h same k = ground (arith, k h)
      refused e w' false h same k = same

      go :
          (r : Result E Secret × W)
          → Ensures
              (λ _ w'.
                (v.kept w ≡ none) × (v.kept w' ≡ some data_text) × (v.checked w' ≡ v.checked w))
              (Same w)
              r
          → ((e : E) → r.0 ≡ err e → errors.is_already_exists e ≡ true → v.kept w ≢ none)
          → Ensures {E = E} {A = Unit {0}}
              (λ _ w'. (v.kept w' ≡ or_fresh (v.kept w) data_text) × (v.checked w' ≡ v.checked w))
              (Same w)
              (elim (r.0) [
                | ok _ ↦ (ok tt, r.1)
                | err e ↦ return_error (if errors.is_already_exists e then none else some e) r.1
              ])
      go (ok s', w') u k = ground arith
      go (err e, w') u k = refused e w' (errors.is_already_exists e) refl u (k e refl)

  report :
      (o : K) (w0 w : W)
      → Mine o
      → Filled w0 w
      → Ensures (λ _. Filled w0) (Kept w0) ((store.update_status o >>= λ _. pure tt) w)
  unfolding Filled Kept
  report o w0 w m h =
      after_bind _ (λ _. Filled w0) _ (Kept w0) (store.update_status o) (λ _. pure tt) w
        (law.updates_status o w m) (λ w' s. ground arith)
        (λ _ w' s. (h.0, h.1, s.0 ∙ h.2, s.1 ∙ h.3))

  create :
      (o : K) (data_text : Str) (w0 w : W)
      → Mine o
      → Fresh data_text
      → Same w0 w
      → Ensures
          (λ _. Filled w0)
          (Kept w0)
          ((filtered (ignore_already_exists errors) (
                secrets.create (record {
                  name = ent.secret_name o;
                  namespace = ent.secret_namespace o;
                  secret = data_text;
                }))
              >>= λ _. ent.create_unless_exists uc o data_text >>= λ created.
                  store.update_status created >>= λ _. pure tt)
            w)
  unfolding Filled Kept
  create o data_text w0 w m fresh same =
      after_bind
        (λ _ w'. (v.kept w' ≡ or_fresh (v.kept w) data_text) × (v.checked w' ≡ v.checked w))
        (λ _. Filled w0) (Same w) (Kept w0)
        (filtered (ignore_already_exists errors) (
          secrets.create (record {
            name = ent.secret_name o;
            namespace = ent.secret_namespace o;
            secret = data_text;
          })))
        _ w (keep_secret o data_text w m) (λ w' s. inr (s.0 ∙ same.0))
        λ _ w1 k.
          after_bind _ (λ _. Filled w0) _ (Kept w0) (ent.create_unless_exists uc o data_text) _ w1
            (law.creates_client o data_text w1 m) (λ w' s. ground arith)
            λ created w2 c. report created w0 w2 c.0 (
              data_text,
              fresh,
              c.1 ∙ k.0 ∙ ap (λ x. or_fresh x data_text) same.0,
              c.2 ∙ ap (λ x. or_fresh x data_text) (k.1 ∙ same.1),
            )

  apply_lem :
      (o : K) (w : W)
      → Mine o
      → Ensures (λ _. Filled w) (Kept w) (apply_to_uaa errors secrets rand_read ent store uc o w)
  unfolding apply_to_uaa Kept generate_secret
  apply_lem o w m =
      after_bind (λ o' w'. Mine o' × Same w w') (λ _. Filled w) (Same w) (Kept w)
        (save_if store.update (ent.ensure_finalizer o)) _ w
        (save (ent.ensure_finalizer o).0 (ent.ensure_finalizer o).1 (law.ensures o m))
        (λ w' s. inr s.0)
        λ o' w1 u.
          after_bind (λ s w'. Fresh s × Same w1 w') (λ _. Filled w) (Same w1) (Kept w)
            (generate_secret rand_read) _ w1
            (after_bind _ (λ s w'. Fresh s × Same w1 w') _ (Same w1) (rand_read 20)
              (λ bytes. pure (map secret_char bytes)) w1 (law.randoms w1) (λ w' s. s) (λ _ w' s. s))
            (λ w' s. inr (s.0 ∙ u.1.0))
            λ fresh w2 f. create o' fresh w w2 u.0 f.0 (f.1.0 ∙ u.1.0, f.1.1 ∙ u.1.1)
    where
      save :
          (b : Bool) (o : K)
          → Mine o
          → Ensures (λ o' w'. Mine o' × Same w w') (Same w) (save_if store.update (b, o) w)
      save true o m = law.updates o w m
      save false o m = (m, (refl, refl))

  -- When reconciling an entity that is not being deleted returns, one secret, fresh from the random
  -- source, was put into each of the two places that had none; a place that had a secret keeps it.
  pub reconcile-Filled :
      (ue : K) (w : W)
      → Mine ue
      → ent.being_deleted ue ≡ false
      → (reconcile_with_uaa errors secrets rand_read ent store uc ue w).0 ≡ ok tt
      → let w' = (reconcile_with_uaa errors secrets rand_read ent store uc ue w).1 in
        (fresh : Str) × Fresh fresh
        × (v.kept w' ≡ or_fresh (v.kept w) fresh)
        × (v.checked w' ≡ or_fresh (v.checked w) fresh)
  unfolding reconcile_with_uaa Filled
  reconcile-Filled ue w m live =
      rw (live, reconcile_with_uaa) (after_return (λ _. Filled w) (Kept w) _ (apply_lem ue w m))

  -- If the calls are `Faithful`: an entity that is not being deleted and has neither a secret nor a
  -- client gets both with the same secret, if reconciling it returns.
  pub first_credentials :
      (ue : K) (w : W)
      → Mine ue
      → ent.being_deleted ue ≡ false
      → v.kept w ≡ none
      → v.checked w ≡ none
      → (reconcile_with_uaa errors secrets rand_read ent store uc ue w).0 ≡ ok tt
      → let w' = (reconcile_with_uaa errors secrets rand_read ent store uc ue w).1 in
        (s : Str) × Fresh s × (v.kept w' ≡ some s) × (v.checked w' ≡ some s)
  first_credentials ue w m live h k e =
      let (s, f, p, q) = reconcile-Filled ue w m live e in
      (s, f, p ∙ ap (λ x. or_fresh x s) h, q ∙ ap (λ x. or_fresh x s) k)

  -- If the calls are `Faithful` and reconciling returns: an entity that is not being deleted, whose
  -- secret is there and whose client is missing, as after a reconciliation that failed between the two,
  -- gets a client with another secret than the one that is kept, whenever the random source gives
  -- another: nobody can log in with the kept one.
  pub stale_secret_locks_out :
      (ue : K) (w : W) (old : Str)
      → Mine ue
      → ent.being_deleted ue ≡ false
      → v.kept w ≡ some old
      → v.checked w ≡ none
      → ¬ Fresh old
      → (reconcile_with_uaa errors secrets rand_read ent store uc ue w).0 ≡ ok tt
      → let w' = (reconcile_with_uaa errors secrets rand_read ent store uc ue w).1 in
        (v.kept w' ≡ some old) × (v.checked w' ≢ none) × (v.checked w' ≢ v.kept w')
  stale_secret_locks_out ue w old m live h k stale e =
      let (s, f, p, q) = reconcile-Filled ue w m live e in
      let kept = p ∙ ap (λ x. or_fresh x s) h in
      let checked = q ∙ ap (λ x. or_fresh x s) k in
      (
        kept,
        ground arith,
        λ same. stale (subst Fresh (some_injective (sym checked ∙ same ∙ kept)) f),
      )
