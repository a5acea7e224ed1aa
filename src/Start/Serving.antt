-- ===== src/Start/Serving.antt =====
-- The manager of main.go once its controllers are registered.
use boshv.Base.{
  Bool, true, false, ◌≡◌, ap, sym, subst, ◌∙◌, ok, err, Result, List, [], ◌∷◌, ◌++◌, Str, str, Io,
  ◌>>=◌, arith,
}
use boshv.Base.Outcome.{Ensures, after_bind, weaken}
use boshv.Api.Registration.{
  Kind, az, extension, network, compilation, release, base_image, deployment, team, director,
  GoType, object, SchemeLibrary, KeepsTypes, add_to_scheme-Knows,
}
use boshv.Kube.{Kube}
use boshv.Controllers.Platform.{Platform, Request}
use boshv.Controllers.Reconcilers.{
  reconcile_az, reconcile_extension, reconcile_network, reconcile_release, reconcile_base_image,
  reconcile_deployment, reconcile_compilation, reconcile_team, reconcile_director,
}
use boshv.Controllers.Setup.{
  Manager, setup_az, setup_extension, setup_network, setup_release, setup_base_image,
  setup_deployment, setup_compilation, setup_team, setup_director,
}
use boshv.Start.{
  Exit, Flags, Options, StartLibrary, or_exit, init_scheme, default_flags, set_up_controllers, main,
}

-- What a process has of its manager: its client, its controllers in the order in which they were added,
-- and whether the manager has served requests. A controller is seen
-- through what `entry` tells of its kind and its reconciler.
pub record View (W E : Type 0) : Type 1 where
  pub Entry : Type 0
  pub entry : Kind → (Request → Io W E (Unit {0})) → Entry
  pub client : W → Kube W E
  pub controllers : W → List Entry
  pub served : W → Bool

module _ {W E : Type 0} (schemes : SchemeLibrary) (lib : StartLibrary W E schemes.Scheme)
    (outside : Platform W E) (knows : schemes.Scheme → GoType → Bool) (v : View W E) where
  abbrev pub Same : W → W → Type 0
  Same w w' = (v.controllers w' ≡ v.controllers w) × (v.served w' ≡ v.served w)

  -- A manager takes a controller only for a kind that its scheme knows, and its client stays the same.
  -- `Start` serves until the process is told to stop, and then returns; when it fails, the manager may
  -- have served or not. It changes no controller.
  pub record Manages (scheme : schemes.Scheme) (mgr : Manager W E) : Type 0 where
    pub completes :
        (k : Kind) (r : Request → Io W E (Unit {0})) (w : W)
        → knows scheme (object k) ≡ true
        → Ensures
            (λ _ w'.
              (v.controllers w' ≡ v.controllers w ++ (v.entry k r ∷ []))
              × (v.served w' ≡ v.served w)
              × (v.client w' ≡ v.client w))
            (Same w)
            (mgr.complete k r w)
    pub starts :
        (w : W)
        → Ensures
            (λ _ w'.
              (v.controllers w' ≡ v.controllers w)
              × (v.served w' ≡ true)
              × (v.client w' ≡ v.client w))
            (λ w'. (v.controllers w' ≡ v.controllers w) × (v.client w' ≡ v.client w))
            (mgr.start w)

  pub record Starts : Type 1 where
    pub parses_flags :
        (flags : Flags) (w : W)
        → Ensures
            (λ _ w'. Same w w' × ((name : Str) → lib.getenv name w' ≡ lib.getenv name w))
            (Same w)
            (lib.parse_flags flags w)
    pub gets_config : (w : W) → Ensures (λ _. Same w) (Same w) (lib.get_config_or_die w)
    pub makes_manager :
        (config : lib.RestConfig) (options : Options schemes.Scheme) (w : W)
        → Ensures
            (λ mgr w'.
              Manages options.scheme mgr
              × (v.controllers w' ≡ [])
              × (v.served w' ≡ v.served w)
              × (v.client w' ≡ mgr.client))
            (Same w)
            (lib.new_manager config options w)

  -- Each kind but the role has the reconciler that is written for it.
  abbrev pub all_controllers : Platform W E → Str → List v.Entry
  all_controllers p ns =
      v.entry release (reconcile_release p ns)
      ∷ v.entry base_image (reconcile_base_image p ns)
      ∷ v.entry team (reconcile_team p ns)
      ∷ v.entry extension (reconcile_extension p ns)
      ∷ v.entry az (reconcile_az p ns)
      ∷ v.entry network (reconcile_network p ns)
      ∷ v.entry director (reconcile_director p ns)
      ∷ v.entry compilation (reconcile_compilation p ns)
      ∷ v.entry deployment (reconcile_deployment p ns)
      ∷ []

  abbrev At : Kube W E → List v.Entry → W → Type 0
  At client cs w = (v.controllers w ≡ cs) × (v.served w ≡ false) × (v.client w ≡ client)

  abbrev Idle : W → Type 0
  Idle w = v.served w ≡ false

  -- Over the client of the process's own manager.
  abbrev pub Serves : Str → W → Type 0
  Serves ns w = v.controllers w ≡ all_controllers (record outside { kube = v.client w }) ns

  abbrev Partly : Str → W → Type 0
  Partly ns w = v.served w ≡ true → Serves ns w

  exits :
      {A : Type 0} (P : A → W → Type 0) (Q : W → Type 0) (message controller : Str) (m : Io W E A)
      (w : W)
      → Ensures P Q (m w)
      → Ensures P Q (or_exit message controller m w)
  unfolding or_exit
  exits {A} P Q message controller m w h = go (m w) h
    where
      go :
          (r : Result E A × W)
          → Ensures P Q r
          → Ensures {E = Exit E} {A = A} P Q (elim (r.0) [
            | ok a ↦ (ok a, r.1)
            | err e ↦ (err (record { message = message; controller = controller; error = e }), r.1)
          ])
      go (ok a, w') h = h
      go (err e, w') h = h

  -- What `main` does with a manager.
  abbrev run : Manager W E → Str → Io W (Exit E) (Unit {0})
  run mgr ns = set_up_controllers schemes lib outside ns mgr >>= λ _.
      or_exit (str "problem running manager") [] mgr.start

  module _ (scheme : schemes.Scheme) (all_known : (k : Kind) → knows scheme (object k) ≡ true)
      (mgr : Manager W E) (manages : Manages scheme mgr) where
    grow :
        (message controller : Str) (k : Kind) (r : Request → Io W E (Unit {0})) (cs : List v.Entry)
        (w : W)
        → At mgr.client cs w
        → Ensures
            (λ _. At mgr.client (cs ++ (v.entry k r ∷ [])))
            Idle
            (or_exit message controller (mgr.complete k r) w)
    grow message controller k r cs w h =
        exits (λ _. At mgr.client (cs ++ (v.entry k r ∷ []))) Idle message controller
          (mgr.complete k r) w
          (weaken _ (λ _. At mgr.client (cs ++ (v.entry k r ∷ []))) _ Idle (mgr.complete k r w)
            (manages.completes k r w (all_known k))
            (λ _ w' g. (g.0 ∙ ap (λ x. x ++ (v.entry k r ∷ [])) h.0, g.1 ∙ h.1, g.2 ∙ h.2))
            (λ w' s. s.1 ∙ h.1))

    grow_then :
        (message controller : Str) (k : Kind) (r : Request → Io W E (Unit {0}))
        (cs end : List v.Entry) (rest : Io W (Exit E) (Unit {0}))
        → ((w : W)
            → At mgr.client (cs ++ (v.entry k r ∷ [])) w
            → Ensures (λ _. At mgr.client end) Idle (rest w))
        → (w : W) → At mgr.client cs w
        → Ensures
            (λ _. At mgr.client end)
            Idle
            ((or_exit message controller (mgr.complete k r) >>= λ _. rest) w)
    grow_then message controller k r cs end rest next w h =
        after_bind (λ _. At mgr.client (cs ++ (v.entry k r ∷ []))) (λ _. At mgr.client end) Idle
          Idle (or_exit message controller (mgr.complete k r)) (λ _. rest) w
          (grow message controller k r cs w h) (λ w' i. i) (λ _ w' g. next w' g)

    set_up_controllers-All :
        (ns : Str) (w : W)
        → At mgr.client [] w
        → Ensures
            (λ _. At mgr.client (all_controllers (record outside { kube = mgr.client }) ns))
            Idle
            (set_up_controllers schemes lib outside ns mgr w)
    unfolding set_up_controllers setup_az setup_extension setup_network setup_release
        setup_base_image setup_deployment setup_compilation setup_team setup_director
    set_up_controllers-All ns =
        let p = record outside { kube = mgr.client } in
        grow_then _ _ release (reconcile_release p ns) _ _ _ (
          grow_then _ _ base_image (reconcile_base_image p ns) _ _ _ (
            grow_then _ _ team (reconcile_team p ns) _ _ _ (
              grow_then _ _ extension (reconcile_extension p ns) _ _ _ (
                grow_then _ _ az (reconcile_az p ns) _ _ _ (
                  grow_then _ _ network (reconcile_network p ns) _ _ _ (
                    grow_then _ _ director (reconcile_director p ns) _ _ _ (
                      grow_then _ _ compilation (reconcile_compilation p ns) _ _ _
                        (grow _ _ deployment (reconcile_deployment p ns) _))))))))

    of_client :
        (ns : Str) (w1 w' : W)
        → v.controllers w1 ≡ all_controllers (record outside { kube = mgr.client }) ns
        → v.client w1 ≡ mgr.client
        → v.controllers w' ≡ v.controllers w1
        → v.client w' ≡ v.client w1
        → Serves ns w'
    of_client ns w1 w' g c s k =
        s ∙ g ∙ ap (λ kube. all_controllers (record outside { kube = kube }) ns) (sym (k ∙ c))

    run-Serves :
        (ns : Str) (w : W)
        → At mgr.client [] w
        → Ensures (λ _ w'. Serves ns w' × (v.served w' ≡ true)) (Partly ns) (run mgr ns w)
    run-Serves ns w h =
        after_bind (λ _. At mgr.client (all_controllers (record outside { kube = mgr.client }) ns))
          (λ _ w'. Serves ns w' × (v.served w' ≡ true)) Idle (Partly ns)
          (set_up_controllers schemes lib outside ns mgr)
          (λ _. or_exit (str "problem running manager") [] mgr.start) w
          (set_up_controllers-All ns w h) (λ w' i. ground arith)
          λ _ w1 g.
            exits (λ _ w'. Serves ns w' × (v.served w' ≡ true)) (Partly ns)
              (str "problem running manager") [] mgr.start w1
              (weaken _ (λ _ w'. Serves ns w' × (v.served w' ≡ true)) _ (Partly ns) (mgr.start w1)
                (manages.starts w1) (λ _ w' s. (of_client ns w1 w' g.0 g.2 s.0 s.2, s.1))
                (λ w' s _. of_client ns w1 w' g.0 g.2 s.0 s.1))

  module _ (told : schemes.Builder → GoType → Bool) (types : KeepsTypes schemes told knows)
      (law : Starts) where
    init_scheme-Knows : (k : Kind) → knows (init_scheme schemes) (object k) ≡ true
    unfolding init_scheme
    init_scheme-Knows k =
        types.adds_core _ (object k)
          (add_to_scheme-Knows schemes told knows types schemes.new_scheme k).0

    abbrev options : Flags → Options schemes.Scheme
    options flags = record {
      scheme = init_scheme schemes;
      metrics_bind_address = flags.metrics_addr;
      leader_election = flags.enable_leader_election;
    }

    -- What `main` does with the flags and the environment.
    abbrev configured : Flags → Str → Io W (Exit E) (Unit {0})
    configured flags ns = do
      config ← lib.get_config_or_die
      mgr ← or_exit (str "unable to start manager") [] (lib.new_manager config (options flags))
      run mgr ns

    configured-Serves :
        (flags : Flags) (ns : Str) (w : W)
        → v.served w ≡ false
        → Ensures (λ _ w'. Serves ns w' × (v.served w' ≡ true)) (Partly ns) (configured flags ns w)
    configured-Serves flags ns w idle =
        after_bind (λ _. Same w) (λ _ w'. Serves ns w' × (v.served w' ≡ true)) (Same w) (Partly ns)
          lib.get_config_or_die _ w (law.gets_config w) (λ w' s. ground arith)
          λ config w1 s.
            after_bind
              (λ mgr w'.
                Manages (init_scheme schemes) mgr
                × (v.controllers w' ≡ [])
                × (v.served w' ≡ v.served w1)
                × (v.client w' ≡ mgr.client))
              (λ _ w'. Serves ns w' × (v.served w' ≡ true)) (Same w1) (Partly ns)
              (or_exit (str "unable to start manager") [] (lib.new_manager config (options flags)))
              (λ mgr. run mgr ns) w1
              (exits _ (Same w1) (str "unable to start manager") []
                (lib.new_manager config (options flags)) w1
                (law.makes_manager config (options flags) w1))
              (λ w' t. ground arith)
              λ mgr w2 m.
                run-Serves (init_scheme schemes) init_scheme-Knows mgr m.0 ns w2
                  (m.1, m.2 ∙ s.1 ∙ idle, m.3)

    -- By `KeepsTypes` and `Starts`: if `main` ends without an error, in a process whose manager has
    -- served nothing before, then its manager has served, with one controller for each kind but the
    -- role, whose reconciler is the one written for the kind, over the client of that manager and the
    -- BOSH system namespace of the environment. However `main` ends, a manager that has served has all
    -- of these controllers.
    pub main-Serves :
        (w : W)
        → v.served w ≡ false
        → let ns = lib.getenv (str "BOSH_SYSTEM_NAMESPACE") w in
          Ensures
            (λ _ w'. Serves ns w' × (v.served w' ≡ true))
            (λ w'. v.served w' ≡ true → Serves ns w')
            (main schemes lib outside w)
    unfolding main
    main-Serves w idle =
        let ns = lib.getenv (str "BOSH_SYSTEM_NAMESPACE") w in
        after_bind (λ _ w'. Same w w' × ((name : Str) → lib.getenv name w' ≡ lib.getenv name w))
          (λ _ w'. Serves ns w' × (v.served w' ≡ true)) (Same w) (Partly ns)
          (lib.parse_flags default_flags)
          (λ flags w'. configured flags (lib.getenv (str "BOSH_SYSTEM_NAMESPACE") w') w') w
          (law.parses_flags default_flags w) (λ w' s. ground arith)
          λ flags w1 f.
            subst
              (λ n.
                Ensures (λ _ w'. Serves n w' × (v.served w' ≡ true)) (Partly n)
                  (configured flags (lib.getenv (str "BOSH_SYSTEM_NAMESPACE") w1) w1))
              (f.1 (str "BOSH_SYSTEM_NAMESPACE"))
              (configured-Serves flags (lib.getenv (str "BOSH_SYSTEM_NAMESPACE") w1) w1
                (f.0.1 ∙ idle))
