-- ===== src/Api/Registration.antt =====
-- The types that the API group is made of: api/v1/groupversion_info.go, and the functions `init` of
-- api/v1/*_types.go, which Go runs in the order of the files. The scheme and its builder are a library.
use boshv.Base.{Bool, true, ◌≡◌, Str, str}

pub data Kind : Type 0 where
  az extension network compilation release base_image role deployment team director : Kind

-- The struct of a kind, or the struct of its lists.
pub data GoType : Type 0 where
  object : Kind → GoType
  list : Kind → GoType

pub record SchemeLibrary : Type 1 where
  pub Scheme : Type 0
  pub Builder : Type 0
  pub new_scheme : Scheme
  pub new_builder : Str → Str → Builder
  pub register : GoType → GoType → Builder → Builder
  pub add_to_scheme : Builder → Scheme → Scheme
  pub core_add_to_scheme : Scheme → Scheme

module _ (lib : SchemeLibrary) where
  unfoldable pub init_az : lib.Builder → lib.Builder
  init_az = lib.register (object az) (list az)

  unfoldable pub init_base_image : lib.Builder → lib.Builder
  init_base_image = lib.register (object base_image) (list base_image)

  unfoldable pub init_compilation : lib.Builder → lib.Builder
  init_compilation = lib.register (object compilation) (list compilation)

  unfoldable pub init_deployment : lib.Builder → lib.Builder
  init_deployment = lib.register (object deployment) (list deployment)

  unfoldable pub init_director : lib.Builder → lib.Builder
  init_director = lib.register (object director) (list director)

  unfoldable pub init_extension : lib.Builder → lib.Builder
  init_extension = lib.register (object extension) (list extension)

  unfoldable pub init_network : lib.Builder → lib.Builder
  init_network = lib.register (object network) (list network)

  unfoldable pub init_release : lib.Builder → lib.Builder
  init_release = lib.register (object release) (list release)

  unfoldable pub init_role : lib.Builder → lib.Builder
  init_role = lib.register (object role) (list role)

  unfoldable pub init_team : lib.Builder → lib.Builder
  init_team = lib.register (object team) (list team)

  -- `SchemeBuilder` once every `init` of the package has run.
  unfoldable pub scheme_builder : lib.Builder
  unfolding init_az init_base_image init_compilation init_deployment init_director init_extension
      init_network init_release init_role init_team
  scheme_builder = init_team (
      init_role (
        init_release (
          init_network (
            init_extension (
              init_director (
                init_deployment (
                  init_compilation (
                    init_base_image
                      (init_az (lib.new_builder (str "bosh.akgupta.ca") (str "v1")))))))))))

  unfoldable pub add_to_scheme : lib.Scheme → lib.Scheme
  unfolding scheme_builder
  add_to_scheme = lib.add_to_scheme scheme_builder

  -- What a scheme knows: it learns all that a builder was told, and forgets nothing.
  pub record KeepsTypes (told : lib.Builder → GoType → Bool) (knows : lib.Scheme → GoType → Bool)
      : Type 0 where
    pub registers_first : (t u : GoType) (b : lib.Builder) → told (lib.register t u b) t ≡ true
    pub registers_second : (t u : GoType) (b : lib.Builder) → told (lib.register t u b) u ≡ true
    pub registers_other :
        (t u v : GoType) (b : lib.Builder) → told b v ≡ true → told (lib.register t u b) v ≡ true
    pub adds :
        (b : lib.Builder) (s : lib.Scheme) (t : GoType)
        → told b t ≡ true
        → knows (lib.add_to_scheme b s) t ≡ true
    pub adds_core :
        (s : lib.Scheme) (t : GoType) → knows s t ≡ true → knows (lib.core_add_to_scheme s) t ≡ true

  module _ (told : lib.Builder → GoType → Bool) (knows : lib.Scheme → GoType → Bool)
      (law : KeepsTypes told knows) where
    first : (t u : GoType) (b : lib.Builder) → told (lib.register t u b) t ≡ true
    first = law.registers_first

    second : (t u : GoType) (b : lib.Builder) → told (lib.register t u b) u ≡ true
    second = law.registers_second

    other :
        (t u v : GoType) (b : lib.Builder) → told b v ≡ true → told (lib.register t u b) v ≡ true
    other = law.registers_other

    ruleset told_rules = (first, second, other)

    scheme_builder-told :
        (k : Kind) → (told scheme_builder (object k) ≡ true) × (told scheme_builder (list k) ≡ true)
    unfolding scheme_builder init_az init_base_image init_compilation init_deployment init_director
        init_extension init_network init_release init_role init_team
    scheme_builder-told az = ((search told_rules depth 12), (search told_rules depth 12))
    scheme_builder-told extension = ((search told_rules depth 12), (search told_rules depth 12))
    scheme_builder-told network = ((search told_rules depth 12), (search told_rules depth 12))
    scheme_builder-told compilation = ((search told_rules depth 12), (search told_rules depth 12))
    scheme_builder-told release = ((search told_rules depth 12), (search told_rules depth 12))
    scheme_builder-told base_image = ((search told_rules depth 12), (search told_rules depth 12))
    scheme_builder-told role = ((search told_rules depth 12), (search told_rules depth 12))
    scheme_builder-told deployment = ((search told_rules depth 12), (search told_rules depth 12))
    scheme_builder-told team = ((search told_rules depth 12), (search told_rules depth 12))
    scheme_builder-told director = ((search told_rules depth 12), (search told_rules depth 12))

    pub add_to_scheme-Knows :
        (s : lib.Scheme) (k : Kind)
        → (knows (add_to_scheme s) (object k) ≡ true) × (knows (add_to_scheme s) (list k) ≡ true)
    unfolding add_to_scheme
    add_to_scheme-Knows s k =
        let t = scheme_builder-told k in
        (law.adds scheme_builder s (object k) t.0, law.adds scheme_builder s (list k) t.1)
