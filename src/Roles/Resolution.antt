-- ===== src/Roles/Resolution.antt =====
-- core/bitmod/roles.py: what `resolve` returns, whatever roles.yaml holds.
use mathlib.Core.Path.{subst}
use mathlib.Core.Option.{some-injective}
use bit_mod_ai_inference_cac.Strings.{Text}
use bit_mod_ai_inference_cac.Roles.{
  section, parse_yaml, scalar, with_section, config_or_default, role_named, codes, after_reading,
  resolve, token_limit, with_limits, action_role, agent, legal_tags, reasoner, explorer, structurer,
  RoleRegistry, default_config, synthesizer, load, Value, factual_tags, narrator, ensure_loaded,
  read_items, config_from, meets, all_roles, RoleConfig, put_config, is_role, role_index,
  resolved_role, IntentAction, put_defaults, Configs, config_of, Role,
}
use bit_mod_ai_inference_cac.Prelude.{
  pos, ℤ, ◌∷◌, Option-cases, none, arith, ◌&&◌, Bool, refl, ==_iff, inr, ap, false, ◌∙◌, sym, ◌≢◌,
  inl, ◌↔◌, [], Bool-cases, some, true, ◌≡◌, ◌==◌, Option, List, if◌then◌else◌, ℕ,
}

role_at : ℕ → Role
role_at n =
    if n == 0
    then narrator
    else if n == 1
    then synthesizer
    else if n == 2
    then structurer
    else if n == 3
    then reasoner
    else if n == 4
    then explorer
    else agent

role_at-role_index : (r : Role) → role_at (role_index r) ≡ r
unfolding role_at
role_at-role_index narrator = refl
role_at-role_index synthesizer = refl
role_at-role_index structurer = refl
role_at-role_index reasoner = refl
role_at-role_index explorer = refl
role_at-role_index agent = refl

is_role_iff : (r q : Role) → (is_role r q ≡ true) ↔ (r ≡ q)
unfolding is_role
is_role_iff r q = (
  (λ e.
      sym (role_at-role_index r)
      ∙ ap role_at ((==_iff (role_index r) (role_index q)).0 e)
      ∙ role_at-role_index q),
  λ e. (==_iff (role_index r) (role_index q)).1 (ap role_index e),
)

config_of-put_config :
    (q role : Role) (c : RoleConfig) (configs : Configs)
    → config_of q (put_config role c configs)
      ≡ (if is_role role q then some c else config_of q configs)
unfolding config_of put_config
config_of-put_config q role c [] = refl
config_of-put_config q role c ((r, d) ∷ configs) = elim (Bool-cases (is_role r role)) [
  | inl hit ↦
      let same : is_role r q ≡ is_role role q =
        ap (λ x. is_role x q) ((is_role_iff r role).0 hit) in
      elim (Bool-cases (is_role role q)) [
        | inl t ↦ rw (hit, same ∙ t, t) refl
        | inr f ↦ rw (hit, same ∙ f, f) refl
      ]
  | inr miss ↦ elim (Bool-cases (is_role r q)) [
    | inl t ↦
        let other : is_role role q ≡ false =
          ground (arith, is_role_iff r role, is_role_iff r q, is_role_iff role q) in
        rw (miss, t, other) refl
    | inr f ↦ rw (miss, f) (config_of-put_config q role c configs)
  ]
]

-- Every role has a configuration, its own.
abbrev pub Complete : Configs → Type 0
Complete configs = (q : Role) → (c : RoleConfig) × (config_of q configs ≡ some c) × (c.role ≡ q)

put_config-Complete :
    (role : Role) (c : RoleConfig) (configs : Configs)
    → c.role ≡ role
    → Complete configs
    → Complete (put_config role c configs)
put_config-Complete role c configs e h q = elim (Bool-cases (is_role role q)) [
  | inl same ↦
      (c, config_of-put_config q role c configs ∙ rw same refl, e ∙ (is_role_iff role q).0 same)
  | inr differs ↦
      let (d, found, own) = h q in
      (d, config_of-put_config q role c configs ∙ rw differs found, own)
]

put_defaults-Complete : Complete (put_defaults all_roles [])
unfolding put_defaults put_config config_of
put_defaults-Complete narrator = (default_config narrator, refl, refl)
put_defaults-Complete synthesizer = (default_config synthesizer, refl, refl)
put_defaults-Complete structurer = (default_config structurer, refl, refl)
put_defaults-Complete reasoner = (default_config reasoner, refl, refl)
put_defaults-Complete explorer = (default_config explorer, refl, refl)
put_defaults-Complete agent = (default_config agent, refl, refl)

-- The two tests of `resolve` on a role.
abbrev tagged : Bool → Bool → Role → Role
tagged legal factual role =
    let precise = if legal && is_role role synthesizer then narrator else role in
    if factual && is_role precise explorer then synthesizer else precise

tagged-Follows :
    (legal factual : Bool) (role : Role)
    → (factual ≡ true → tagged legal factual role ≢ explorer)
      × (legal ≡ true
          → tagged legal factual role ≡ synthesizer
          → (role ≡ explorer) × (factual ≡ true))
      × (legal ≡ false → factual ≡ false → tagged legal factual role ≡ role)
unfolding is_role
tagged-Follows legal factual narrator = ground arith
tagged-Follows legal factual synthesizer = ground arith
tagged-Follows legal factual structurer = ground arith
tagged-Follows legal factual reasoner = ground arith
tagged-Follows legal factual explorer = ground arith
tagged-Follows legal factual agent = ground arith

-- What the tags make of a role.
abbrev pub Follows : IntentAction → List Text → Role → Type 0
Follows action tags role =
    (meets tags factual_tags ≡ true → role ≢ explorer)
    × (meets tags legal_tags ≡ true
        → role ≡ synthesizer
        → (action_role action ≡ explorer) × (meets tags factual_tags ≡ true))
    × (meets tags legal_tags ≡ false → meets tags factual_tags ≡ false → role ≡ action_role action)

resolved_role-Follows :
    (action : IntentAction) (tags : List Text) → Follows action tags (resolved_role action tags)
unfolding resolved_role
resolved_role-Follows action tags =
    tagged-Follows (meets tags legal_tags) (meets tags factual_tags) (action_role action)

module _ (int : Text → Option ℤ) where
  with_limits-role :
      (role : Role) (items : List (Text × Text)) (m n : Option ℤ) (c : RoleConfig)
      → with_limits role items m n ≡ some c
      → c.role ≡ role
  with_limits-role role items none n c e = cc
  with_limits-role role items (some m) none c e = cc
  with_limits-role role items (some m) (some n) c e = sym (ap (λ d. d.role) (some-injective _ c e))

  after_reading-Complete :
      (loaded : Bool) (r : Configs × Bool)
      → Complete r.0
      → let (registry', returned) = after_reading loaded r in
        Complete registry'.configs × (returned ≡ false → registry'.loaded ≡ loaded)
  after_reading-Complete loaded (configs, true) h = (h, λ e. cc)
  after_reading-Complete loaded (configs, false) h = (h, λ e. refl)

  config_from-role :
      (role : Role) (items : List (Text × Text)) (c : RoleConfig)
      → config_from int role items ≡ some c
      → c.role ≡ role
  unfolding config_from
  config_from-role role items c e =
      with_limits-role role items (token_limit int (codes "max_input_tokens") (pos 8192) items)
        (token_limit int (codes "max_output_tokens") (pos 4096) items) c e

  with_section-Complete :
      (o : Option Role) (fields : List (Text × Text)) (configs configs' : Configs)
      → Complete configs
      → with_section int o fields configs ≡ some configs'
      → Complete configs'
  with_section-Complete none fields configs configs' h e =
      subst Complete (some-injective configs configs' e) h
  with_section-Complete (some role) fields configs configs' h e =
      elim (Option-cases (config_from int role fields)) [
        | inl raised ↦ absurd (ground arith)
        | inr (c, made) ↦
            subst Complete
              (some-injective (put_config role c configs) configs' (sym (rw made refl) ∙ e))
              (put_config-Complete role c configs (config_from-role role fields c made) h)
      ]

  read_items-Complete :
      (items : List (Text × Value)) (configs : Configs)
      → Complete configs
      → Complete (read_items int items configs).0
  unfolding read_items
  read_items-Complete [] configs h = h
  read_items-Complete ((name, scalar t) ∷ items) configs h = read_items-Complete items configs h
  read_items-Complete ((name, section fields) ∷ items) configs h =
      elim (Option-cases (with_section int (role_named name) fields configs)) [
        | inl raised ↦ rw raised h
        | inr (configs', made) ↦ rw made (
            read_items-Complete items configs'
              (with_section-Complete (role_named name) fields configs configs' h made))
      ]

  ensure_loaded-Complete :
      (file : Option Text) (registry : RoleRegistry)
      → (registry.loaded ≡ true → Complete registry.configs)
      → let (registry', returned) = ensure_loaded int file registry in
        Complete registry'.configs
        × (returned ≡ false → (registry.loaded ≡ false) × (registry'.loaded ≡ false))
  unfolding ensure_loaded load
  ensure_loaded-Complete none registry h = elim (Bool-cases registry.loaded) [
    | inl e ↦ rw e (h e, λ x. cc)
    | inr e ↦ rw e (put_defaults-Complete, λ x. cc)
  ]
  ensure_loaded-Complete (some content) registry h =
      let items = parse_yaml content in
      let (complete, failed) =
        after_reading-Complete false (read_items int items (put_defaults all_roles []))
          (read_items-Complete items (put_defaults all_roles []) put_defaults-Complete) in
      elim (Bool-cases registry.loaded) [
        | inl e ↦ rw e (h e, λ x. cc)
        | inr e ↦ rw e (complete, λ x. (refl, failed x))
      ]

  -- Whatever roles.yaml holds, and also where loading it raises, each role then has a configuration, its
  -- own. Where `resolve` returns, the configuration is that of the role; tags of facts rule the explorer
  -- out; under a legal tag the role is the synthesizer only if the action asks for the explorer and a tag
  -- of facts turns it; and without such tags it is the role of the action. It returns unless loading
  -- raises, and then the registry stays unloaded.
  pub resolve_lem :
      (file : Option Text) (action : IntentAction) (tags : List Text) (registry : RoleRegistry)
      → (registry.loaded ≡ true → Complete registry.configs)
      → let (registry', o) = resolve int file action tags registry in
        Complete registry'.configs
        × ((role : Role) (c : RoleConfig)
            → o ≡ some (role, c)
            → (c.role ≡ role) × Follows action tags role)
        × (o ≡ none → (registry.loaded ≡ false) × (registry'.loaded ≡ false))
  unfolding resolve
  resolve_lem file action tags registry h =
      let (complete, failed) = ensure_loaded-Complete file registry h in
      let r = resolved_role action tags in
      let (registry', returned) = ensure_loaded int file registry in
      let found = config_or_default r (config_of r registry'.configs) in
      (
        complete,
        (λ role c e. elim (Bool-cases returned) [
          | inl t ↦
              let same : (r, found) ≡ (role, c) =
                some-injective (r, found) (role, c) (sym (rw t refl) ∙ e) in
              let (d, present, own) = complete r in
              let is_d : found ≡ d = rw present refl in
              (
                ap (λ p. p.1.role) (sym same) ∙ ap (λ x. x.role) is_d ∙ own ∙ ap (λ p. p.0) same,
                subst (Follows action tags) (ap (λ p. p.0) same)
                    (resolved_role-Follows action tags),
              )
          | inr f ↦ absurd (ground arith)
        ]),
        λ e. elim (Bool-cases returned) [ inl t ↦ absurd (ground arith) | inr f ↦ failed f ],
      )
