-- ===== src/Roles.antt =====
-- core/bitmod/roles.py: the roles, the class `RoleRegistry` with its parser of roles.yaml, and the actions of
-- core/bitmod/intent.py that they are chosen by. `int` is Python's, `none` for a ValueError. A dict is the
-- list of its items.
pub mod Yaml
pub mod Resolution
use bit_mod_ai_inference_cac.Roles.Yaml.{section, scalar, parse_yaml, Value, get_item, is_text}
use bit_mod_ai_inference_cac.Prelude.{
  pos, ℤ, not, ◌&&◌, ◌||◌, some, false, none, true, ◌==◌, ◌∷◌, if◌then◌else◌, Option, List, [],
  Bool, ℕ,
}
use bit_mod_ai_inference_cac.Strings.{
  Text, codes, strip, split, lower, is_blank, starts_with, is_space,
}

pub data Role : Type 0 where
  narrator synthesizer structurer reasoner explorer agent : Role

pub data IntentAction : Type 0 where
  cite list quote reference lookup find show : IntentAction
  summarize explain compare contrast paraphrase translate : IntentAction
  think hypothesize analyze theorize evaluate debate predict : IntentAction
  execute build deploy transform : IntentAction
  extract convert count calculate validate : IntentAction
  brainstorm create write draft generate compose : IntentAction
  clarify unknown : IntentAction

-- `_ACTION_ROLE_MAP`, which has every action.
unfoldable pub action_role : IntentAction → Role
action_role cite = narrator
action_role quote = narrator
action_role reference = narrator
action_role lookup = narrator
action_role find = narrator
action_role show = narrator
action_role list = structurer
action_role summarize = synthesizer
action_role explain = narrator
action_role compare = synthesizer
action_role contrast = synthesizer
action_role paraphrase = synthesizer
action_role translate = synthesizer
action_role think = reasoner
action_role hypothesize = reasoner
action_role analyze = reasoner
action_role theorize = reasoner
action_role evaluate = reasoner
action_role debate = reasoner
action_role predict = reasoner
action_role execute = agent
action_role build = agent
action_role deploy = agent
action_role transform = agent
action_role extract = structurer
action_role convert = structurer
action_role count = structurer
action_role calculate = structurer
action_role validate = structurer
action_role brainstorm = explorer
action_role create = explorer
action_role write = explorer
action_role draft = explorer
action_role generate = explorer
action_role compose = explorer
action_role clarify = narrator
action_role unknown = narrator

abbrev pub role_index : Role → ℕ
role_index narrator = 0
role_index synthesizer = 1
role_index structurer = 2
role_index reasoner = 3
role_index explorer = 4
role_index agent = 5

unfoldable pub is_role : Role → Role → Bool
is_role r q = role_index r == role_index q

pub record RoleConfig : Type 0 where
  pub role : Role
  pub description : Text
  pub model_tier : Text
  pub max_input_tokens : ℤ
  pub max_output_tokens : ℤ
  pub system_prompt : Text

abbrev pub default_config : Role → RoleConfig
default_config role = record {
  role = role;
  description = [];
  model_tier = codes "primary";
  max_input_tokens = pos 8192;
  max_output_tokens = pos 4096;
  system_prompt = [];
}

-- `Role(role_name)`, `none` for the ValueError.
unfoldable pub role_named : Text → Option Role
role_named name =
    if is_text name (codes "narrator")
    then some narrator
    else if is_text name (codes "synthesizer")
    then some synthesizer
    else if is_text name (codes "structurer")
    then some structurer
    else if is_text name (codes "reasoner")
    then some reasoner
    else if is_text name (codes "explorer")
    then some explorer
    else if is_text name (codes "agent")
    then some agent
    else none

abbrev pub legal_tags : List Text
legal_tags =
    codes "legal" ∷ codes "regulatory" ∷ codes "statute" ∷ codes "regulation" ∷ codes "law" ∷ []

abbrev pub factual_tags : List Text
factual_tags = codes "factual" ∷ codes "reference" ∷ codes "encyclopedia" ∷ []

unfoldable pub is_one_of_texts : Text → List Text → Bool
is_one_of_texts t [] = false
is_one_of_texts t (n ∷ names) = is_text t n || is_one_of_texts t names

-- `tag_set & names`
unfoldable pub meets : List Text → List Text → Bool
unfolding lower is_one_of_texts
meets [] names = false
meets (t ∷ tags) names = is_one_of_texts (lower t) names || meets tags names

unfoldable pub resolved_role : IntentAction → List Text → Role
unfolding action_role meets is_role
resolved_role action tags =
    let role = action_role action in
    let precise = if meets tags legal_tags && is_role role synthesizer then narrator else role in
    if meets tags factual_tags && is_role precise explorer then synthesizer else precise

abbrev pub Configs : Type 0
Configs = List (Role × RoleConfig)

unfoldable pub put_config : Role → RoleConfig → Configs → Configs
unfolding is_role
put_config role c [] = (role, c) ∷ []
put_config role c ((r, d) ∷ configs) =
    if is_role r role then (r, c) ∷ configs else (r, d) ∷ put_config role c configs

unfoldable pub config_of : Role → Configs → Option RoleConfig
unfolding is_role
config_of role [] = none
config_of role ((r, d) ∷ configs) = if is_role r role then some d else config_of role configs

-- `role_data.get(key, default)`
abbrev pub get_or : Text → Text → List (Text × Text) → Text
get_or key default items = elim (get_item key items) [ none ↦ default | some t ↦ t ]

pub record RoleRegistry : Type 0 where
  pub configs : Configs
  pub loaded : Bool

abbrev pub all_roles : List Role
all_roles = narrator ∷ synthesizer ∷ structurer ∷ reasoner ∷ explorer ∷ agent ∷ []

unfoldable pub put_defaults : List Role → Configs → Configs
unfolding put_config
put_defaults [] configs = configs
put_defaults (role ∷ roles) configs =
    put_defaults roles (put_config role (default_config role) configs)

abbrev pub with_limits : Role → List (Text × Text) → Option ℤ → Option ℤ → Option RoleConfig
with_limits role items none o = none
with_limits role items (some m) none = none
with_limits role items (some m) (some n) = some (record {
  role = role;
  description = get_or (codes "description") [] items;
  model_tier = get_or (codes "model_tier") (codes "primary") items;
  max_input_tokens = m;
  max_output_tokens = n;
  system_prompt = get_or (codes "system_prompt") [] items;
})

abbrev pub after_reading : Bool → Configs × Bool → RoleRegistry × Bool
after_reading loaded (configs, true) = (record { configs = configs; loaded = true }, true)
after_reading loaded (configs, false) = (record { configs = configs; loaded = loaded }, false)

abbrev pub config_or_default : Role → Option RoleConfig → RoleConfig
config_or_default role none = default_config role
config_or_default role (some c) = c

abbrev pub with_config : Role → Option RoleConfig → Configs → Option Configs
with_config role none configs = none
with_config role (some c) configs = some (put_config role c configs)

-- `none` is the ValueError of a section.
abbrev pub after_section : Option Configs → Configs → (Configs → Configs × Bool) → Configs × Bool
after_section none configs rest = (configs, false)
after_section (some configs') configs rest = rest configs'

module _ (int : Text → Option ℤ) where
  abbrev pub token_limit : Text → ℤ → List (Text × Text) → Option ℤ
  token_limit key default items = elim (get_item key items) [ none ↦ some default | some t ↦ int t ]

  -- The `RoleConfig` of a section, `none` for the ValueError of `int`.
  unfoldable pub config_from : Role → List (Text × Text) → Option RoleConfig
  unfolding get_item
  config_from role items =
      with_limits role items (token_limit (codes "max_input_tokens") (pos 8192) items)
        (token_limit (codes "max_output_tokens") (pos 4096) items)

  abbrev pub with_section : Option Role → List (Text × Text) → Configs → Option Configs
  with_section none fields configs = some configs
  with_section (some role) fields configs = with_config role (config_from role fields) configs

  -- The loop over the file's items; the second component says whether it ends without a ValueError.
  unfoldable pub read_items : List (Text × Value) → Configs → Configs × Bool
  unfolding config_from role_named put_config
  read_items [] configs = (configs, true)
  read_items ((name, scalar t) ∷ items) configs = read_items items configs
  read_items ((name, section fields) ∷ items) configs =
      after_section (with_section (role_named name) fields configs) configs
        (λ cs. read_items items cs)

  -- `file` is the content of roles.yaml, `none` where it is missing.
  unfoldable pub load : Option Text → RoleRegistry → RoleRegistry × Bool
  unfolding put_defaults parse_yaml read_items
  load none registry = (record { configs = put_defaults all_roles []; loaded = true }, true)
  load (some content) registry =
      after_reading registry.loaded (read_items (parse_yaml content) (put_defaults all_roles []))

  unfoldable pub ensure_loaded : Option Text → RoleRegistry → RoleRegistry × Bool
  unfolding load
  ensure_loaded file registry = if registry.loaded then (registry, true) else load file registry

  -- `none` where loading raises.
  unfoldable pub get : Option Text → Role → RoleRegistry → RoleRegistry × Option RoleConfig
  unfolding ensure_loaded config_of
  get file role registry =
      let (registry', returned) = ensure_loaded file registry in
      (
        registry',
        if returned then some (config_or_default role (config_of role registry'.configs)) else none,
      )

  -- No tags and an empty list of tags are the same.
  unfoldable pub resolve :
      Option Text
      → IntentAction
      → List Text
      → RoleRegistry
      → RoleRegistry × Option (Role × RoleConfig)
  unfolding ensure_loaded resolved_role config_of
  resolve file action tags registry =
      let (registry', returned) = ensure_loaded file registry in
      let role = resolved_role action tags in
      (
        registry',
        if returned
            then some (role, config_or_default role (config_of role registry'.configs))
            else none,
      )
