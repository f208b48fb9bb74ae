-- ===== src/Tests/RoleTests.antt =====
-- The roles of a short roles.yaml (core/bitmod/roles.py); every number is read as -7.
use bit_mod_ai_inference_cac.Roles.Yaml.{scalar, section, parse_yaml}
use bit_mod_ai_inference_cac.Prelude.{
  negsuc, ℤ, refl, arith, if◌then◌else◌, none, ◌∷◌, false, Option, some, ◌≡◌, [],
}
use bit_mod_ai_inference_cac.Strings.{is_blank, codes, Text}
use bit_mod_ai_inference_cac.Roles.{
  synthesizer, create, resolve, resolved_role, RoleRegistry, Role, RoleConfig,
}
use bit_mod_ai_inference_cac.Roles.Resolution.{resolve_lem, Complete, Follows}

abbrev int : Text → Option ℤ
int t = if is_blank t then none else some (negsuc 6)

abbrev content : Text
content = codes "# c\nagent:\n  model_tier: 'x'\n  max_input_tokens: 5\nother: 1\n"

abbrev unread : RoleRegistry
unread = record { configs = []; loaded = false }

parsed :
    parse_yaml content
    ≡ (
      codes "agent",
      section ((codes "model_tier", codes "x") ∷ (codes "max_input_tokens", codes "5") ∷ []),
    )
      ∷ (codes "other", scalar (codes "1"))
      ∷ []
unfolding parse_yaml
parsed = refl

-- A text tagged as legal and as factual: what the first test takes from the synthesizer the second gives it.
legal_and_factual : resolved_role create (codes "Legal" ∷ codes "factual" ∷ []) ≡ synthesizer
unfolding resolved_role
legal_and_factual = refl

resolve_lem_example :
    let (registry', o) = resolve int (some content) create (codes "law" ∷ []) unread in
    Complete registry'.configs
    × ((role : Role) (c : RoleConfig)
        → o ≡ some (role, c)
        → (c.role ≡ role) × Follows create (codes "law" ∷ []) role)
    × (o ≡ none → (false ≡ false) × (registry'.loaded ≡ false))
resolve_lem_example =
    resolve_lem int (some content) create (codes "law" ∷ []) unread (λ e. absurd (ground arith))
