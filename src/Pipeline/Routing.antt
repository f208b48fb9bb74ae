-- ===== src/Pipeline/Routing.antt =====
-- core/bitmod/proxy/base.py: `_detect_provider_from_model` and `_resolve_router`. `make_router` is
-- `_make_router_for_provider`, which reads the configuration, `none` where it raises; the dict of the models is one
-- list for each provider.
use bit_mod_ai_inference_cac.Strings.{codes, lower, starts_with, Text}
use bit_mod_ai_inference_cac.Prelude.{
  ◌||◌, [], ap, false, none, ◌∷◌, ◌≡◌, some, Bool, if◌then◌else◌, Option, List,
}
use bit_mod_ai_inference_cac.Queries.{is_listed}

abbrev pub openai_models : List Text
openai_models =
    codes "gpt-4o"
    ∷ codes "gpt-4o-mini"
    ∷ codes "gpt-4-turbo"
    ∷ codes "gpt-4"
    ∷ codes "gpt-3.5-turbo"
    ∷ codes "o1"
    ∷ codes "o1-mini"
    ∷ codes "o1-preview"
    ∷ codes "o3"
    ∷ codes "o3-mini"
    ∷ codes "o4-mini"
    ∷ []

abbrev pub anthropic_models : List Text
anthropic_models =
    codes "claude-opus-4-20250514"
    ∷ codes "claude-sonnet-4-20250514"
    ∷ codes "claude-3-5-sonnet-20241022"
    ∷ codes "claude-3-5-haiku-20241022"
    ∷ codes "claude-3-opus-20240229"
    ∷ codes "claude-3-haiku-20240307"
    ∷ []

abbrev pub gemini_models : List Text
gemini_models =
    codes "gemini-2.0-flash"
    ∷ codes "gemini-2.0-flash-lite"
    ∷ codes "gemini-2.5-pro"
    ∷ codes "gemini-2.5-flash"
    ∷ codes "gemini-1.5-pro"
    ∷ codes "gemini-1.5-flash"
    ∷ []

abbrev pub xai_models : List Text
xai_models = codes "grok-2" ∷ codes "grok-2-mini" ∷ codes "grok-3" ∷ []

abbrev pub mistral_models : List Text
mistral_models =
    codes "mistral-large-latest"
    ∷ codes "mistral-small-latest"
    ∷ codes "open-mistral-nemo"
    ∷ codes "codestral-latest"
    ∷ []

-- `_MODEL_PROVIDER_MAP.get(model)`
unfoldable pub exact_provider : Text → Option Text
exact_provider model =
    if is_listed model openai_models
    then some (codes "openai")
    else if is_listed model anthropic_models
    then some (codes "anthropic")
    else if is_listed model gemini_models
    then some (codes "gemini")
    else if is_listed model xai_models
    then some (codes "xai")
    else if is_listed model mistral_models
    then some (codes "mistral")
    else none

unfoldable pub starts_with_any : Text → List Text → Bool
unfolding starts_with
starts_with_any t [] = false
starts_with_any t (p ∷ ps) = starts_with p t || starts_with_any t ps

unfoldable pub prefix_provider : Text → Option Text
unfolding starts_with_any
prefix_provider lower_model =
    if starts_with_any lower_model (codes "gpt-" ∷ codes "o1" ∷ codes "o3" ∷ codes "o4" ∷ [])
    then some (codes "openai")
    else if starts_with_any lower_model (codes "claude-" ∷ [])
    then some (codes "anthropic")
    else if starts_with_any lower_model (codes "gemini-" ∷ [])
    then some (codes "gemini")
    else if starts_with_any lower_model (codes "grok" ∷ [])
    then some (codes "xai")
    else if starts_with_any lower_model (codes "mistral" ∷ codes "codestral" ∷ [])
    then some (codes "mistral")
    else if starts_with_any lower_model (codes "llama" ∷ codes "phi" ∷ codes "qwen" ∷ [])
    then some (codes "ollama")
    else none

abbrev pub first_provider : Option Text → Option Text → Option Text
first_provider (some p) q = some p
first_provider none q = q

unfoldable pub detect_provider_from_model : Text → Option Text
unfolding exact_provider prefix_provider lower
detect_provider_from_model model =
    first_provider (exact_provider model) (prefix_provider (lower model))

module _ {ℓ} {R : Type ℓ} (make_router : Text → Text → Text → Option R) where
  abbrev pub made_or : R → Option R → R
  made_or server none = server
  made_or server (some router) = router

  abbrev pub router_for : R → Option Text → Text → Text → R
  router_for server none model key = server
  router_for server (some provider) model key = made_or server (make_router provider key model)

  -- An empty key or hint is `none`.
  unfoldable pub resolve_router : R → Text → Option Text → Option Text → R
  unfolding detect_provider_from_model
  resolve_router server model none endpoint_hint = server
  resolve_router server model (some key) endpoint_hint =
      router_for server (first_provider (detect_provider_from_model model) endpoint_hint) model key

  -- A hint decides only where the name of the model does not.
  pub resolve_router-detected :
      (server : R) (model key provider : Text) (endpoint_hint : Option Text)
      → detect_provider_from_model model ≡ some provider
      → resolve_router server model (some key) endpoint_hint
        ≡ made_or server (make_router provider key model)
  unfolding resolve_router
  resolve_router-detected server model key provider endpoint_hint h =
      ap (λ p. router_for server (first_provider p endpoint_hint) model key) h
