-- ===== src/Cache/Cost.antt =====
-- core/bitmod/cache_engine.py: `estimate_generation_cost`. Costs are in hundred-thousandths of a dollar for 1000
-- tokens, and four characters are a token, so that the estimate, before it is rounded, is a fraction with
-- the denominator 400,000,000.
use bit_mod_ai_inference_cac.Prelude.{◌+◌, ◌*◌, if◌then◌else◌, [], length, ◌∷◌, ℕ, List}
use bit_mod_ai_inference_cac.Strings.{Text, codes, lower, starts_with}

-- `_MODEL_COST_PER_1K`: the costs of the input and of the output.
abbrev pub model_cost_per_1k : List (Text × (ℕ × ℕ))
model_cost_per_1k =
    (codes "gpt-4o", (250, 1000))
    ∷ (codes "gpt-4o-mini", (15, 60))
    ∷ (codes "gpt-4-turbo", (1000, 3000))
    ∷ (codes "gpt-4", (3000, 6000))
    ∷ (codes "gpt-3.5-turbo", (50, 150))
    ∷ (codes "claude-3-opus", (1500, 7500))
    ∷ (codes "claude-3-5-sonnet", (300, 1500))
    ∷ (codes "claude-3-haiku", (25, 125))
    ∷ (codes "claude-opus-4", (1500, 7500))
    ∷ (codes "claude-sonnet-4", (300, 1500))
    ∷ (codes "gemini-2.5-pro", (125, 1000))
    ∷ (codes "gemini-2.0-flash", (10, 100))
    ∷ (codes "gemini-1.5-pro", (125, 700))
    ∷ []

-- The loop over the table: the first prefix that fits.
unfoldable pub costs_of : Text → List (Text × (ℕ × ℕ)) → ℕ × ℕ
unfolding starts_with lower
costs_of model_lower [] = (0, 0)
costs_of model_lower ((prefix, costs) ∷ models) =
    let rest = costs_of model_lower models in
    if starts_with (lower prefix) model_lower then costs else rest

-- The numerator of the estimate.
unfoldable pub estimate_generation_cost : Text → Text → Text → ℕ
unfolding costs_of lower
estimate_generation_cost model_used answer_text input_text =
    let costs = costs_of (lower model_used) model_cost_per_1k in
    length input_text * costs.0 + length answer_text * costs.1
