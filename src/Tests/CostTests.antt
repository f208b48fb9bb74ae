-- ===== src/Tests/CostTests.antt =====
-- Estimates of the cost of a model (core/bitmod/cache_engine.py).
use bit_mod_ai_inference_cac.Prelude.{◌+◌, refl, ◌*◌, ◌≡◌}
use bit_mod_ai_inference_cac.Strings.{codes}
use bit_mod_ai_inference_cac.Cache.Cost.{estimate_generation_cost}

-- The smaller model is priced as the one whose name is a prefix of its own.
mini :
    estimate_generation_cost (codes "GPT-4o-mini") (codes "an answer") (codes "query")
    ≡ 5 * 250 + 9 * 1000
unfolding estimate_generation_cost
mini = refl

unpriced : estimate_generation_cost (codes "llama3") (codes "an answer") (codes "query") ≡ 0
unfolding estimate_generation_cost
unpriced = refl
