-- ===== src/Tests/EvidenceTests.antt =====
-- Evidence of three layers and its total, and the gate (core/bitmod/cache_engine.py, core/bitmod/cache_qualify.py).
use bit_mod_ai_inference_cac.Qualify.Matches.{qualify_cache_hit_iff, NeedsContext}
use bit_mod_ai_inference_cac.Evidence.Best.{best_single_answer_lem, IsChosen}
use bit_mod_ai_inference_cac.Strings.{codes}
use bit_mod_ai_inference_cac.Prelude.{◌↔◌, false, none, refl, true, [], some, ◌≡◌, arith, ◌∷◌, Bool}
use bit_mod_ai_inference_cac.Qualify.{qualify_cache_hit}
use bit_mod_ai_inference_cac.Evidence.Total.{add_lem, LeRatio, IsProper, IsSound}
use mathlib.Core.List.{Memᴰ}
use bit_mod_ai_inference_cac.Evidence.{
  ratio, lt_ratio, add, minus, plus, semantic_confidence, best_single_answer, reaches,
  recompute_confidence, PipelineEvidence, CacheEvidence, Confidence, Layer,
}

abbrev piece : Layer → Confidence → Bool → CacheEvidence
piece layer confidence is_partial = record {
  layer = layer;
  confidence = confidence;
  answer_text = codes "Paris";
  record_id = some (codes "a");
  similarity = 93;
  is_partial = is_partial;
  sub_query = [];
  link_id = none;
}

abbrev similar : CacheEvidence
similar = piece Layer.semantic (plus (ratio 3 4)) false

abbrev answered : CacheEvidence
answered = piece Layer.composable (plus (ratio 85 100)) true

abbrev doubted : CacheEvidence
doubted = piece Layer.promotion_verify (minus (ratio 1 2)) false

abbrev two_pieces : PipelineEvidence
two_pieces = record { evidences = similar ∷ answered ∷ []; total_confidence = ratio 385 400 }

two_pieces-IsSound : IsSound two_pieces
unfolding recompute_confidence
two_pieces-IsSound = record {
  in_range = ((omega arith, omega arith), ((omega arith, omega arith), tt));
  total = refl;
}

-- Without counter-evidence it would be served.
confident : reaches 95 two_pieces.total_confidence ≡ true
unfolding reaches
confident = refl

add_lem_example :
    IsSound (add doubted two_pieces)
    × IsProper (add doubted two_pieces).total_confidence
    × LeRatio (add doubted two_pieces).total_confidence two_pieces.total_confidence
add_lem_example = add_lem doubted two_pieces two_pieces-IsSound (omega arith, omega arith)

best_single_answer_lem_example :
    ((b : CacheEvidence)
      → best_single_answer two_pieces ≡ some b
      → Memᴰ b two_pieces.evidences × IsChosen b two_pieces.evidences)
    × ((best_single_answer two_pieces ≡ none) ↔ ((false ≡ true) × ((true ≡ true) × Unit {0})))
best_single_answer_lem_example =
    best_single_answer_lem two_pieces ((omega arith, omega arith), ((omega arith, omega arith), tt))

-- The partial evidence of the higher confidence is passed over.
picks_whole : best_single_answer two_pieces ≡ some similar
unfolding best_single_answer
picks_whole = refl

-- The curve falls where its third piece meets the second.
falls_at_bend :
    lt_ratio (semantic_confidence 100000 92000) (semantic_confidence 100000 91999) ≡ true
unfolding semantic_confidence
falls_at_bend = refl

qualify_cache_hit_iff_example :
    ((qualify_cache_hit (codes "What is the right to privacy?") (codes "Paris") []).serve ≡ false)
    ↔ NeedsContext (codes "What is the right to privacy?") []
qualify_cache_hit_iff_example =
    qualify_cache_hit_iff (codes "What is the right to privacy?") (codes "Paris") []

-- A query that says all it needs is kept from the cache by one of its words.
kept_back :
    (qualify_cache_hit (codes "What is the right to privacy?") (codes "Paris") []).serve ≡ false
unfolding qualify_cache_hit
kept_back = refl

let_through :
    (qualify_cache_hit (codes "What is the capital of France?") (codes "Paris") []).serve ≡ true
unfolding qualify_cache_hit
let_through = refl
