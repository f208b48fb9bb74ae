-- ===== src/Tests/StoringTests.antt =====
-- An answer stored in a cache of two, with an eviction due (core/bitmod/cache_engine.py).
use bit_mod_ai_inference_cac.Strings.{Text}
use bit_mod_ai_inference_cac.Prelude.{
  refl, ◌≤◌, ◌%◌, take, true, ◌≡◌, none, some, [], ℕ_discrete, ◌∷◌, ◌+◌, arith, ℕ,
}
use bit_mod_ai_inference_cac.Cache.{at, Row, Db}
use bit_mod_ai_inference_cac.Cache.Table.{Distinct}
use bit_mod_ai_inference_cac.Cache.Evict.{store_answer, cache_count}
use bit_mod_ai_inference_cac.Cache.Evict.Storing.{store_answer_bounded}

abbrev kept_answer : ℕ → Row ℕ Text
kept_answer id = record {
  id = id;
  answer_key = 10 + id;
  answer_text = id ∷ [];
  source_sections = [];
  temporal_scope = none;
  namespace_id = none;
  max_age_seconds = none;
  created_at = at 10;
  is_valid = true;
  serve_count = id;
  last_served_at = none;
  invalidated_at = none;
  invalidation_reason = none;
}

abbrev uses : Row ℕ Text → ℕ
uses r = r.serve_count

abbrev encrypt : Text → Text
encrypt t = 0 ∷ t

abbrev cache : Db ℕ Text ℕ
cache = record { rows = kept_answer 4 ∷ kept_answer 5 ∷ []; embeddings = []; sections = [] }

cache-Distinct : Distinct cache.rows
cache-Distinct = ((record { ids = omega arith; keys = omega arith }, tt), (tt, tt))

store_answer_bounded_example :
    (s : ℕ × Db ℕ Text ℕ) × (store_answer ℕ_discrete encrypt uses 20
        (kept_answer 3)
        (some 7)
        2
        100
        (299, cache)
      ≡ some (record (kept_answer 3) { answer_text = encrypt (take 100000 (3 ∷ [])) }, s))
    × (s.0 ≡ 299 + 1)
    × Distinct s.1.rows
    × ((299 + 1) % 100 ≡ 0 → cache_count s.1 ≤ 2)
unfolding ℕ_discrete
store_answer_bounded_example =
    store_answer_bounded ℕ_discrete encrypt uses 20 (kept_answer 3) (some 7) 2 100 299 cache
      (omega arith) cache-Distinct refl

-- The new answer is the least used: it is evicted at once, and its embedding is not kept.
evicted_at_once :
    store_answer ℕ_discrete encrypt uses 20 (kept_answer 3) (some 7) 2 100 (299, cache)
    ≡ some (record (kept_answer 3) { answer_text = 0 ∷ 3 ∷ [] }, (300, cache))
unfolding store_answer ℕ_discrete
evicted_at_once = refl
