-- ===== src/Tests/EvictionTests.antt =====
-- Eviction from a cache of three answers (core/bitmod/adapters/db_sqlite.py).
use bit_mod_ai_inference_cac.Prelude.{
  ◌≤◌, true, ◌*◌, All, some, refl, ◌-◌, none, min, [], ◌≡◌, ◌∷◌, ◌+◌, ℕ_discrete, arith, ℕ,
}
use bit_mod_ai_inference_cac.Cache.{at, Row, Db}
use bit_mod_ai_inference_cac.Cache.Backend.{has_id, select_one}
use bit_mod_ai_inference_cac.Cache.Table.{Distinct}
use bit_mod_ai_inference_cac.Cache.Evict.{
  cache_evict_lru, cache_delete_expired, cache_count, maybe_evict,
}
use bit_mod_ai_inference_cac.Cache.Evict.Limit.{cache_evict_lru_lem}

abbrev answer : ℕ → ℕ → Row ℕ ℕ
answer id uses = record {
  id = id;
  answer_key = 10 + id;
  answer_text = 100 + id;
  source_sections = [];
  temporal_scope = none;
  namespace_id = none;
  max_age_seconds = some (20 * id);
  created_at = at 10;
  is_valid = true;
  serve_count = uses;
  last_served_at = none;
  invalidated_at = none;
  invalidation_reason = none;
}

abbrev uses : Row ℕ ℕ → ℕ
uses r = r.serve_count

abbrev answers : Db ℕ ℕ ℕ
answers = record {
  rows = answer 1 5 ∷ answer 2 0 ∷ answer 3 4 ∷ [];
  embeddings = (2, 7) ∷ (3, 8) ∷ [];
  sections = [];
}

answers-Distinct : Distinct answers.rows
answers-Distinct = (
  (
    record { ids = omega arith; keys = omega arith },
    (record { ids = omega arith; keys = omega arith }, tt),
  ),
  ((record { ids = omega arith; keys = omega arith }, tt), (tt, tt)),
)

cache_evict_lru_lem_example :
    let (after, deleted) = cache_evict_lru ℕ_discrete uses answers 1 in
    (cache_count after ≡ min (cache_count answers) 1)
    × (deleted ≡ cache_count answers - cache_count after)
    × All
        (λ q.
          q.is_valid ≡ true
          → select_one (has_id ℕ_discrete q.id) after.rows ≡ none
          → All (λ r. r.is_valid ≡ true → uses q ≤ uses r) after.rows)
        answers.rows
cache_evict_lru_lem_example = cache_evict_lru_lem ℕ_discrete uses answers 1 answers-Distinct

evicts :
    cache_evict_lru ℕ_discrete uses answers 1
    ≡ (record answers { rows = answer 1 5 ∷ []; embeddings = [] }, 2)
unfolding cache_evict_lru ℕ_discrete
evicts = refl

expires :
    cache_delete_expired ℕ_discrete 31 answers
    ≡ (record answers { rows = answer 2 0 ∷ answer 3 4 ∷ [] }, 1)
unfolding cache_delete_expired ℕ_discrete
expires = refl

-- The third write, with an interval of 3, evicts.
due :
    (maybe_evict ℕ_discrete uses 31 1 3 (2, answers)).1
    ≡ record answers { rows = answer 3 4 ∷ []; embeddings = (3, 8) ∷ [] }
unfolding maybe_evict ℕ_discrete
due = refl
