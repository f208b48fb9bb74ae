-- ===== src/Tests/SemanticTests.antt =====
-- A semantic lookup among three answers of two tenants (core/bitmod/cache_engine.py).
use bit_mod_ai_inference_cac.Cache.Bulk.{bulk_verify_sources}
use bit_mod_ai_inference_cac.Cache.Backend.{
  cache_invalidate, cache_lookup, get_section_version_hash,
}
use bit_mod_ai_inference_cac.Prelude.{
  false, List, refl, true, ◌⊎◌, [], none, ◌≡◌, some, min, ◌∷◌, ◌+◌, ℕ_discrete, arith, ℕ,
}
use bit_mod_ai_inference_cac.Cache.{at, Row, Db, Section}
use bit_mod_ai_inference_cac.Cache.Table.{Distinct}
use bit_mod_ai_inference_cac.Cache.Engine.{is_expired, double_verify}
use bit_mod_ai_inference_cac.Cache.Semantic.{
  semantic_cache_match, semantic_cache_search, try_composable_cache, SubQuery,
}
use bit_mod_ai_inference_cac.Cache.Semantic.Best.{semantic_cache_match_lem, IsServed, IsMissed}

abbrev answer_of : ℕ → ℕ → Row ℕ ℕ
answer_of id namespace = record {
  id = id;
  answer_key = 10 + id;
  answer_text = 100 + id;
  source_sections = record { section_id = some 70; version_hash = some 1 } ∷ [];
  temporal_scope = none;
  namespace_id = some namespace;
  max_age_seconds = some 20;
  created_at = at (10 + id);
  is_valid = true;
  serve_count = 0;
  last_served_at = none;
  invalidated_at = none;
  invalidation_reason = none;
}

-- The section that all cite has another hash by now.
abbrev tenants : Db ℕ ℕ ℕ
tenants = record {
  rows = answer_of 1 8 ∷ answer_of 2 9 ∷ answer_of 3 8 ∷ [];
  embeddings = (1, 40) ∷ (2, 60) ∷ (3, 50) ∷ [];
  sections = record { id = 70; version_hash = 2; is_current = true } ∷ [];
}

tenants-Distinct : Distinct tenants.rows
tenants-Distinct = (
  (
    record { ids = omega arith; keys = omega arith },
    (record { ids = omega arith; keys = omega arith }, tt),
  ),
  ((record { ids = omega arith; keys = omega arith }, tt), (tt, tt)),
)

abbrev plain : ℕ → ℕ
plain t = t

abbrev nearness : ℕ → ℕ → ℕ
nearness a b = min a b

semantic_cache_match_lem_example :
    let result =
      semantic_cache_match ℕ_discrete 900 plain nearness 45 9 (some 8) (some 80) tenants in
    (IsServed ℕ_discrete 900 plain nearness 45 9 (some 8) 80 tenants result
      ⊎ IsMissed ℕ_discrete 900 plain nearness 45 9 (some 8) 80 tenants result)
    × ((now' : ℕ) (sections : List (Section ℕ))
        → (semantic_cache_match ℕ_discrete now' plain nearness 45 9
            (some 8)
            (some 80)
            (record tenants { sections = sections })).1
          ≡ result.1)
semantic_cache_match_lem_example =
    semantic_cache_match_lem ℕ_discrete 900 plain nearness 45 9 (some 8) 80 tenants tenants-Distinct

served_scoped :
    (semantic_cache_match ℕ_discrete 900 plain nearness 45 9 (some 8) (some 80) tenants).1
    ≡ some (answer_of 3 8)
unfolding semantic_cache_match ℕ_discrete
served_scoped = refl

-- What is served has expired, and its source has changed.
stale :
    (is_expired 900 (answer_of 3 8) ≡ true)
    × ((double_verify ℕ_discrete 900 tenants (answer_of 3 8)).1 ≡ false)
unfolding is_expired double_verify get_section_version_hash ℕ_discrete
stale = (refl, refl)

-- Without a namespace the lookup sees the answers of all.
served_unscoped :
    (semantic_cache_match ℕ_discrete 900 plain nearness 45 9 none (some 80) tenants).1
    ≡ some (answer_of 2 9)
unfolding semantic_cache_match ℕ_discrete
served_unscoped = refl

searched :
    semantic_cache_search ℕ_discrete 900 plain nearness 45 1 9 none (some 80) none tenants
    ≡ (answer_of 2 9, 60) ∷ []
unfolding semantic_cache_search ℕ_discrete
searched = refl

abbrev near : SubQuery ℕ ℕ
near = record { query = 99; answer_key = 99; plain_key = none; embedding = some 80 }

abbrev far : SubQuery ℕ ℕ
far = record { query = 98; answer_key = 98; plain_key = some 97; embedding = some 3 }

composed :
    (try_composable_cache ℕ_discrete 900 plain nearness 45 9
      (some 8)
      (some (near ∷ far ∷ []))
      tenants).1
    ≡ some (record { hits = (near, answer_of 3 8) ∷ []; misses = far ∷ [] }, (true, false))
unfolding try_composable_cache cache_lookup ℕ_discrete
composed = refl

-- All three answers cite an old hash; without the method they count as checked, and none is invalidated.
unverified : bulk_verify_sources ℕ_discrete 900 none tenants ≡ (tenants, (3, 0))
unfolding bulk_verify_sources
unverified = refl

verified : (bulk_verify_sources ℕ_discrete 900 (some (λ db. db.rows)) tenants).1 ≡ (3, 3)
unfolding bulk_verify_sources get_section_version_hash cache_invalidate ℕ_discrete
verified = refl
