-- ===== src/Tests/CacheTests.antt =====
-- The answer cache on two rows (core/bitmod/cache_engine.py, core/bitmod/adapters/db_sqlite.py).
use bit_mod_ai_inference_cac.Cache.Change.{
  process_change_event_lem, changed, unchanged, process_change_event,
}
use bit_mod_ai_inference_cac.Cache.Table.{Distinct}
use bit_mod_ai_inference_cac.Cache.Engine.{is_expired, double_verify}
use bit_mod_ai_inference_cac.Cache.Backend.{get_section_version_hash}
use bit_mod_ai_inference_cac.Cache.Serve.{try_cache_served_iff, Servable, try_cache_refused}
use bit_mod_ai_inference_cac.Cache.Sections.{
  invalidate_by_section_lem, edited_section_refused, IsComplete,
}
use bit_mod_ai_inference_cac.Cache.Backend.{
  count_where, cache_increment_serve, cites, inserted, update_section_content, cache_store,
  cache_invalidate_by_section, cache_lookup,
}
use bit_mod_ai_inference_cac.Cache.Engine.{is_temporal_query, try_cache}
use bit_mod_ai_inference_cac.Cache.{at, Source, Row, Db}
use bit_mod_ai_inference_cac.Prelude.{
  ◌⊎◌, refl, ◌≢◌, ◌↔◌, Bool, true, All, false, none, some, [], ◌+◌, ◌≡◌, ℕ_discrete, arith, List,
  ◌∷◌, ℕ,
}

abbrev row : ℕ → ℕ → ℕ → Row ℕ ℕ
row id key hash = record {
  id = id;
  answer_key = key;
  answer_text = 100 + id;
  source_sections = record { section_id = some 70; version_hash = some hash } ∷ [];
  temporal_scope = none;
  namespace_id = none;
  max_age_seconds = some 60;
  created_at = at 10;
  is_valid = true;
  serve_count = 0;
  last_served_at = none;
  invalidated_at = none;
  invalidation_reason = none;
}

abbrev db : Db ℕ ℕ ℕ
db = record {
  rows = row 1 11 5 ∷ row 2 12 4 ∷ [];
  embeddings = [];
  sections = record { id = 70; version_hash = 5; is_current = true } ∷ [];
}

abbrev decrypt : ℕ → ℕ
decrypt t = t

abbrev like : ℕ → List (Source ℕ) → Bool
like section ss = true

db-Distinct : Distinct db.rows
db-Distinct = ground arith

-- The first row is served, the second one's section has moved on, and a late reading expires both.
cache_runs :
    ((try_cache ℕ_discrete 50 decrypt db 11).1 ≡ some (row 1 11 5))
    × ((try_cache ℕ_discrete 50 decrypt db 12).1 ≡ none)
    × ((try_cache ℕ_discrete 71 decrypt db 11).1 ≡ none)
unfolding try_cache ℕ_discrete cache_lookup is_expired is_temporal_query double_verify
    get_section_version_hash
cache_runs = (refl, refl, refl)

try_cache_served_iff_example : ((try_cache ℕ_discrete 50 decrypt db 11).1 ≡ some (row 1 11 5)) ↔ (
    (cached : Row ℕ ℕ) × (cache_lookup ℕ_discrete db 11 ≡ some cached)
    × Servable ℕ_discrete 50 decrypt db cached
    × (row 1 11 5 ≡ record cached { answer_text = decrypt cached.answer_text })
    × ((try_cache ℕ_discrete 50 decrypt db 11).0
        ≡ cache_increment_serve ℕ_discrete 50 db cached.id))
try_cache_served_iff_example = try_cache_served_iff ℕ_discrete 50 decrypt db 11 (row 1 11 5)

try_cache_refused_example :
    ((try_cache ℕ_discrete 71 decrypt db 11).1 ≡ none
      → cache_lookup ℕ_discrete (try_cache ℕ_discrete 71 decrypt db 11).0 11 ≡ none)
    × Distinct (try_cache ℕ_discrete 71 decrypt db 11).0.rows
try_cache_refused_example = try_cache_refused ℕ_discrete 71 decrypt db 11 db-Distinct

found : cache_lookup ℕ_discrete db 11 ≡ some (row 1 11 5)
unfolding cache_lookup ℕ_discrete
found = refl

not_temporal : is_temporal_query (row 1 11 5) ≡ false
unfolding is_temporal_query
not_temporal = refl

edited_section_refused_example :
    let after = try_cache ℕ_discrete 50 decrypt (update_section_content ℕ_discrete db 70 6) 11 in
    (after.1 ≡ none)
    × ((h : ℕ)
        → (try_cache ℕ_discrete 50 decrypt (update_section_content ℕ_discrete after.0 70 h) 11).1
          ≡ none)
edited_section_refused_example =
    edited_section_refused ℕ_discrete 50 decrypt db 11 (row 1 11 5) 0
      (record { section_id = some 70; version_hash = some 5 }) 70 5 6 db-Distinct found not_temporal
      refl refl refl (omega arith)

like-IsComplete : IsComplete ℕ_discrete like
like-IsComplete section ss h = refl

invalidate_by_section_lem_example :
    let after = cache_invalidate_by_section ℕ_discrete like 50 db 70 in
    All
      (λ (r : Row ℕ ℕ). r.is_valid ≡ true → cites ℕ_discrete 70 r.source_sections ≡ false)
      after.0.rows
    × (count_where (λ (r : Row ℕ ℕ). r.is_valid) after.0.rows + after.1
        ≡ count_where (λ (r : Row ℕ ℕ). r.is_valid) db.rows)
    × Distinct after.0.rows
    × ((k : ℕ) (r : Row ℕ ℕ)
        → cache_lookup ℕ_discrete db k ≡ some r
        → cites ℕ_discrete 70 r.source_sections ≡ false
        → cache_lookup ℕ_discrete after.0 k ≡ some r)
invalidate_by_section_lem_example =
    invalidate_by_section_lem ℕ_discrete like 50 like-IsComplete db 70 db-Distinct

-- A third answer under the key of the first, which it replaces.
abbrev replaced : Db ℕ ℕ ℕ
replaced = record db { rows = row 2 12 4 ∷ inserted 60 (row 3 11 5) ∷ [] }

replacing : cache_store ℕ_discrete 60 db (row 3 11 5) ≡ some replaced
unfolding cache_store ℕ_discrete
replacing = refl

abbrev sha256 : ℕ → ℕ
sha256 t = t

process_change_event_lem_example :
    let after = process_change_event ℕ_discrete sha256 like 50 db 70 9 in
    let old_hash = get_section_version_hash ℕ_discrete db 70 in
    (get_section_version_hash ℕ_discrete after.0 70 ≡ old_hash)
    × (((old_hash ≡ some (sha256 9)) × (after ≡ (db, unchanged)))
        ⊎ ((old_hash ≢ some (sha256 9))
            × (n : ℕ) × (after.1 ≡ changed old_hash (sha256 9) n)
            × All
                (λ (r : Row ℕ ℕ). r.is_valid ≡ true → cites ℕ_discrete 70 r.source_sections ≡ false)
                after.0.rows
            × (count_where (λ (r : Row ℕ ℕ). r.is_valid) after.0.rows + n
                ≡ count_where (λ (r : Row ℕ ℕ). r.is_valid) db.rows)))
process_change_event_lem_example =
    process_change_event_lem ℕ_discrete sha256 like 50 db 70 9 like-IsComplete db-Distinct
