-- ===== src/Cache/Engine.antt =====
-- core/bitmod/cache_engine.py: `_is_expired`, `double_verify`, `is_temporal_query`, and
-- `try_cache`. An operation on the backend returns the new database; `now` is the
-- clock's reading during the call, and `decrypt` is `decrypt_if_needed`.
use bit_mod_ai_inference_cac.Prelude.{
  equal, ℕ, ◌+◌, List, [], ◌∷◌, Bool, true, false, Option, none, some, ltb, if◌then◌else◌,
}
use bit_mod_ai_inference_cac.Cache.{
  Source, Created, absent, malformed, at, ttl_expired, no_version_hash, version_changed, Row, Db,
}
use bit_mod_ai_inference_cac.Cache.Backend.{
  get_section_version_hash, cache_lookup, cache_invalidate, cache_increment_serve,
}

expired_since : ℕ → ℕ → Created → Bool
expired_since now max_age absent = true
expired_since now max_age malformed = false
expired_since now max_age (at created) = ltb (created + max_age) now

-- `current_hash is None or current_hash != expected_hash`, negated
abbrev pub hash_matches {ℓ} : {K : Type ℓ} → Discrete K → Option K → K → Bool
hash_matches dec none expected = false
hash_matches dec (some current) expected = equal dec current expected

module _ {ℓ} {K T : Type ℓ} where
  unfoldable pub is_expired : ℕ → Row K T → Bool
  unfolding expired_since
  is_expired now cached = elim cached.max_age_seconds [
    | none ↦ false
    | some max_age ↦ expired_since now max_age cached.created_at
  ]

  unfoldable pub is_temporal_query : Row K T → Bool
  is_temporal_query cached = elim cached.temporal_scope [ none ↦ false | some _ ↦ true ]

module _ {ℓ} {K T V : Type ℓ} (dec : Discrete K) (now : ℕ) where
  -- The loop over the sources of the entry `id`.
  unfoldable pub verify_sources : Db K T V → K → List (Source K) → Db K T V × Bool
  verify_sources db id [] = (db, true)
  verify_sources db id (s ∷ ss) =
      let rest = verify_sources db id ss in
      elim s.section_id [
        | none ↦ rest
        | some k ↦ elim s.version_hash [
          | none ↦ (cache_invalidate dec now db id (no_version_hash k), false)
          | some expected ↦
              if hash_matches dec (get_section_version_hash dec db k) expected
              then rest
              else (cache_invalidate dec now db id (version_changed k), false)
        ]
      ]

  unfoldable pub double_verify : Db K T V → Row K T → Db K T V × Bool
  unfolding verify_sources
  double_verify db cached = verify_sources db cached.id cached.source_sections

  module _ (decrypt : T → T) where
    unfoldable pub serve : Db K T V → Row K T → Db K T V × Option (Row K T)
    serve db cached = (
      cache_increment_serve dec now db cached.id,
      some (record cached { answer_text = decrypt cached.answer_text }),
    )

    unfoldable pub use_cached : Db K T V → Row K T → Db K T V × Option (Row K T)
    use_cached db cached =
        if is_expired now cached
        then (cache_invalidate dec now db cached.id ttl_expired, none)
        else if is_temporal_query cached
        then serve db cached
        else (let (db', fresh) = double_verify db cached in
            if fresh then serve db' cached else (db', none))

    -- `answer_key` is `compute_answer_key(query, filters, namespace_id=namespace_id)`.
    unfoldable pub try_cache : Db K T V → K → Db K T V × Option (Row K T)
    unfolding use_cached serve
    try_cache db answer_key = elim (cache_lookup dec db answer_key) [
      | none ↦ (db, none)
      | some cached ↦ use_cached db cached
    ]
