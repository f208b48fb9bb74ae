-- ===== src/Cache/Serve.antt =====
-- `try_cache` of core/bitmod/cache_engine.py serves an entry just if it is valid, not expired, and
-- temporal or up to date with its sources.
use bit_mod_ai_inference_cac.Cache.Lookup.{
  cache_invalidate-Distinct, lookup-invalidate_self, cache_increment_serve-Distinct,
}
use bit_mod_ai_inference_cac.Cache.Table.{Distinct}
use bit_mod_ai_inference_cac.Cache.Backend.{
  cache_lookup, cache_increment_serve, get_section_version_hash, cache_invalidate,
}
use bit_mod_ai_inference_cac.Cache.Engine.{
  try_cache, serve, is_temporal_query, double_verify, is_expired, use_cached, hash_matches,
  verify_sources,
}
use bit_mod_ai_inference_cac.Cache.{
  ttl_expired, Row, version_changed, no_version_hash, Reason, Source, Db,
}
use bit_mod_ai_inference_cac.Prelude.{
  ◌↔◌, refl, Bool-cases, none, ◌∙◌, inr, arith, some, inl, Option-cases, Option, [], ◌∷◌, false,
  ◌⊎◌, All, true, ◌≡◌, List, ℕ,
}

pub matches {ℓ} :
    {K : Type ℓ} (dec : Discrete K) (o : Option K) {h : K}
    → hash_matches dec o h ≡ true
    → o ≡ some h
matches dec none m = absurd (ground arith)
matches dec (some c) m = ground arith

module _ {ℓ} {K T V : Type ℓ} (dec : Discrete K) (now : ℕ) where
  -- A source that is not named, or whose hash is that of the current section.
  abbrev pub HashCurrent : Db K T V → Option K → Option K → Type ℓ
  HashCurrent db none hash = Unit
  HashCurrent db (some section_id) hash =
      (h : K) × (hash ≡ some h) × (get_section_version_hash dec db section_id ≡ some h)

  abbrev pub SourceCurrent : Db K T V → Source K → Type ℓ
  SourceCurrent db s = HashCurrent db s.section_id s.version_hash

  missing :
      (db : Db K T V) (s : Source K) {k : K}
      → s.section_id ≡ some k
      → s.version_hash ≡ none
      → ¬ SourceCurrent db s
  missing db s e f h = let (x, p, q) = rw e at h in cc

  changed :
      (db : Db K T V) (s : Source K) {k expected : K}
      → s.section_id ≡ some k
      → s.version_hash ≡ some expected
      → hash_matches dec (get_section_version_hash dec db k) expected ≡ false
      → ¬ SourceCurrent db s
  changed db s e f m h = let (x, p, q) = rw e at h in ground arith

  -- What the loop does at one source.
  record Passes (db : Db K T V) (id : K) (s : Source K) (ss : List (Source K)) : Type ℓ where
    current : SourceCurrent db s
    goes_on : verify_sources dec now db id (s ∷ ss) ≡ verify_sources dec now db id ss

  record Fails (db : Db K T V) (id : K) (ss : List (Source K)) : Type ℓ where
    reason : Reason K
    stale : ¬ All (SourceCurrent db) ss
    ends : verify_sources dec now db id ss ≡ (cache_invalidate dec now db id reason, false)

  source_cases :
      (db : Db K T V) (id : K) (s : Source K) (ss : List (Source K))
      → Passes db id s ss ⊎ Fails db id (s ∷ ss)
  unfolding verify_sources
  source_cases db id s ss = elim (Option-cases s.section_id) [
    | inl e ↦ inl (record { current = rw e tt; goes_on = ground arith })
    | inr (k, e) ↦ elim (Option-cases s.version_hash) [
      | inl f ↦ inr (record {
        reason = no_version_hash k;
        stale = λ h. missing db s e f h.0;
        ends = ground arith;
      })
      | inr (expected, f) ↦
          elim (Bool-cases (hash_matches dec (get_section_version_hash dec db k) expected)) [
            | inl m ↦ inl (record {
              current = rw e (expected, f, matches dec (get_section_version_hash dec db k) m);
              goes_on = ground arith;
            })
            | inr m ↦ inr (record {
              reason = version_changed k;
              stale = λ h. changed db s e f m h.0;
              ends = ground arith;
            })
          ]
    ]
  ]

  verify_sources_lem :
      (db : Db K T V) (id : K) (ss : List (Source K))
      → ((verify_sources dec now db id ss ≡ (db, true)) × All (SourceCurrent db) ss)
        ⊎ Fails db id ss
  unfolding verify_sources
  verify_sources_lem db id [] = inl (refl, tt)
  verify_sources_lem db id (s ∷ ss) = elim (source_cases db id s ss) [
    | inr f ↦ inr f
    | inl p ↦ elim (verify_sources_lem db id ss) [
      | inl (e, a) ↦ inl (p.goes_on ∙ e, (p.current, a))
      | inr f ↦
          inr (record { reason = f.reason; stale = λ h. f.stale h.1; ends = p.goes_on ∙ f.ends })
    ]
  ]

  module _ (decrypt : T → T) where
    -- The entry may be served.
    pub record Servable (db : Db K T V) (cached : Row K T) : Type ℓ where
      pub alive : is_expired now cached ≡ false
      pub up_to_date :
          (is_temporal_query cached ≡ true) ⊎ All (SourceCurrent db) cached.source_sections

    use_cached_served :
        (db : Db K T V) (cached : Row K T)
        → Servable db cached
        → use_cached dec now decrypt db cached ≡ (
          cache_increment_serve dec now db cached.id,
          some (record cached { answer_text = decrypt cached.answer_text }),
        )
    unfolding use_cached double_verify serve
    use_cached_served db cached h = elim h.up_to_date [
      | inl t ↦ ground arith
      | inr a ↦ elim (verify_sources_lem db cached.id cached.source_sections) [
        | inl (e, _) ↦ ground arith
        | inr f ↦ absurd (f.stale a)
      ]
    ]

    use_cached_refused :
        (db : Db K T V) (cached : Row K T)
        → ((use_cached dec now decrypt db cached ≡ (
          cache_increment_serve dec now db cached.id,
          some (record cached { answer_text = decrypt cached.answer_text }),
        ))
            × Servable db cached)
          ⊎ ((reason : Reason K) × (use_cached dec now decrypt db cached
                ≡ (cache_invalidate dec now db cached.id reason, none)))
    unfolding use_cached double_verify serve
    use_cached_refused db cached = elim (Bool-cases (is_expired now cached)) [
      | inl x ↦ inr (ttl_expired, ground arith)
      | inr x ↦ elim (Bool-cases (is_temporal_query cached)) [
        | inl t ↦ inl (ground arith, record { alive = x; up_to_date = inl t })
        | inr t ↦ elim (verify_sources_lem db cached.id cached.source_sections) [
          | inl (e, a) ↦ inl (ground arith, record { alive = x; up_to_date = inr a })
          | inr f ↦ inr (f.reason, (let ends = f.ends in ground arith))
        ]
      ]
    ]

    -- `try_cache` gives a record exactly if the key has a valid entry that has not expired and is
    -- temporal or up to date with every section that it cites; the record is that entry with its
    -- text decrypted, and of the database only the entry's count and time of serving are changed.
    pub try_cache_served_iff :
        (db : Db K T V) (k : K) (r : Row K T)
        → ((try_cache dec now decrypt db k).1 ≡ some r) ↔ (
            (cached : Row K T) × (cache_lookup dec db k ≡ some cached)
            × Servable db cached
            × (r ≡ record cached { answer_text = decrypt cached.answer_text })
            × ((try_cache dec now decrypt db k).0 ≡ cache_increment_serve dec now db cached.id))
    unfolding try_cache
    try_cache_served_iff db k r = (
      λ h. elim (Option-cases (cache_lookup dec db k)) [
        | inl e ↦ absurd (ground arith)
        | inr (cached, e) ↦ elim (use_cached_refused db cached) [
          | inl (u, s) ↦ (cached, e, s, ground arith, ground arith)
          | inr (reason, u) ↦ absurd (ground arith)
        ]
      ],
      λ h. let (cached, e, s, q, w) = h in let u = use_cached_served db cached s in ground arith,
    )

    -- On a table with unique ids and keys, an entry that `try_cache` does not serve is gone: the key
    -- has no valid entry after it. Ids and keys stay unique in any case.
    pub try_cache_refused :
        (db : Db K T V) (k : K)
        → Distinct db.rows
        → ((try_cache dec now decrypt db k).1 ≡ none
            → cache_lookup dec (try_cache dec now decrypt db k).0 k ≡ none)
          × Distinct (try_cache dec now decrypt db k).0.rows
    unfolding try_cache
    try_cache_refused db k d = elim (Option-cases (cache_lookup dec db k)) [
      | inl e ↦ rw (e, try_cache) ((λ _. e), d)
      | inr (cached, e) ↦ elim (use_cached_refused db cached) [
        | inl (u, s) ↦
            rw (e, try_cache, u) ((λ n. cc), cache_increment_serve-Distinct dec now db cached.id d)
        | inr (reason, u) ↦
            rw (e, try_cache, u)
              (
                (λ _. lookup-invalidate_self dec now db k reason d e),
                cache_invalidate-Distinct dec now db cached.id reason d,
              )
      ]
    ]
