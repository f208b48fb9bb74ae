-- ===== src/Cache/Semantic.antt =====
-- The semantic lookup: `semantic_cache_match`, `semantic_cache_search` and `try_composable_cache` of
-- core/bitmod/cache_engine.py, and `cache_get_embeddings` of core/bitmod/adapters/db_sqlite.py. A similarity is a
-- rank: numbers in the order of the floats, 0 for 0.0 and below. `embed` is the embedder on the
-- normalised query, `none` where it raises or returns nothing.
pub mod Best
use bit_mod_ai_inference_cac.Prelude.{
  ◌==◌, length, true, ltb, max, ◌++◌, equal, leb, none, if◌then◌else◌, min, ◌&&◌, [], false, take,
  some, not, ◌∷◌, ℕ, Option, Bool, List,
}
use bit_mod_ai_inference_cac.Cache.{Row, Db, Source}
use bit_mod_ai_inference_cac.Cache.Backend.{has_id, cache_lookup_by_id, cache_increment_serve}
use bit_mod_ai_inference_cac.Cache.Engine.{try_cache}
use bit_mod_ai_inference_cac.Cache.Evict.{select_where, sort_by, key_ltb, created_key}

-- A sub-query, by its text, the answer keys with and without its filters, the second only where there are
-- filters, and the embedding of its text, `none` too where there is no embedder.
pub record SubQuery {ℓ} (K V : Type ℓ) : Type ℓ where
  pub query : K
  pub answer_key : K
  pub plain_key : Option K
  pub embedding : Option V

pub record Composed {ℓ} (K T V : Type ℓ) : Type ℓ where
  pub hits : List (SubQuery K V × Row K T)
  pub misses : List (SubQuery K V)

module _ {ℓ} {K T V : Type ℓ} where
  abbrev pub pair_with : K × V → List (Row K T) → List (Row K T × (K × V))
  pair_with e [] = []
  pair_with e (r ∷ rs) = (r, e) ∷ pair_with e rs

  -- `ORDER BY ac.created_at DESC`
  abbrev pub is_newer : Row K T × (K × V) → Row K T × (K × V) → Bool
  is_newer a b = not (key_ltb (created_key a.0.created_at) (created_key b.0.created_at))

  abbrev pub embeddings_of : List (Row K T × (K × V)) → List (K × V)
  embeddings_of [] = []
  embeddings_of (p ∷ ps) = p.1 ∷ embeddings_of ps

module _ {ℓ} {K T : Type ℓ} (dec : Discrete K) where
  -- `ac.is_valid = 1`, and `ac.namespace_id = ?` where a namespace is given
  abbrev pub in_scope : Option K → Row K T → Bool
  in_scope none r = r.is_valid
  in_scope (some n) r = r.is_valid && elim r.namespace_id [ none ↦ false | some m ↦ equal dec m n ]

module _ {ℓ} {K T V : Type ℓ} (dec : Discrete K) where
  -- The join of the two tables on the id.
  unfoldable pub join_rows : Option K → List (Row K T) → List (K × V) → List (Row K T × (K × V))
  unfolding select_where
  join_rows namespace_id rows [] = []
  join_rows namespace_id rows (e ∷ es) =
      pair_with e (select_where (λ r. has_id dec e.0 r && in_scope dec namespace_id r) rows)
      ++ join_rows namespace_id rows es

  unfoldable pub cache_get_embeddings : Db K T V → ℕ → Option K → List (K × V)
  unfolding join_rows sort_by
  cache_get_embeddings db limit namespace_id = embeddings_of (
      take (min (max 1 limit) 5000)
        (sort_by is_newer (join_rows namespace_id db.rows db.embeddings)))

-- The loop over the embeddings: the first of those that are most similar, and its similarity.
unfoldable pub best_match {ℓ} :
    {K V : Type ℓ} → (V → ℕ) → List (K × V) → Option K × ℕ → Option K × ℕ
best_match similarity [] best = best
best_match similarity ((cache_id, emb) ∷ es) best =
    best_match similarity es
      (if ltb best.1 (similarity emb) then (some cache_id, similarity emb) else best)

module _ {ℓ} {K T V : Type ℓ} (dec : Discrete K) (now : ℕ) (decrypt : T → T)
    (similarity : V → V → ℕ) where
  abbrev pub decrypted : Row K T → Row K T
  decrypted r = record r { answer_text = decrypt r.answer_text }

  abbrev pub serve_found : Db K T V → Option (Row K T) → Db K T V × Option (Row K T)
  serve_found db none = (db, none)
  serve_found db (some r) = (cache_increment_serve dec now db r.id, some (decrypted r))

  abbrev pub serve_best : ℕ → Db K T V → Option K × ℕ → Db K T V × Option (Row K T)
  serve_best threshold db (none, sim) = (db, none)
  serve_best threshold db (some cache_id, sim) =
      if leb threshold sim then serve_found db (cache_lookup_by_id dec db cache_id) else (db, none)

  -- The filters of the query are not read.
  unfoldable pub semantic_cache_match :
      ℕ → ℕ → Option K → Option V → Db K T V → Db K T V × Option (Row K T)
  unfolding cache_get_embeddings best_match cache_lookup_by_id cache_increment_serve
  semantic_cache_match threshold max_scan namespace_id none db = (db, none)
  semantic_cache_match threshold max_scan namespace_id (some query_emb) db =
      serve_best threshold db (
        best_match (similarity query_emb)
          (take max_scan (cache_get_embeddings dec db max_scan namespace_id)) (none, 0))

  -- The `(cache_id, sim)` of a search, those below the threshold left out.
  abbrev pub scores : ℕ → V → List (K × V) → List (K × ℕ)
  scores threshold query_emb [] = []
  scores threshold query_emb ((cache_id, emb) ∷ es) =
      let sim = similarity query_emb emb in
      let rest = scores threshold query_emb es in
      if leb threshold sim then (cache_id, sim) ∷ rest else rest

  -- A match of a search with `namespace_id` given: the index holds all namespaces.
  abbrev pub is_foreign : Option K → Row K T → Bool
  is_foreign none r = false
  is_foreign (some n) r = elim r.namespace_id [ none ↦ true | some m ↦ not (equal dec m n) ]

  unfoldable pub records_of : Option K → Db K T V → List (K × ℕ) → List (Row K T × ℕ)
  unfolding cache_lookup_by_id
  records_of namespace_id db [] = []
  records_of namespace_id db ((cache_id, sim) ∷ ms) =
      let rest = records_of namespace_id db ms in
      elim (cache_lookup_by_id dec db cache_id) [
        | none ↦ rest
        | some r ↦
            if r.is_valid && not (is_foreign namespace_id r)
            then (decrypted r, sim) ∷ rest
            else rest
      ]

  -- `searched` is what the vector index finds, `none` where there is none or it is empty.
  unfoldable pub semantic_cache_search :
      ℕ → ℕ → ℕ → Option K → Option V → Option (List (K × ℕ)) → Db K T V → List (Row K T × ℕ)
  unfolding cache_get_embeddings records_of sort_by
  semantic_cache_search threshold max_results max_scan namespace_id none searched db = []
  semantic_cache_search threshold max_results max_scan namespace_id (some query_emb)
        (some raw_matches) db =
      records_of namespace_id db
        (take max_results (select_where (λ m. leb threshold m.1) raw_matches))
  semantic_cache_search threshold max_results max_scan namespace_id (some query_emb) none db =
      records_of none db (
        take max_results (
          sort_by (λ a b. leb b.1 a.1)
            (scores threshold query_emb (cache_get_embeddings dec db max_scan namespace_id))))

  abbrev pub or_else :
      Db K T V × Option (Row K T)
      → (Db K T V → Db K T V × Option (Row K T))
      → Db K T V × Option (Row K T)
  or_else (db, some r) next = (db, some r)
  or_else (db, none) next = next db

  unfoldable pub try_cache_where : Option K → Db K T V → Db K T V × Option (Row K T)
  unfolding try_cache
  try_cache_where none db = (db, none)
  try_cache_where (some key) db = try_cache dec now decrypt db key

  -- The body of the loop: the key with the filters, the key without, the embedding; and the embedding
  -- once more where there are filters.
  unfoldable pub lookup_sub_query :
      ℕ → ℕ → Option K → SubQuery K V → Db K T V → Db K T V × Option (Row K T)
  unfolding try_cache_where semantic_cache_match
  lookup_sub_query threshold max_scan namespace_id sq db =
      let semantic = semantic_cache_match threshold max_scan namespace_id sq.embedding in
      or_else
        (or_else
          (or_else (try_cache dec now decrypt db sq.answer_key) (try_cache_where sq.plain_key))
          semantic)
        (λ db'. elim sq.plain_key [ none ↦ (db', none) | some _ ↦ semantic db' ])

  abbrev pub add_result : SubQuery K V → Option (Row K T) → Composed K T V → Composed K T V
  add_result sq none c = record c { misses = c.misses ++ sq ∷ [] }
  add_result sq (some r) c = record c { hits = c.hits ++ (sq, r) ∷ [] }

  unfoldable pub lookup_sub_queries :
      ℕ → ℕ → Option K → List (SubQuery K V) → Composed K T V → Db K T V → Db K T V × Composed K T V
  unfolding lookup_sub_query
  lookup_sub_queries threshold max_scan namespace_id [] c db = (db, c)
  lookup_sub_queries threshold max_scan namespace_id (sq ∷ sqs) c db =
      let found = lookup_sub_query threshold max_scan namespace_id sq db in
      lookup_sub_queries threshold max_scan namespace_id sqs (add_result sq found.1 c) found.0

  -- `sub_queries` is what `decompose_query` gives; the result has `partial` and `full_hit` too.
  unfoldable pub try_composable_cache :
      ℕ
      → ℕ
      → Option K
      → Option (List (SubQuery K V))
      → Db K T V
      → Db K T V × Option (Composed K T V × (Bool × Bool))
  unfolding lookup_sub_queries
  try_composable_cache threshold max_scan namespace_id none db = (db, none)
  try_composable_cache threshold max_scan namespace_id (some sub_queries) db =
      let (db', c) =
        lookup_sub_queries threshold max_scan namespace_id sub_queries
          (record { hits = []; misses = [] }) db in
      (db', some (c, (ltb 0 (length c.hits) && ltb 0 (length c.misses), length c.misses == 0)))
