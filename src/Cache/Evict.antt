-- ===== src/Cache/Evict.antt =====
-- Eviction: `cache_delete_expired`, `cache_evict_lru` and `cache_count` of core/bitmod/adapters/db_sqlite.py, and
-- `evict_expired_cache`, `evict_lru_cache`, `_maybe_evict` and `store_answer` of core/bitmod/cache_engine.py. The
-- predicted value of an entry is a floating-point number, of which only the order counts: a parameter
-- `value` gives its rank. The clean-up of links and of audit events, on tables of their own, is left out.
pub mod Order
pub mod Limit
pub mod Storing
use bit_mod_ai_inference_cac.Prelude.{
  ◌&&◌, none, [], ◌%◌, ◌-◌, length, not, ◌==◌, ◌++◌, ◌+◌, take, leb, if◌then◌else◌, ◌||◌, ◌∷◌,
  false, ltb, some, equal, List, Bool, Option, ℕ,
}
use bit_mod_ai_inference_cac.Cache.{Created, at, absent, malformed, Row, Db}
use bit_mod_ai_inference_cac.Cache.Backend.{
  has_id, select_one, delete_where, count_where, cache_store,
}

-- The key of the `ORDER BY` on `created_at`, NULL first; a text that is no time stands last.
abbrev pub created_key : Created → ℕ × ℕ
created_key absent = (0, 0)
created_key (at t) = (1, t)
created_key malformed = (2, 0)

abbrev pub served_key : Option ℕ → ℕ × ℕ
served_key none = (0, 0)
served_key (some t) = (1, t)

abbrev pub key_ltb : ℕ × ℕ → ℕ × ℕ → Bool
key_ltb a b = ltb a.0 b.0 || (a.0 == b.0 && ltb a.1 b.1)

-- `created_at + max_age_seconds < now`, false where one of them is NULL
abbrev pub elapsed : ℕ → Option ℕ → Created → Bool
elapsed now none created = false
elapsed now (some max_age) absent = false
elapsed now (some max_age) malformed = false
elapsed now (some max_age) (at t) = ltb (t + max_age) now

-- A sort that keeps the order of equal elements.
unfoldable pub insert_by {ℓ} : {A : Type ℓ} → (A → A → Bool) → A → List A → List A
insert_by le a [] = a ∷ []
insert_by le a (b ∷ rest) =
    let after = insert_by le a rest in if le a b then a ∷ b ∷ rest else b ∷ after

unfoldable pub sort_by {ℓ} : {A : Type ℓ} → (A → A → Bool) → List A → List A
unfolding insert_by
sort_by le [] = []
sort_by le (a ∷ rest) = insert_by le a (sort_by le rest)

-- `SELECT ... WHERE p`
unfoldable pub select_where {ℓ} : {A : Type ℓ} → (A → Bool) → List A → List A
select_where p [] = []
select_where p (a ∷ rest) = let others = select_where p rest in if p a then a ∷ others else others

module _ {ℓ} {K T : Type ℓ} where
  abbrev pub row_ids : List (Row K T) → List K
  row_ids [] = []
  row_ids (r ∷ rs) = r.id ∷ row_ids rs

  -- `r` stands no later than `q` in `ORDER BY last_served_at ASC NULLS FIRST, created_at ASC`.
  abbrev pub served_before : Row K T → Row K T → Bool
  served_before r q =
      key_ltb (served_key r.last_served_at) (served_key q.last_served_at)
      || (not (key_ltb (served_key q.last_served_at) (served_key r.last_served_at))
          && not (key_ltb (created_key q.created_at) (created_key r.created_at)))

-- `id IN (ids)`
unfoldable pub is_one_of {ℓ} : {K : Type ℓ} → Discrete K → List K → K → Bool
is_one_of dec [] k = false
is_one_of dec (i ∷ ids) k = equal dec i k || is_one_of dec ids k

module _ {ℓ} {K T V : Type ℓ} where
  unfoldable pub cache_count : Db K T V → ℕ
  cache_count db = count_where (λ (r : Row K T). r.is_valid) db.rows

module _ {ℓ} {K T V : Type ℓ} (dec : Discrete K) where
  -- The two `DELETE` statements.
  unfoldable pub delete_ids : List K → Db K T V → Db K T V
  unfolding is_one_of
  delete_ids ids db = record db {
    rows = delete_where (λ (r : Row K T). is_one_of dec ids r.id) db.rows;
    embeddings = delete_where (λ (e : K × V). is_one_of dec ids e.0) db.embeddings;
  }

  unfoldable pub cache_delete_expired : ℕ → Db K T V → Db K T V × ℕ
  unfolding delete_ids select_where
  cache_delete_expired now db =
      let ids =
        row_ids
          (select_where (λ (r : Row K T). elapsed now r.max_age_seconds r.created_at) db.rows) in
      if length ids == 0 then (db, 0) else (delete_ids ids db, length ids)

  unfoldable pub evict_expired_cache : ℕ → Db K T V → Db K T V × ℕ
  unfolding cache_delete_expired
  evict_expired_cache now db = cache_delete_expired now db

  module _ (value : Row K T → ℕ) where
    -- `scored`, sorted: its entries from the least valuable one.
    unfoldable pub scored : Db K T V → List (Row K T)
    unfolding sort_by select_where
    scored db =
        sort_by (λ r q. leb (value r) (value q))
          (sort_by served_before (select_where (λ r. r.is_valid) db.rows))

    unfoldable pub cache_evict_lru : Db K T V → ℕ → Db K T V × ℕ
    unfolding cache_count scored delete_ids
    cache_evict_lru db max_entries =
        let total = cache_count db in
        let to_evict = row_ids (take (total - max_entries) (scored db)) in
        if leb total max_entries
        then (db, 0)
        else if length to_evict == 0
        then (db, 0)
        else (delete_ids to_evict db, length to_evict)

    -- The backend has the method; the log is left out.
    unfoldable pub evict_lru_cache : Db K T V → ℕ → Db K T V × ℕ
    unfolding cache_evict_lru
    evict_lru_cache db max_entries = cache_evict_lru db max_entries

    -- The counter of writes, one for the process, comes first; `eviction_interval` is positive.
    unfoldable pub maybe_evict : ℕ → ℕ → ℕ → ℕ × Db K T V → ℕ × Db K T V
    unfolding evict_expired_cache evict_lru_cache
    maybe_evict now max_entries eviction_interval (write_counter, db) =
        let written = write_counter + 1 in
        if written % eviction_interval == 0
        then (written, (evict_lru_cache (evict_expired_cache now db).0 max_entries).0)
        else (written, db)

  abbrev pub with_embedding : Option (Row K T) → Db K T V → K → V → Option (Db K T V)
  with_embedding none db cache_id embedding = none
  with_embedding (some r) db cache_id embedding = some (record db {
    embeddings =
        delete_where (λ (e : K × V). equal dec e.0 cache_id) db.embeddings
        ++ (cache_id, embedding) ∷ [];
  })

  -- `INSERT OR REPLACE INTO cache_embeddings`; `none` is the error of the foreign key, where no row has
  -- the id.
  unfoldable pub cache_store_embedding : Db K T V → K → V → Option (Db K T V)
  cache_store_embedding db cache_id embedding =
      with_embedding (select_one (has_id dec cache_id) db.rows) db cache_id embedding

  -- The error is caught.
  abbrev pub stored_or : Db K T V → Option (Db K T V) → Db K T V
  stored_or db none = db
  stored_or db (some db') = db'

  abbrev pub store_embedding : Option V → K → ℕ × Db K T V → ℕ × Db K T V
  store_embedding none cache_id s = s
  store_embedding (some embedding) cache_id (write_counter, db) =
      (write_counter, stored_or db (cache_store_embedding db cache_id embedding))

abbrev pub max_answer_length : ℕ
max_answer_length = 100000

module _ {ℓ} {K C V : Type ℓ} (dec : Discrete K) (encrypt : List C → List C)
    (value : Row K (List C) → ℕ) where
  abbrev pub evicted_after :
      ℕ
      → ℕ
      → ℕ
      → ℕ
      → Row K (List C)
      → Option V
      → Option (Db K (List C) V)
      → Option (Row K (List C) × (ℕ × Db K (List C) V))
  evicted_after now max_entries eviction_interval write_counter r embedding none = none
  evicted_after now max_entries eviction_interval write_counter r embedding (some db) = some (
    r,
    store_embedding dec embedding r.id
        (maybe_evict dec value now max_entries eviction_interval (write_counter, db)),
  )

  -- `none` is the `IntegrityError` of `cache_store`. The record is given with the text as it came.
  unfoldable pub store_answer :
      ℕ
      → Row K (List C)
      → Option V
      → ℕ
      → ℕ
      → ℕ × Db K (List C) V
      → Option (Row K (List C) × (ℕ × Db K (List C) V))
  unfolding cache_store maybe_evict cache_store_embedding
  store_answer now r embedding max_entries eviction_interval (write_counter, db) =
      let stored = record r { answer_text = encrypt (take max_answer_length r.answer_text) } in
      evicted_after now max_entries eviction_interval write_counter stored embedding
        (cache_store dec now db stored)
