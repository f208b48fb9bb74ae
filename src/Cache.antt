-- ===== src/Cache.antt =====
-- The answer cache: core/bitmod/interfaces/database.py (`AnswerCacheRecord`), the tables of
-- core/bitmod/adapters/db_sqlite.py that it rests on, and the lookups of
-- core/bitmod/cache_engine.py. Ids, keys, hashes and namespaces are values of one type `K` with a
-- decidable equality, since they are only compared; `T` is the type of an answer's text, `V` that
-- of an embedding. Times are seconds. An empty string, which Python tests as absent, is `none`.
pub mod Backend
pub mod Engine
pub mod Table
pub mod Lookup
pub mod Sections
pub mod Serve
pub mod Change
pub mod Bulk
pub mod Evict
pub mod Semantic
pub mod Cost
pub mod Answers
use bit_mod_ai_inference_cac.Prelude.{ℕ, List, Bool, Option}

-- One entry of `source_sections`: a dict, read by `get`.
pub record Source {ℓ} (K : Type ℓ) : Type ℓ where
  pub section_id : Option K
  pub version_hash : Option K

-- `created_at` as the engine reads it: absent, a text that `fromisoformat` refuses, or a time.
pub data Created : Type 0 where
  absent : Created
  malformed : Created
  at : ℕ → Created

-- `invalidation_reason`, with what the message names.
pub data Reason {ℓ} (K : Type ℓ) : Type ℓ where
  ttl_expired : Reason K
  no_version_hash : K → Reason K
  version_changed : K → Reason K
  section_changed : K → Reason K

-- A row of `answer_cache`, and the record that `_row_to_cache` makes of it. Of `filters` only the
-- temporal scope is read here; what the cache only stores and hands back is left out.
pub record Row {ℓ} (K T : Type ℓ) : Type ℓ where
  pub id : K
  pub answer_key : K
  pub answer_text : T
  pub source_sections : List (Source K)
  pub temporal_scope : Option K
  pub namespace_id : Option K
  pub max_age_seconds : Option ℕ
  pub created_at : Created
  pub is_valid : Bool
  pub serve_count : ℕ
  pub last_served_at : Option ℕ
  pub invalidated_at : Option ℕ
  pub invalidation_reason : Option (Reason K)

-- A row of `sections`, as far as the cache reads it.
pub record Section {ℓ} (K : Type ℓ) : Type ℓ where
  pub id : K
  pub version_hash : K
  pub is_current : Bool

pub record Db {ℓ} (K T V : Type ℓ) : Type ℓ where
  pub rows : List (Row K T)
  pub embeddings : List (K × V)
  pub sections : List (Section K)
