-- ===== src/Cache/Backend.antt =====
-- core/bitmod/adapters/db_sqlite.py: the statements on `answer_cache`, `cache_embeddings` and
-- `sections`. A statement is what its SQL says of the rows, in the order of insertion.
use bit_mod_ai_inference_cac.Prelude.{
  equal, ℕ, ◌+◌, List, [], ◌∷◌, ◌++◌, Bool, true, false, ◌&&◌, ◌||◌, Option, none, some,
  if◌then◌else◌,
}
use bit_mod_ai_inference_cac.Cache.{Source, at, Reason, section_changed, Row, Section, Db}

-- `SELECT ... WHERE p`, `.fetchone()`
abbrev pub select_one {ℓ} : {A : Type ℓ} → (A → Bool) → List A → Option A
select_one p [] = none
select_one p (a ∷ rs) = if p a then some a else select_one p rs

-- `UPDATE ... SET f WHERE p`
abbrev pub update_where {ℓ} : {A : Type ℓ} → (A → Bool) → (A → A) → List A → List A
update_where p f [] = []
update_where p f (a ∷ rs) = (if p a then f a else a) ∷ update_where p f rs

-- `DELETE ... WHERE p`
abbrev pub delete_where {ℓ} : {A : Type ℓ} → (A → Bool) → List A → List A
delete_where p [] = []
delete_where p (a ∷ rs) = let rest = delete_where p rs in if p a then rest else a ∷ rest

-- `SELECT COUNT(*) ... WHERE p`
abbrev pub count_where {ℓ} : {A : Type ℓ} → (A → Bool) → List A → ℕ
count_where p [] = 0
count_where p (a ∷ rs) = (if p a then 1 else 0) + count_where p rs

module _ {ℓ} {K : Type ℓ} (dec : Discrete K) where
  -- `any(s.get("section_id") == section_id for s in sources)`
  abbrev pub cites : K → List (Source K) → Bool
  cites section_id [] = false
  cites section_id (s ∷ ss) =
      elim s.section_id [ none ↦ false | some k ↦ equal dec k section_id ] || cites section_id ss

module _ {ℓ} {K T : Type ℓ} (dec : Discrete K) where
  abbrev pub has_id : K → Row K T → Bool
  has_id k r = equal dec r.id k

  abbrev pub has_key : K → Row K T → Bool
  has_key k r = equal dec r.answer_key k

module _ {ℓ} {K T : Type ℓ} where
  -- The `INSERT` names its columns; the others take the defaults of the table.
  abbrev pub inserted : ℕ → Row K T → Row K T
  inserted now r = record r {
    created_at = at now;
    is_valid = true;
    serve_count = 0;
    last_served_at = none;
    invalidated_at = none;
    invalidation_reason = none;
  }

  abbrev pub invalidated : ℕ → Reason K → Row K T → Row K T
  invalidated now reason r = record r {
    is_valid = false;
    invalidated_at = some now;
    invalidation_reason = some reason;
  }

  abbrev pub served : ℕ → Row K T → Row K T
  served now r = record r { serve_count = r.serve_count + 1; last_served_at = some now }

module _ {ℓ} {K : Type ℓ} (dec : Discrete K) where
  -- `SELECT version_hash FROM sections WHERE id = ? AND is_current = 1`
  abbrev pub section_hash : List (Section K) → K → Option K
  section_hash [] section_id = none
  section_hash (s ∷ ss) section_id =
      if equal dec s.id section_id && s.is_current
      then some s.version_hash
      else section_hash ss section_id

module _ {ℓ} {K T V : Type ℓ} (dec : Discrete K) where
  unfoldable pub get_section_version_hash : Db K T V → K → Option K
  get_section_version_hash db section_id = section_hash dec db.sections section_id

  unfoldable pub update_section_content : Db K T V → K → K → Db K T V
  update_section_content db section_id version_hash = record db {
    sections =
        update_where (λ (s : Section K). equal dec s.id section_id)
          (λ s. record s { version_hash = version_hash }) db.sections;
  }

  unfoldable pub mark_section_not_current : Db K T V → K → Db K T V
  mark_section_not_current db section_id = record db {
    sections =
        update_where (λ (s : Section K). equal dec s.id section_id)
          (λ s. record s { is_current = false }) db.sections;
  }

  unfoldable pub cache_lookup : Db K T V → K → Option (Row K T)
  cache_lookup db answer_key = select_one (λ r. has_key dec answer_key r && r.is_valid) db.rows

  unfoldable pub cache_lookup_by_id : Db K T V → K → Option (Row K T)
  cache_lookup_by_id db cache_id = select_one (λ r. has_id dec cache_id r && r.is_valid) db.rows

  unfoldable pub delete_old : Option (Row K T) → Db K T V → Db K T V
  delete_old none db = db
  delete_old (some old) db = record db {
    rows = delete_where (has_id dec old.id) db.rows;
    embeddings = delete_where (λ (e : K × V). equal dec e.0 old.id) db.embeddings;
  }

  -- `none` is the `IntegrityError` of an id that another row has.
  unfoldable pub insert_row : ℕ → Row K T → Db K T V → Option (Db K T V)
  insert_row now r db = elim (select_one (has_id dec r.id) db.rows) [
    | none ↦ some (record db { rows = db.rows ++ inserted now r ∷ [] })
    | some _ ↦ none
  ]

  unfoldable pub cache_store : ℕ → Db K T V → Row K T → Option (Db K T V)
  unfolding delete_old insert_row
  cache_store now db r =
      insert_row now r (delete_old (select_one (has_key dec r.answer_key) db.rows) db)

  unfoldable pub cache_invalidate : ℕ → Db K T V → K → Reason K → Db K T V
  cache_invalidate now db answer_id reason = record db {
    rows = update_where (has_id dec answer_id) (invalidated now reason) db.rows;
  }

  unfoldable pub cache_increment_serve : ℕ → Db K T V → K → Db K T V
  cache_increment_serve now db answer_id = record db {
    rows = update_where (has_id dec answer_id) (served now) db.rows;
  }

  -- `like` is the prefilter `source_sections LIKE '%section_id%'` on the stored JSON. A row that it
  -- passes over is not updated; the result is the database and the count of updated rows.
  unfoldable pub cache_invalidate_by_section :
      (like : K → List (Source K) → Bool) → ℕ → Db K T V → K → Db K T V × ℕ
  cache_invalidate_by_section like now db section_id =
      let hit = λ (r : Row K T).
        (r.is_valid && like section_id r.source_sections)
        && cites dec section_id r.source_sections in
      (
        record db {
          rows = update_where hit (invalidated now (section_changed section_id)) db.rows;
        },
        count_where hit db.rows,
      )
