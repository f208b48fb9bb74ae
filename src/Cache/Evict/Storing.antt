-- ===== src/Cache/Evict/Storing.antt =====
-- core/bitmod/cache_engine.py: what `store_answer` and `_maybe_evict` keep of the cache together.
use bit_mod_ai_inference_cac.Prelude.{
  ◌<◌, ◌++◌, ==_iff, inr, refl, inl, [], ◌==◌, leb, length, ◌≤◌, arith, Bool-cases, ◌%◌, ◌-◌, some,
  ◌∷◌, ◌+◌, take, none, ◌≡◌, List, ℕ, Option, Bool,
}
use bit_mod_ai_inference_cac.Cache.Evict.{
  with_embedding, stored_or, max_answer_length, scored, evict_lru_cache, some, elapsed,
  store_embedding, evict_expired_cache, select_where, store_answer, cache_count, maybe_evict,
  cache_evict_lru, row_ids, is_one_of, cache_store_embedding, cache_delete_expired, delete_ids,
}
use bit_mod_ai_inference_cac.Cache.{Row, Db}
use bit_mod_ai_inference_cac.Cache.Backend.{
  inserted, delete_where, has_id, has_key, select_one, delete_old, insert_row, cache_store,
}
use bit_mod_ai_inference_cac.Cache.Table.{Distinct, Distinct-delete, cache_store-rows}
use bit_mod_ai_inference_cac.Cache.Evict.Limit.{cache_evict_lru_lem}

module _ {ℓ} {K T : Type ℓ} (dec : Discrete K) where
  no_id-delete :
      (k : K) (p : Row K T → Bool) (rs : List (Row K T))
      → select_one (has_id dec k) rs ≡ none
      → select_one (has_id dec k) (delete_where p rs) ≡ none
  no_id-delete k p [] h = refl
  no_id-delete k p (r ∷ rs) h = ground (arith, no_id-delete k p rs)

module _ {ℓ} {K T V : Type ℓ} (dec : Discrete K) where
  delete_ids-Distinct :
      (ids : List K) (db : Db K T V) → Distinct db.rows → Distinct (delete_ids dec ids db).rows
  unfolding delete_ids
  delete_ids-Distinct ids db d = Distinct-delete (λ r. is_one_of dec ids r.id) db.rows d

  cache_delete_expired-Distinct :
      (now : ℕ) (db : Db K T V)
      → Distinct db.rows
      → Distinct (cache_delete_expired dec now db).0.rows
  unfolding cache_delete_expired
  cache_delete_expired-Distinct now db d =
      let ids =
        row_ids
          (select_where (λ (r : Row K T). elapsed now r.max_age_seconds r.created_at) db.rows) in
      elim (Bool-cases (length ids == 0)) [
        | inl e ↦ rw e d
        | inr e ↦ rw e (delete_ids-Distinct ids db d)
      ]

  no_id-delete_old :
      (k : K) (o : Option (Row K T)) (db : Db K T V)
      → select_one (has_id dec k) db.rows ≡ none
      → select_one (has_id dec k) (delete_old dec o db).rows ≡ none
  unfolding delete_old
  no_id-delete_old k none db h = h
  no_id-delete_old k (some old) db h = no_id-delete dec k (has_id dec old.id) db.rows h

  -- A fresh id is stored.
  pub cache_store-returns :
      (now : ℕ) (db : Db K T V) (r : Row K T)
      → select_one (has_id dec r.id) db.rows ≡ none
      → (db' : Db K T V) × (cache_store dec now db r ≡ some db')
  unfolding cache_store insert_row
  cache_store-returns now db r h =
      let old = select_one (has_key dec r.answer_key) db.rows in
      let cleared = delete_old dec old db in
      (
        record cleared { rows = cleared.rows ++ inserted now r ∷ [] },
        ground (arith, no_id-delete_old r.id old db h),
      )

  module _ (value : Row K T → ℕ) where
    cache_evict_lru-Distinct :
        (db : Db K T V) (max_entries : ℕ)
        → Distinct db.rows
        → Distinct (cache_evict_lru dec value db max_entries).0.rows
    unfolding cache_evict_lru
    cache_evict_lru-Distinct db max_entries d =
        let ids = row_ids (take (cache_count db - max_entries) (scored dec value db)) in
        elim (Bool-cases (leb (cache_count db) max_entries)) [
          | inl e ↦ rw e d
          | inr e ↦ elim (Bool-cases (length ids == 0)) [
            | inl none_go ↦ rw (e, none_go) d
            | inr some_go ↦ rw (e, some_go) (delete_ids-Distinct ids db d)
          ]
        ]

    -- The state after a write: one more counted, unique keys, and the limit where eviction is due.
    abbrev pub Bounded : ℕ → ℕ → ℕ → ℕ × Db K T V → Type ℓ
    Bounded max_entries interval write_counter (written, db) =
        (written ≡ write_counter + 1)
        × Distinct db.rows
        × ((write_counter + 1) % interval ≡ 0 → cache_count db ≤ max_entries)

    maybe_evict-Bounded :
        (now max_entries interval write_counter : ℕ) (db : Db K T V)
        → Distinct db.rows
        → Bounded max_entries interval write_counter
            (maybe_evict dec value now max_entries interval (write_counter, db))
    unfolding maybe_evict evict_expired_cache evict_lru_cache
    maybe_evict-Bounded now max_entries interval write_counter db d =
        let fresh = (cache_delete_expired dec now db).0 in
        let fresh-Distinct = cache_delete_expired-Distinct now db d in
        let (count, deleted, rest) =
          cache_evict_lru_lem dec value fresh max_entries fresh-Distinct in
        elim (Bool-cases ((write_counter + 1) % interval == 0)) [
          | inl due ↦ rw due (
            refl,
            cache_evict_lru-Distinct fresh max_entries fresh-Distinct,
            λ e. omega (arith, count),
          )
          | inr spared ↦
              rw spared
                (refl, d, λ e. absurd (ground (arith, ==_iff ((write_counter + 1) % interval) 0)))
        ]

  with_embedding-Bounded :
      (value : Row K T → ℕ) (max_entries interval write_counter : ℕ) (e : V) (k : K) (n : ℕ)
      (db : Db K T V)
      → Bounded value max_entries interval write_counter (n, db)
      → (o : Option (Row K T))
      → Bounded value max_entries interval write_counter
          (n, stored_or dec db (with_embedding dec o db k e))
  unfolding cache_count
  with_embedding-Bounded value max_entries interval write_counter e k n db h none = h
  with_embedding-Bounded value max_entries interval write_counter e k n db h (some r) = h

  store_embedding-Bounded :
      (value : Row K T → ℕ) (max_entries interval write_counter : ℕ) (embedding : Option V) (k : K)
      (s : ℕ × Db K T V)
      → Bounded value max_entries interval write_counter s
      → Bounded value max_entries interval write_counter (store_embedding dec embedding k s)
  unfolding cache_store_embedding cache_count
  store_embedding-Bounded value max_entries interval write_counter none k s h = h
  store_embedding-Bounded value max_entries interval write_counter (some e) k (n, db) h =
      with_embedding-Bounded value max_entries interval write_counter e k n db h
        (select_one (has_id dec k) db.rows)

module _ {ℓ} {K C V : Type ℓ} (dec : Discrete K) (encrypt : List C → List C)
    (value : Row K (List C) → ℕ) where
  -- With a positive interval, unique ids and keys, and an id that no row has, `store_answer` returns the record with its text
  -- cut to the limit and encrypted. One more write is counted, ids and keys are unique again, and where
  -- the count comes to a multiple of the interval, no more valid entries are left than the limit allows.
  pub store_answer_bounded :
      (now : ℕ) (r : Row K (List C)) (embedding : Option V) (max_entries interval write_counter : ℕ)
      (db : Db K (List C) V)
      → 0 < interval
      → Distinct db.rows
      → select_one (has_id dec r.id) db.rows ≡ none
      → (s : ℕ × Db K (List C) V) × (store_answer dec encrypt value now r embedding max_entries
            interval
            (write_counter, db)
          ≡ some (record r { answer_text = encrypt (take max_answer_length r.answer_text) }, s))
        × (s.0 ≡ write_counter + 1)
        × Distinct s.1.rows
        × ((write_counter + 1) % interval ≡ 0 → cache_count s.1 ≤ max_entries)
  unfolding store_answer
  store_answer_bounded now r embedding max_entries interval write_counter db positive d h =
      let stored = record r { answer_text = encrypt (take max_answer_length r.answer_text) } in
      let (db', returns) = cache_store-returns dec now db stored h in
      let (d', rest) = cache_store-rows dec now db stored d returns in
      let (written, unique, limited) =
        store_embedding-Bounded dec value max_entries interval write_counter embedding r.id _
          (maybe_evict-Bounded dec value now max_entries interval write_counter db' d') in
      (
        store_embedding dec embedding r.id
            (maybe_evict dec value now max_entries interval (write_counter, db')),
        rw returns refl,
        written,
        unique,
        limited,
      )
