-- ===== src/Cache/Answers.antt =====
-- The abstract view of `answer_cache` (core/bitmod/adapters/db_sqlite.py): a map from answer keys to
-- the valid answers, without the order of the rows, the rows that are no longer valid and the table
-- of embeddings.
use bit_mod_ai_inference_cac.Cache.Lookup.{
  lookup-store, cache_increment_serve-Distinct, cache_invalidate-Distinct, find_of_NoKey, find,
}
use bit_mod_ai_inference_cac.Cache.Table.{
  Distinct-update, served-KeepsKeys, invalidated-KeepsKeys, NoKey-of_Apart, cache_store-rows,
  Distinct, KeepsKeys,
}
use bit_mod_ai_inference_cac.Cache.Backend.{
  served, invalidated, update_where, has_id, cache_invalidate_by_section, inserted,
  cache_increment_serve, cites, cache_invalidate, cache_lookup, cache_store,
}
use bit_mod_ai_inference_cac.Prelude.{
  equal_self, sym, arith, refl, ap, ◌∙◌, [], ◌≡◌, equal, none, true, if◌then◌else◌, ◌&&◌, some, ◌∷◌,
  false, Bool, List, Option, ℕ,
}
use mathlib.Core.Path.{subst, fun_ext}
use bit_mod_ai_inference_cac.Cache.{Row, Db, Reason, section_changed, Source}

-- The statements that write the table. A call that stores says whether it returned: a raised
-- `IntegrityError` leaves the table as it was, since its transaction is rolled back.
pub data Call {ℓ} (K T : Type ℓ) : Type ℓ where
  store : ℕ → Row K T → Call K T
  invalidate : ℕ → K → Reason K → Call K T
  increment_serve : ℕ → K → Call K T
  invalidate_by_section : ℕ → K → Call K T

abbrev pub Answers {ℓ} : Type ℓ → Type ℓ → Type ℓ
Answers K T = K → Option (Row K T)

module _ {ℓ} {K T V : Type ℓ} where
  abbrev pub or_unchanged : Db K T V → Option (Db K T V) → Db K T V × Bool
  or_unchanged db none = (db, false)
  or_unchanged db (some db') = (db', true)

module _ {ℓ} {K T V : Type ℓ} (dec : Discrete K) where
  unfoldable pub answers : Db K T V → Answers K T
  unfolding cache_lookup
  answers db k = cache_lookup dec db k

module _ {ℓ} {K T V : Type ℓ} (dec : Discrete K) (like : K → List (Source K) → Bool) where
  -- The concrete statement, and whether it returned.
  unfoldable pub perform : Call K T → Db K T V → Db K T V × Bool
  unfolding cache_store cache_invalidate cache_increment_serve cache_invalidate_by_section
  perform (store now r) db = or_unchanged db (cache_store dec now db r)
  perform (invalidate now id reason) db = (cache_invalidate dec now db id reason, true)
  perform (increment_serve now id) db = (cache_increment_serve dec now db id, true)
  perform (invalidate_by_section now section_id) db =
      ((cache_invalidate_by_section dec like now db section_id).0, true)

  unfoldable pub perform_all : List (Call K T) → Db K T V → Db K T V × List Bool
  unfolding perform
  perform_all [] db = (db, [])
  perform_all (c ∷ cs) db =
      let rest = perform_all cs (perform c db).0 in (rest.0, (perform c db).1 ∷ rest.1)

module _ {ℓ} {K T : Type ℓ} (dec : Discrete K) (like : K → List (Source K) → Bool) where
  -- An answer under a change of the rows that match; what is no longer valid is no answer.
  abbrev pub updated : (Row K T → Bool) → (Row K T → Row K T) → Option (Row K T) → Option (Row K T)
  updated p f none = none
  updated p f (some r) = if p r then (if (f r).is_valid then some (f r) else none) else some r

  abbrev pub refers : K → Row K T → Bool
  refers section_id r =
      (r.is_valid && like section_id r.source_sections) && cites dec section_id r.source_sections

  -- What a call does to the map of answers.
  unfoldable pub specified : Call K T → Bool → Answers K T → Answers K T
  specified (store now r) false m k = m k
  specified (store now r) true m k = if equal dec r.answer_key k then some (inserted now r) else m k
  specified (invalidate now id reason) b m k =
      updated (has_id dec id) (invalidated now reason) (m k)
  specified (increment_serve now id) b m k = updated (has_id dec id) (served now) (m k)
  specified (invalidate_by_section now section_id) b m k =
      updated (refers section_id) (invalidated now (section_changed section_id)) (m k)

  unfoldable pub specified_all : List (Call K T) → List Bool → Answers K T → Answers K T
  unfolding specified
  specified_all [] bs m = m
  specified_all (c ∷ cs) [] m = m
  specified_all (c ∷ cs) (b ∷ bs) m = specified_all cs bs (specified c b m)

  find-update_where :
      (p : Row K T → Bool) (f : Row K T → Row K T) (k : K) (rs : List (Row K T))
      → KeepsKeys f
      → ((r : Row K T) → r.is_valid ≡ false → (f r).is_valid ≡ false)
      → Distinct rs
      → find dec k (update_where p f rs) ≡ updated p f (find dec k rs)
  find-update_where p f k [] keeps low d = refl
  find-update_where p f k (r ∷ rs) keeps low d =
      let single : r.answer_key ≡ k → find dec k rs ≡ none =
        λ e. find_of_NoKey dec k rs (NoKey-of_Apart k r rs e d.0) in
      let kept = keeps.same_key r in
      let still = low r in
      ground (arith, single, kept, still, find-update_where p f k rs keeps low d.1)

module _ {ℓ} {K T V : Type ℓ} (dec : Discrete K) (like : K → List (Source K) → Bool) where
  store-refines :
      (now : ℕ) (r : Row K T) (db : Db K T V) (o : Option (Db K T V))
      → Distinct db.rows
      → cache_store dec now db r ≡ o
      → Distinct (or_unchanged db o).0.rows
        × (answers dec (or_unchanged db o).0
            ≡ specified dec like (store now r) (or_unchanged db o).1 (answers dec db))
  unfolding answers specified
  store-refines now r db none d h = (d, refl)
  store-refines now r db (some db') d h = (
    (cache_store-rows dec now db r d h).0,
    fun_ext (λ k.
        let (self, others) = lookup-store dec now db r k d h in
        elim (dec r.answer_key k) [
          | yes e ↦
              subst
                (λ j. cache_lookup dec db' j ≡ (
                  if equal dec r.answer_key j
                  then some (inserted now r)
                  else cache_lookup dec db j))
                e (self ∙ sym (rw (equal_self dec r.answer_key) refl))
          | no n ↦ ground (arith, others (λ q. n (sym q)))
        ]),
  )

  perform-refines :
      (c : Call K T) (db : Db K T V)
      → Distinct db.rows
      → Distinct (perform dec like c db).0.rows
        × (answers dec (perform dec like c db).0
            ≡ specified dec like c (perform dec like c db).1 (answers dec db))
  unfolding perform answers specified cache_lookup cache_invalidate cache_increment_serve
      cache_invalidate_by_section
  perform-refines (store now r) db d = store-refines now r db (cache_store dec now db r) d refl
  perform-refines (invalidate now id reason) db d = (
    cache_invalidate-Distinct dec now db id reason d,
    fun_ext (λ k.
        find-update_where dec like (has_id dec id) (invalidated now reason) k db.rows
          (invalidated-KeepsKeys now reason) (λ r v. refl) d),
  )
  perform-refines (increment_serve now id) db d = (
    cache_increment_serve-Distinct dec now db id d,
    fun_ext (λ k.
        find-update_where dec like (has_id dec id) (served now) k db.rows (served-KeepsKeys now)
          (λ r v. v) d),
  )
  perform-refines (invalidate_by_section now section_id) db d =
      let reason = section_changed section_id in
      (
        Distinct-update (refers dec like section_id) (invalidated now reason)
            (invalidated-KeepsKeys now reason) db.rows d,
        fun_ext (λ k.
            find-update_where dec like (refers dec like section_id) (invalidated now reason) k
              db.rows (invalidated-KeepsKeys now reason) (λ r v. refl) d),
      )

  -- On a table with unique ids and keys, after any sequence of stores, invalidations, served counts and
  -- invalidations by section, some of the stores perhaps refused for their id, the lookup by key finds
  -- for every key what the map of valid answers specifies for the same calls; and ids and keys are unique.
  pub perform_all-refines :
      (cs : List (Call K T)) (db : Db K T V)
      → Distinct db.rows
      → Distinct (perform_all dec like cs db).0.rows
        × (answers dec (perform_all dec like cs db).0
            ≡ specified_all dec like cs (perform_all dec like cs db).1 (answers dec db))
  unfolding perform_all specified_all
  perform_all-refines [] db d = (d, refl)
  perform_all-refines (c ∷ cs) db d =
      let (d1, e1) = perform-refines c db d in
      let (d2, e2) = perform_all-refines cs (perform dec like c db).0 d1 in
      (
        d2,
        e2
            ∙ ap (specified_all dec like cs (perform_all dec like cs (perform dec like c db).0).1)
                e1,
      )
