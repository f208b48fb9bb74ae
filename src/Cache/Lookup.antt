-- ===== src/Cache/Lookup.antt =====
-- What `cache_lookup` finds after each statement (core/bitmod/adapters/db_sqlite.py).
use mathlib.Core.Path.{subst}
use bit_mod_ai_inference_cac.Cache.Backend.{
  delete_old, inserted, cache_store, served, invalidated, cache_lookup, cache_increment_serve,
  cache_invalidate, update_where, has_id, delete_where, has_key, select_one,
}
use bit_mod_ai_inference_cac.Cache.Table.{
  Apart, cache_store-rows, served-KeepsKeys, invalidated-KeepsKeys, Distinct-update, NoKey-of_Apart,
  Distinct, KeepsKeys, NoKey,
}
use bit_mod_ai_inference_cac.Cache.{Reason, Db, Row}
use bit_mod_ai_inference_cac.Prelude.{
  equal_iff, All, sym, equal_self, ◌∙◌, ℕ, inr, refl, inl, Bool-cases, [], ◌&&◌, if◌then◌else◌,
  arith, ◌∷◌, false, some, true, ◌++◌, none, ◌≡◌, Bool, ◌≢◌, Option, List,
}

module _ {ℓ} {K T : Type ℓ} (dec : Discrete K) where
  abbrev pub find : K → List (Row K T) → Option (Row K T)
  find k = select_one (λ r. has_key dec k r && r.is_valid)

  pub find_of_NoKey : (k : K) (rs : List (Row K T)) → NoKey k rs → find k rs ≡ none
  find_of_NoKey k [] n = refl
  find_of_NoKey k (r ∷ rs) n = ground (arith, find_of_NoKey k rs n.1)

  pub find-snoc :
      (k : K) (rs : List (Row K T)) (q : Row K T)
      → q.answer_key ≢ k
      → find k (rs ++ q ∷ []) ≡ find k rs
  find-snoc k [] q n = ground arith
  find-snoc k (r ∷ rs) q n = ground (arith, find-snoc k rs q n)

  pub find-snoc_self :
      (rs : List (Row K T)) (q : Row K T)
      → NoKey q.answer_key rs
      → q.is_valid ≡ true
      → find q.answer_key (rs ++ q ∷ []) ≡ some q
  find-snoc_self [] q n v = ground arith
  find-snoc_self (r ∷ rs) q n v = ground (arith, find-snoc_self rs q n.1 v)

  -- Rows of another key may go.
  pub find-delete :
      (k : K) (p : Row K T → Bool) (rs : List (Row K T))
      → All (λ r. p r ≡ true → r.answer_key ≢ k) rs
      → find k (delete_where p rs) ≡ find k rs
  find-delete k p [] h = refl
  find-delete k p (r ∷ rs) h = elim (Bool-cases (p r)) [
    | inl e ↦ ground (arith, h.0 e, find-delete k p rs h.1)
    | inr e ↦ ground (arith, find-delete k p rs h.1)
  ]

  All-select_one :
      (P : Row K T → Type ℓ) (p : Row K T → Bool) (rs : List (Row K T)) (r : Row K T)
      → All P rs
      → select_one p rs ≡ some r
      → P r
  All-select_one P p [] r a h = cc
  All-select_one P p (q ∷ rs) r a h = elim (Bool-cases (p q)) [
    | inl e ↦ let same : q ≡ r = ground arith in subst P same a.0
    | inr e ↦ All-select_one P p rs r a.1 (ground arith)
  ]

  unmatched :
      (id k : K) (r : Row K T) (rs : List (Row K T))
      → r.id ≡ id
      → All (Apart r) rs
      → All (λ q. has_id dec id q ≡ true → q.answer_key ≡ k) rs
  unmatched id k r [] e a = tt
  unmatched id k r (q ∷ rs) e a =
      ((λ h. absurd (a.0.ids ((equal_iff dec q.id id).0 h ∙ sym e))), unmatched id k r rs e a.1)

  -- The row that is found by its key is the only one with its id.
  same_key_of_id :
      (k : K) (rs : List (Row K T)) (old : Row K T)
      → Distinct rs
      → select_one (has_key dec k) rs ≡ some old
      → All (λ r. has_id dec old.id r ≡ true → r.answer_key ≡ k) rs
  same_key_of_id k [] old d h = tt
  same_key_of_id k (r ∷ rs) old d h = elim (dec r.answer_key k) [
    | yes e ↦ ((λ _. e), unmatched old.id k r rs (ground arith) d.0)
    | no n ↦
        let found : select_one (has_key dec k) rs ≡ some old = ground arith in
        let apart = All-select_one (Apart r) (has_key dec k) rs old d.0 found in
        (
          (λ i. absurd (apart.ids (sym ((equal_iff dec r.id old.id).0 i)))),
          same_key_of_id k rs old d.1 found,
        )
  ]

  pub find_key :
      (k : K) (rs : List (Row K T)) {r : Row K T}
      → find k rs ≡ some r
      → (r.answer_key ≡ k) × (r.is_valid ≡ true)
  find_key k [] h = absurd (ground arith)
  find_key k (q ∷ rs) {r} h = ground (arith, find_key k rs {r = r})

  -- A change of the row with an id.
  abbrev pub changed : (Row K T → Row K T) → K → Option (Row K T) → Option (Row K T)
  changed f id none = none
  changed f id (some r) =
      if has_id dec id r then (if (f r).is_valid then some (f r) else none) else some r

  pub find-update :
      (f : Row K T → Row K T) (k id : K) (rs : List (Row K T))
      → KeepsKeys f
      → ((r : Row K T) → r.is_valid ≡ false → (f r).is_valid ≡ false)
      → Distinct rs
      → find k (update_where (has_id dec id) f rs) ≡ changed f id (find k rs)
  find-update f k id [] keeps low d = refl
  find-update f k id (r ∷ rs) keeps low d =
      let single : r.answer_key ≡ k → find k rs ≡ none =
        λ e. find_of_NoKey k rs (NoKey-of_Apart k r rs e d.0) in
      let kept = keeps.same_key r in
      let still = low r in ground (arith, single, kept, still, find-update f k id rs keeps low d.1)

module _ {ℓ} {K T V : Type ℓ} (dec : Discrete K) (now : ℕ) (db : Db K T V) where
  pub cache_invalidate-Distinct :
      (id : K) (reason : Reason K)
      → Distinct db.rows
      → Distinct (cache_invalidate dec now db id reason).rows
  unfolding cache_invalidate
  cache_invalidate-Distinct id reason d =
      Distinct-update (has_id dec id) (invalidated now reason) (invalidated-KeepsKeys now reason)
        db.rows d

  pub cache_increment_serve-Distinct :
      (id : K) → Distinct db.rows → Distinct (cache_increment_serve dec now db id).rows
  unfolding cache_increment_serve
  cache_increment_serve-Distinct id d =
      Distinct-update (has_id dec id) (served now) (served-KeepsKeys now) db.rows d

  pub lookup-invalidate :
      (k id : K) (reason : Reason K)
      → Distinct db.rows
      → cache_lookup dec (cache_invalidate dec now db id reason) k
        ≡ changed dec (invalidated now reason) id (cache_lookup dec db k)
  unfolding cache_lookup cache_invalidate
  lookup-invalidate k id reason d =
      find-update dec (invalidated now reason) k id db.rows (invalidated-KeepsKeys now reason)
        (λ r v. refl) d

  pub lookup-increment_serve :
      (k id : K)
      → Distinct db.rows
      → cache_lookup dec (cache_increment_serve dec now db id) k
        ≡ changed dec (served now) id (cache_lookup dec db k)
  unfolding cache_lookup cache_increment_serve
  lookup-increment_serve k id d =
      find-update dec (served now) k id db.rows (served-KeepsKeys now) (λ r v. v) d

  pub lookup-invalidate_self :
      (k : K) (reason : Reason K) {cached : Row K T}
      → Distinct db.rows
      → cache_lookup dec db k ≡ some cached
      → cache_lookup dec (cache_invalidate dec now db cached.id reason) k ≡ none
  lookup-invalidate_self k reason {cached} d e =
      lookup-invalidate k cached.id reason d ∙ rw e (rw (equal_self dec cached.id) refl)

  find-delete_old :
      (k k' : K) (o : Option (Row K T))
      → Distinct db.rows
      → k ≢ k'
      → select_one (has_key dec k') db.rows ≡ o
      → find dec k (delete_old dec o db).rows ≡ find dec k db.rows
  unfolding delete_old
  find-delete_old k k' none d ne h = refl
  find-delete_old k k' (some old) d ne h =
      find-delete dec k (has_id dec old.id) db.rows
        (other db.rows (same_key_of_id dec k' db.rows old d h))
    where
      other :
          (rs : List (Row K T))
          → All (λ r. has_id dec old.id r ≡ true → r.answer_key ≡ k') rs
          → All (λ r. has_id dec old.id r ≡ true → r.answer_key ≢ k) rs
      other [] a = tt
      other (r ∷ rs) a = ((λ i e. ne (sym e ∙ a.0 i)), other rs a.1)

  -- On a table with unique ids and keys, after a successful `cache_store` the key has the new answer, valid and not served yet, and every other key
  -- has what it had before.
  pub lookup-store :
      (r : Row K T) (k : K) {db' : Db K T V}
      → Distinct db.rows
      → cache_store dec now db r ≡ some db'
      → (cache_lookup dec db' r.answer_key ≡ some (inserted now r))
        × (k ≢ r.answer_key → cache_lookup dec db' k ≡ cache_lookup dec db k)
  unfolding cache_lookup
  lookup-store r k {db'} d h =
      let (d', (rest, e, n, o)) = cache_store-rows dec now db r d h in
      (
        rw e (find-snoc_self dec rest (inserted now r) n refl),
        λ ne. rw e (
            find-snoc dec k rest (inserted now r) (λ q. ne (sym q))
            ∙ rw o (
                find-delete_old k r.answer_key (select_one (has_key dec r.answer_key) db.rows) d ne
                  refl)),
      )
