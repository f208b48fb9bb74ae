-- ===== src/Cache/Table.antt =====
-- `answer_cache` keeps its ids and its answer keys unique (core/bitmod/adapters/db_sqlite.py).
use bit_mod_ai_inference_cac.Cache.Backend.{
  inserted, cache_store, insert_row, delete_old, has_id, has_key, invalidated, update_where,
  delete_where, select_one, served,
}
use bit_mod_ai_inference_cac.Prelude.{
  Option-cases, Option, sym, true, ◌∙◌, inr, inl, some, none, All-append, arith, Bool-cases, refl,
  [], ◌++◌, if◌then◌else◌, All, Bool, ◌≡◌, ◌∷◌, ◌≢◌, ℕ, List,
}
use bit_mod_ai_inference_cac.Cache.{Db, Reason, Row}

module _ {ℓ} {K T : Type ℓ} where
  pub record Apart (r q : Row K T) : Type ℓ where
    pub ids : q.id ≢ r.id
    pub keys : q.answer_key ≢ r.answer_key

  -- No two rows share an id or a key.
  abbrev pub Distinct : List (Row K T) → Type ℓ
  Distinct [] = Unit
  Distinct (r ∷ rs) = All (Apart r) rs × Distinct rs

  -- A change of a row that leaves the columns under a unique index alone.
  pub record KeepsKeys (f : Row K T → Row K T) : Type ℓ where
    pub same_id : (r : Row K T) → (f r).id ≡ r.id
    pub same_key : (r : Row K T) → (f r).answer_key ≡ r.answer_key

  module _ (p : Row K T → Bool) where
    Apart-delete :
        (r : Row K T) (rs : List (Row K T)) → All (Apart r) rs → All (Apart r) (delete_where p rs)
    Apart-delete r [] h = tt
    Apart-delete r (q ∷ rs) h = elim (Bool-cases (p q)) [
      | inl e ↦ rw e (Apart-delete r rs h.1)
      | inr e ↦ rw e (h.0, Apart-delete r rs h.1)
    ]

    pub Distinct-delete : (rs : List (Row K T)) → Distinct rs → Distinct (delete_where p rs)
    Distinct-delete [] d = tt
    Distinct-delete (r ∷ rs) d = elim (Bool-cases (p r)) [
      | inl e ↦ rw e (Distinct-delete rs d.1)
      | inr e ↦ rw e (Apart-delete r rs d.0, Distinct-delete rs d.1)
    ]

    module _ (f : Row K T → Row K T) (k : KeepsKeys f) where
      Apart-update :
          (r : Row K T) (rs : List (Row K T))
          → All (Apart r) rs
          → All (Apart r) (update_where p f rs)
      Apart-update r [] h = tt
      Apart-update r (q ∷ rs) h = (ground (arith, k.same_id q, k.same_key q), Apart-update r rs h.1)

      Apart-head :
          (b : Bool) (r : Row K T) (rs : List (Row K T))
          → All (Apart r) rs
          → All (Apart (if b then f r else r)) rs
      Apart-head b r [] h = tt
      Apart-head b r (q ∷ rs) h = (ground (arith, k.same_id r, k.same_key r), Apart-head b r rs h.1)

      pub Distinct-update : (rs : List (Row K T)) → Distinct rs → Distinct (update_where p f rs)
      Distinct-update [] d = tt
      Distinct-update (r ∷ rs) d =
          (Apart-head (p r) r (update_where p f rs) (Apart-update r rs d.0), Distinct-update rs d.1)

  Apart-snoc :
      (r q : Row K T) (rs : List (Row K T))
      → Apart r q
      → All (Apart r) rs
      → All (Apart r) (rs ++ q ∷ [])
  Apart-snoc r q rs h a = All-append (Apart r) rs (q ∷ []) a (h, tt)

  pub Distinct-snoc :
      (q : Row K T) (rs : List (Row K T))
      → All (λ r. Apart r q) rs
      → Distinct rs
      → Distinct (rs ++ q ∷ [])
  Distinct-snoc q [] a d = (tt, tt)
  Distinct-snoc q (r ∷ rs) a d = (Apart-snoc r q rs a.0 d.0, Distinct-snoc q rs a.1 d.1)

  pub invalidated-KeepsKeys : (now : ℕ) (reason : Reason K) → KeepsKeys (invalidated now reason)
  invalidated-KeepsKeys now reason = record { same_id = λ r. refl; same_key = λ r. refl }

  pub served-KeepsKeys : (now : ℕ) → KeepsKeys (served now)
  served-KeepsKeys now = record { same_id = λ r. refl; same_key = λ r. refl }

module _ {ℓ} {K T : Type ℓ} where
  -- No row has the key.
  abbrev pub NoKey : K → List (Row K T) → Type ℓ
  NoKey k = All (λ r. r.answer_key ≢ k)

  pub NoKey-delete :
      (k : K) (p : Row K T → Bool) (rs : List (Row K T)) → NoKey k rs → NoKey k (delete_where p rs)
  NoKey-delete k p [] h = tt
  NoKey-delete k p (r ∷ rs) h = elim (Bool-cases (p r)) [
    | inl e ↦ rw e (NoKey-delete k p rs h.1)
    | inr e ↦ rw e (h.0, NoKey-delete k p rs h.1)
  ]

  pub NoKey-of_Apart :
      (k : K) (r : Row K T) (rs : List (Row K T)) → r.answer_key ≡ k → All (Apart r) rs → NoKey k rs
  NoKey-of_Apart k r [] e h = tt
  NoKey-of_Apart k r (q ∷ rs) e h = (λ p. h.0.keys (p ∙ sym e), NoKey-of_Apart k r rs e h.1)

module _ {ℓ} {K T : Type ℓ} (dec : Discrete K) where
  pub NoKey-of_none :
      (k : K) (rs : List (Row K T)) → select_one (has_key dec k) rs ≡ none → NoKey k rs
  NoKey-of_none k [] h = tt
  NoKey-of_none k (r ∷ rs) h = elim (dec r.answer_key k) [
    | yes e ↦ absurd (ground arith)
    | no n ↦ (n, NoKey-of_none k rs (ground arith))
  ]

  -- To delete the row with the key by its id leaves no row with the key.
  pub NoKey-delete_found :
      (k : K) (rs : List (Row K T)) (old : Row K T)
      → Distinct rs
      → select_one (has_key dec k) rs ≡ some old
      → NoKey k (delete_where (has_id dec old.id) rs)
  NoKey-delete_found k [] old d h = cc
  NoKey-delete_found k (r ∷ rs) old d h = elim (dec r.answer_key k) [
    | yes e ↦
        let gone : has_id dec old.id r ≡ true = ground arith in
        rw gone (NoKey-delete k (has_id dec old.id) rs (NoKey-of_Apart k r rs e d.0))
    | no n ↦
        let rest = NoKey-delete_found k rs old d.1 (ground arith) in
        elim (Bool-cases (has_id dec old.id r)) [ inl e ↦ rw e rest | inr e ↦ rw e (n, rest) ]
  ]

  pub Apart-of_none :
      (q : Row K T) (rs : List (Row K T))
      → select_one (has_id dec q.id) rs ≡ none
      → NoKey q.answer_key rs
      → All (λ r. Apart r q) rs
  Apart-of_none q [] h n = tt
  Apart-of_none q (r ∷ rs) h n = (
    record { ids = ground arith; keys = λ e. n.0 (sym e) },
    Apart-of_none q rs (ground arith) n.1,
  )

module _ {ℓ} {K T V : Type ℓ} (dec : Discrete K) where
  delete_old-NoKey :
      (k : K) (db : Db K T V) (o : Option (Row K T))
      → Distinct db.rows
      → select_one (has_key dec k) db.rows ≡ o
      → NoKey k (delete_old dec o db).rows × Distinct (delete_old dec o db).rows
  unfolding delete_old
  delete_old-NoKey k db none d h = (NoKey-of_none dec k db.rows h, d)
  delete_old-NoKey k db (some old) d h =
      (NoKey-delete_found dec k db.rows old d h, Distinct-delete (has_id dec old.id) db.rows d)

  insert_row-Distinct :
      (now : ℕ) (r : Row K T) (db : Db K T V) {db' : Db K T V}
      → Distinct db.rows
      → NoKey r.answer_key db.rows
      → insert_row dec now r db ≡ some db'
      → db'.rows ≡ db.rows ++ inserted now r ∷ [] × Distinct db'.rows
  unfolding insert_row
  insert_row-Distinct now r db {db'} d n h =
      elim (Option-cases (select_one (has_id dec r.id) db.rows)) [
        | inl e ↦
            let same : db'.rows ≡ db.rows ++ inserted now r ∷ [] = ground arith in
            (
              same,
              rw same (
                  Distinct-snoc (inserted now r) db.rows
                    (Apart-of_none dec (inserted now r) db.rows e n) d),
            )
        | inr (q, e) ↦ absurd (ground arith)
      ]

  -- A stored answer is the last row, no row that stays has its key, and the ids and the keys are
  -- unique again.
  pub cache_store-rows :
      (now : ℕ) (db : Db K T V) (r : Row K T) {db' : Db K T V}
      → Distinct db.rows
      → cache_store dec now db r ≡ some db'
      → Distinct db'.rows
        × ((rest : List (Row K T)) × (db'.rows ≡ rest ++ inserted now r ∷ [])
            × NoKey r.answer_key rest
            × (rest ≡ (delete_old dec (select_one (has_key dec r.answer_key) db.rows) db).rows))
  unfolding cache_store
  cache_store-rows now db r d h =
      let old : Option (Row K T) = select_one (has_key dec r.answer_key) db.rows in
      let (n, d') = delete_old-NoKey r.answer_key db old d refl in
      let (e, d'') = insert_row-Distinct now r (delete_old dec old db) d' n h in
      (d'', ((delete_old dec old db).rows, e, n, refl))
