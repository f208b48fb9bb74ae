-- ===== src/Cache/Evict/Limit.antt =====
-- core/bitmod/adapters/db_sqlite.py: which entries `cache_evict_lru` leaves, and how many.
use mathlib.Core.Path.{subst}
use bit_mod_ai_inference_cac.Cache.Evict.Order.{
  All-of_sort_by, count-delete_where, All-of_select_where, All-delete_where, All-select_where,
  sort_by-Sorted, All-under, All-sort_by, take-Sorted, All-take, All-swap, count-select_where,
  count-append, take-drop, count-both_self, count-le_length, count-le_both, count-sort_by, both,
  All-imp, All-zip,
}
use bit_mod_ai_inference_cac.Cache.Evict.{
  delete_ids, select_where, served_before, sort_by, cache_evict_lru, scored, cache_count, row_ids,
  is_one_of,
}
use bit_mod_ai_inference_cac.Prelude.{
  ◌==◌, All-append, leb→le, leb, min, drop, length-take, ◌-◌, take, none, sym, ℕ, ◌≢◌, ◌∙◌,
  equal_self, inr, inl, Bool-cases, suc, equal_iff, refl, false, ap, true, ◌+◌, arith, length, All,
  [], ◌∷◌, ◌≤◌, ◌≡◌, Bool, List,
}
use bit_mod_ai_inference_cac.Cache.{Row, Db}
use bit_mod_ai_inference_cac.Cache.Backend.{count_where, delete_where, has_id, select_one}
use bit_mod_ai_inference_cac.Cache.Table.{Distinct, Apart}

module _ {ℓ} {K T : Type ℓ} (dec : Discrete K) where
  -- One of the ids to delete.
  abbrev pub is_hit : List K → Row K T → Bool
  is_hit ids r = is_one_of dec ids r.id

  count-has_id_0 :
      (k : K) (r : Row K T) (rs : List (Row K T))
      → r.id ≡ k
      → All (Apart r) rs
      → count_where (has_id dec k) rs ≡ 0
  count-has_id_0 k r [] e h = refl
  count-has_id_0 k r (q ∷ rs) e h = ground (arith, count-has_id_0 k r rs e h.1, h.0.ids)

  count-has_id : (k : K) (rs : List (Row K T)) → Distinct rs → count_where (has_id dec k) rs ≤ 1
  count-has_id k [] d = omega arith
  count-has_id k (r ∷ rs) d = elim (dec r.id k) [
    | yes e ↦ ground (arith, count-has_id_0 k r rs e d.0)
    | no n ↦ ground (arith, count-has_id k rs d.1)
  ]

  count-is_hit_cons :
      (k : K) (ids : List K) (rs : List (Row K T))
      → count_where (is_hit (k ∷ ids)) rs
        ≤ count_where (has_id dec k) rs + count_where (is_hit ids) rs
  unfolding is_one_of
  count-is_hit_cons k ids [] = omega arith
  count-is_hit_cons k ids (r ∷ rs) =
      ground (arith, count-is_hit_cons k ids rs, equal_iff dec k r.id, equal_iff dec r.id k)

  count-is_hit_nil : (rs : List (Row K T)) → count_where (is_hit []) rs ≡ 0
  unfolding is_one_of
  count-is_hit_nil [] = refl
  count-is_hit_nil (r ∷ rs) = omega (arith, count-is_hit_nil rs)

  -- Ids that each hit at most one row hit no more rows than they are.
  count-is_hit_upper :
      (ids : List K) (rs : List (Row K T))
      → ((k : K) → count_where (has_id dec k) rs ≤ 1)
      → count_where (is_hit ids) rs ≤ length ids
  count-is_hit_upper [] rs h = omega (arith, count-is_hit_nil rs)
  count-is_hit_upper (k ∷ ids) rs h =
      omega (arith, count-is_hit_cons k ids rs, count-is_hit_upper ids rs h, h k)

  row_ids-IsHit : (rs : List (Row K T)) → All (λ r. is_hit (row_ids rs) r ≡ true) rs
  unfolding is_one_of
  row_ids-IsHit [] = tt
  row_ids-IsHit (r ∷ rs) = (
    rw (equal_self dec r.id) refl,
    All-imp (λ q. is_hit (row_ids rs) q ≡ true) (λ q. is_hit (row_ids (r ∷ rs)) q ≡ true)
        (λ q h. ground (arith, h)) rs (row_ids-IsHit rs),
  )

  count-All :
      (p : Row K T → Bool) (rs : List (Row K T))
      → All (λ r. p r ≡ true) rs
      → count_where p rs ≡ length rs
  count-All p [] h = refl
  count-All p (r ∷ rs) h = ground (arith, count-All p rs h.1, h.0)

  length-row_ids : (rs : List (Row K T)) → length (row_ids rs) ≡ length rs
  length-row_ids [] = refl
  length-row_ids (r ∷ rs) = ap suc (length-row_ids rs)

  -- A row that an id of the list names, among rows with a property.
  is_one_of-All :
      (P : Row K T → Type ℓ) (rs : List (Row K T)) (k : K)
      → is_one_of dec (row_ids rs) k ≡ true
      → All P rs
      → (r : Row K T) × (r.id ≡ k) × P r
  unfolding is_one_of
  is_one_of-All P [] k e h = absurd (ground arith)
  is_one_of-All P (r ∷ rs) k e h = elim (dec r.id k) [
    | yes same ↦ (r, same, h.0)
    | no n ↦ is_one_of-All P rs k (ground arith) h.1
  ]

  Distinct-unique_head :
      (r : Row K T) (rs : List (Row K T)) → All (Apart r) rs → All (λ a. a.id ≡ r.id → a ≡ r) rs
  Distinct-unique_head r [] h = tt
  Distinct-unique_head r (q ∷ rs) h = ((λ e. absurd (h.0.ids e)), Distinct-unique_head r rs h.1)

  -- An id names one row.
  Distinct-unique :
      (rs : List (Row K T)) → Distinct rs → All (λ q. All (λ a. a.id ≡ q.id → a ≡ q) rs) rs
  Distinct-unique [] d = tt
  Distinct-unique (r ∷ rs) d = (
    ((λ e. refl), Distinct-unique_head r rs d.0),
    All-zip (Apart r) (λ q. All (λ a. a.id ≡ q.id → a ≡ q) rs)
        (λ q. All (λ a. a.id ≡ q.id → a ≡ q) (r ∷ rs))
        (λ q apart h. ((λ e. absurd (apart.ids (sym e))), h)) rs d.0 (Distinct-unique rs d.1),
  )

  select_one-delete :
      (ids : List K) (k : K) (rs : List (Row K T))
      → is_one_of dec ids k ≡ false
      → select_one (has_id dec k) (delete_where (is_hit ids) rs) ≡ select_one (has_id dec k) rs
  select_one-delete ids k [] h = refl
  select_one-delete ids k (r ∷ rs) h = elim (dec r.id k) [
    | yes e ↦
        let kept : is_hit ids r ≡ false = ap (is_one_of dec ids) e ∙ h in
        rw kept (ground (arith, e))
    | no n ↦ elim (Bool-cases (is_hit ids r)) [
      | inl e ↦ ground (arith, select_one-delete ids k rs h)
      | inr e ↦ ground (arith, select_one-delete ids k rs h)
    ]
  ]

  found_self : (rs : List (Row K T)) → All (λ q. select_one (has_id dec q.id) rs ≢ none) rs
  found_self [] = tt
  found_self (r ∷ rs) = (
    ground (arith, equal_self dec r.id),
    All-imp (λ q. select_one (has_id dec q.id) rs ≢ none)
        (λ q. select_one (has_id dec q.id) (r ∷ rs) ≢ none) (λ q h. ground arith) rs
        (found_self rs),
  )

module _ {ℓ} {K T V : Type ℓ} (dec : Discrete K) (value : Row K T → ℕ) where
  abbrev pub evictees : Db K T V → ℕ → List (Row K T)
  evictees db max_entries = take (cache_count db - max_entries) (scored dec value db)

  count-scored :
      (db : Db K T V) (p : Row K T → Bool)
      → count_where p (scored dec value db) ≡ count_where (both (λ r. r.is_valid) p) db.rows
  unfolding scored
  count-scored db p =
      count-sort_by p _ (sort_by served_before (select_where (λ r. r.is_valid) db.rows))
      ∙ count-sort_by p served_before (select_where (λ r. r.is_valid) db.rows)
      ∙ count-select_where (λ r. r.is_valid) p db.rows

  length-evictees :
      (db : Db K T V) (max_entries : ℕ)
      → length (evictees db max_entries) ≡ cache_count db - max_entries
  unfolding cache_count
  length-evictees db max_entries = omega (
    arith,
    length-take (cache_count db - max_entries) (scored dec value db),
    count-le_length (λ r. r.is_valid) (scored dec value db),
    count-scored db (λ r. r.is_valid),
    count-both_self (λ (r : Row K T). r.is_valid) db.rows,
  )

  -- To delete the evictees deletes as many valid rows.
  count-evictees :
      (db : Db K T V) (max_entries : ℕ)
      → Distinct db.rows
      → count_where
          (both (λ r. r.is_valid) (is_hit dec (row_ids (evictees db max_entries))))
          db.rows
        ≡ cache_count db - max_entries
  count-evictees db max_entries d =
      let n = cache_count db - max_entries in
      let hit = is_hit {T = T} dec (row_ids (evictees db max_entries)) in
      let single : (k : K) → count_where (has_id dec k) (scored dec value db) ≤ 1 = λ k. omega (
        arith,
        count-scored db (has_id dec k),
        count-le_both (λ r. r.is_valid) (has_id dec k) db.rows,
        count-has_id dec k db.rows d,
      ) in
      let all_hit : count_where hit (evictees db max_entries) ≡ length (evictees db max_entries) =
        count-All dec hit (evictees db max_entries) (row_ids-IsHit dec (evictees db max_entries)) in
      let parts : count_where hit (scored dec value db)
          ≡ count_where hit (evictees db max_entries)
            + count_where hit (drop n (scored dec value db)) =
        ap (count_where hit) (sym (take-drop n (scored dec value db)))
        ∙ count-append hit (evictees db max_entries) (drop n (scored dec value db)) in
      omega (
        arith,
        count-scored db hit,
        all_hit,
        parts,
        length-evictees db max_entries,
        length-row_ids dec (evictees db max_entries),
        count-is_hit_upper dec (row_ids (evictees db max_entries)) (scored dec value db) single,
      )

  -- A valid row that stays has at least the value of every row that goes.
  staying :
      (db : Db K T V) (max_entries : ℕ)
      → All
          (λ r.
            r.is_valid ≡ true
            → is_hit dec (row_ids (evictees db max_entries)) r ≡ false
            → All (λ a. value a ≤ value r) (evictees db max_entries))
          db.rows
  unfolding scored
  staying db max_entries =
      let n = cache_count db - max_entries in
      let gone = evictees db max_entries in
      let P =
        λ (r : Row K T). is_hit dec (row_ids gone) r ≡ false → All (λ a. value a ≤ value r) gone in
      let kept = drop n (scored dec value db) in
      let of_gone : All P gone =
        All-imp (λ r. is_hit dec (row_ids gone) r ≡ true) P (λ r hit e. absurd (ground arith)) gone
          (row_ids-IsHit dec gone) in
      let of_kept : All P kept =
        All-imp (λ r. All (λ a. value a ≤ value r) gone) P (λ r h e. h) kept
          (All-swap (λ a b. value a ≤ value b) gone kept
            (take-Sorted value n (scored dec value db) (
              sort_by-Sorted value
                (sort_by served_before (select_where (λ r. r.is_valid) db.rows))))) in
      let of_all : All P (scored dec value db) =
        subst (All P) (take-drop n (scored dec value db))
          (All-append P gone kept of_gone of_kept) in
      All-of_select_where P (λ r. r.is_valid) db.rows
        (All-of_sort_by P served_before _
          (All-of_sort_by P (λ r q. leb (value r) (value q)) _ of_all))

  -- A row that goes is one of the evictees.
  leaving :
      (db : Db K T V) (max_entries : ℕ)
      → Distinct db.rows
      → All (λ q. All (λ a. a.id ≡ q.id → a ≡ q) (evictees db max_entries)) db.rows
  unfolding scored
  leaving db max_entries d =
      All-imp (λ q. All (λ a. a.id ≡ q.id → a ≡ q) db.rows)
        (λ q. All (λ a. a.id ≡ q.id → a ≡ q) (evictees db max_entries))
        (λ q h.
          let P = λ (a : Row K T). a.id ≡ q.id → a ≡ q in
          All-take P (cache_count db - max_entries) (scored dec value db) (
            All-sort_by P (λ r q. leb (value r) (value q)) _
              (All-sort_by P served_before _ (All-select_where P (λ r. r.is_valid) db.rows h))))
        db.rows (Distinct-unique dec db.rows d)

  -- The rows left, each with what goes below it.
  rows_left :
      (db : Db K T V) (max_entries : ℕ)
      → let after = delete_where (is_hit dec (row_ids (evictees db max_entries))) db.rows in
        All (λ a. All (λ r. r.is_valid ≡ true → value a ≤ value r) after) (evictees db max_entries)
  rows_left db max_entries =
      let gone = evictees db max_entries in
      let after = delete_where (is_hit dec (row_ids gone)) db.rows in
      All-swap (λ r a. r.is_valid ≡ true → value a ≤ value r) after gone
        (All-imp _ (λ r. All (λ a. r.is_valid ≡ true → value a ≤ value r) gone)
          (λ r (missed, h).
            All-under (λ a. value a ≤ value r) (r.is_valid ≡ true) gone (λ v. h v missed))
          after (All-delete_where _ (is_hit dec (row_ids gone)) db.rows (staying db max_entries)))

  evicted_below :
      (db : Db K T V) (max_entries : ℕ)
      → Distinct db.rows
      → let after = delete_where (is_hit dec (row_ids (evictees db max_entries))) db.rows in
        All
          (λ q.
            select_one (has_id dec q.id) after ≡ none
            → All (λ r. r.is_valid ≡ true → value q ≤ value r) after)
          db.rows
  evicted_below db max_entries d =
      let gone = evictees db max_entries in
      let after = delete_where (is_hit dec (row_ids gone)) db.rows in
      All-zip (λ q. select_one (has_id dec q.id) db.rows ≢ none)
        (λ q. All (λ a. a.id ≡ q.id → a ≡ q) gone)
        (λ q.
          select_one (has_id dec q.id) after ≡ none
          → All (λ r. r.is_valid ≡ true → value q ≤ value r) after)
        (λ q found unique missing. elim (Bool-cases (is_hit dec (row_ids gone) q)) [
          | inl hit ↦
              let (a, same, (one, below)) =
                is_one_of-All dec
                  (λ a.
                    (a.id ≡ q.id → a ≡ q) × All (λ r. r.is_valid ≡ true → value a ≤ value r) after)
                  gone q.id hit
                  (All-zip _ _ _ (λ a u b. (u, b)) gone unique (rows_left db max_entries)) in
              subst (λ x. All (λ r. r.is_valid ≡ true → value x ≤ value r) after) (one same) below
          | inr missed ↦
              absurd
                (found (sym (select_one-delete dec (row_ids gone) q.id db.rows missed) ∙ missing))
        ])
        db.rows (found_self dec db.rows) (leaving db max_entries d)

  -- With unique ids, `cache_evict_lru` leaves as many valid entries as the limit allows, and returns the
  -- number that it deletes. A valid entry that is gone is worth no more than any that stays.
  pub cache_evict_lru_lem :
      (db : Db K T V) (max_entries : ℕ)
      → Distinct db.rows
      → let (after, deleted) = cache_evict_lru dec value db max_entries in
        (cache_count after ≡ min (cache_count db) max_entries)
        × (deleted ≡ cache_count db - cache_count after)
        × All
            (λ q.
              q.is_valid ≡ true
              → select_one (has_id dec q.id) after.rows ≡ none
              → All (λ r. r.is_valid ≡ true → value q ≤ value r) after.rows)
            db.rows
  unfolding cache_evict_lru cache_count delete_ids
  cache_evict_lru_lem db max_entries d = elim (Bool-cases (leb (cache_count db) max_entries)) [
    | inl e ↦ rw e (
      omega (arith, leb→le (cache_count db) max_entries e),
      omega arith,
      All-imp (λ q. select_one (has_id dec q.id) db.rows ≢ none) _
          (λ q found v missing. absurd (found missing)) db.rows (found_self dec db.rows),
    )
    | inr e ↦
        let ids = row_ids (evictees db max_entries) in
        let size : length ids ≡ cache_count db - max_entries =
          length-row_ids dec (evictees db max_entries) ∙ length-evictees db max_entries in
        let some_go : (length ids == 0) ≡ false = ground arith in
        let balance = count-delete_where (λ (r : Row K T). r.is_valid) (is_hit dec ids) db.rows in
        let gone = count-evictees db max_entries d in
        rw (e, some_go)
          (
            ground arith,
            ground arith,
            All-imp _ _ (λ q h v. h) db.rows (evicted_below db max_entries d),
          )
  ]
