-- ===== src/Cache/Sections.antt =====
-- What a change of a section does to the answers that cite it: `update_section_content` and
-- `cache_invalidate_by_section` of core/bitmod/adapters/db_sqlite.py, under the checks of
-- core/bitmod/cache_engine.py.
use bit_mod_ai_inference_cac.Cache.Lookup.{find}
use mathlib.Core.Path.{subst}
use bit_mod_ai_inference_cac.Cache.Serve.{
  try_cache_refused, try_cache_served_iff, Servable, SourceCurrent,
}
use bit_mod_ai_inference_cac.Cache.Engine.{try_cache, is_temporal_query}
use bit_mod_ai_inference_cac.Cache.Table.{invalidated-KeepsKeys, Distinct-update, Distinct}
use bit_mod_ai_inference_cac.Cache.Backend.{
  invalidated, count_where, cache_invalidate_by_section, cites, update_where,
  get_section_version_hash, section_hash, cache_lookup, update_section_content,
}
use bit_mod_ai_inference_cac.Cache.{section_changed, Row, Source, Db, Section}
use bit_mod_ai_inference_cac.Prelude.{
  ◌∙◌, ◌&&◌, Option-cases, zero, [], ◌+◌, inr, suc, Bool-cases, inl, ◌⊎◌, false, ◌∷◌, none, true,
  ◌≢◌, arith, equal, refl, some, Bool, ◌≡◌, get_elem?, All, ℕ, List,
}

module _ {ℓ} {K : Type ℓ} (dec : Discrete K) where
  hash-update :
      (ss : List (Section K)) (s h : K)
      → (section_hash dec
            (update_where
              (λ (x : Section K). equal dec x.id s)
              (λ x. record x { version_hash = h })
              ss)
            s
          ≡ none)
        ⊎ (section_hash dec
              (update_where
                (λ (x : Section K). equal dec x.id s)
                (λ x. record x { version_hash = h })
                ss)
              s
            ≡ some h)
  hash-update [] s h = inl refl
  hash-update (x ∷ ss) s h = elim (hash-update ss s h) [
    | inl e ↦ elim (dec x.id s) [
      | yes p ↦ elim (Bool-cases x.is_current) [
        | inl c ↦ inr (ground arith)
        | inr c ↦ inl (ground arith)
      ]
      | no n ↦ inl (ground arith)
    ]
    | inr e ↦ inr (ground arith)
  ]

module _ {ℓ κ} {A : Type ℓ} (P : A → Type κ) where
  All-get_elem : (xs : List A) (i : ℕ) (x : A) → All P xs → get_elem? xs i ≡ some x → P x
  All-get_elem [] i x a h = absurd (ground arith)
  All-get_elem (y ∷ xs) zero x a h = let same : y ≡ x = ground arith in subst P same a.0
  All-get_elem (y ∷ xs) (suc i) x a h = All-get_elem xs i x a.1 h

module _ {ℓ} {K T V : Type ℓ} (dec : Discrete K) (now : ℕ) (decrypt : T → T) where
  edited_not_current :
      (db : Db K T V) (s : Source K) {section old : K} (new : K)
      → s.section_id ≡ some section
      → s.version_hash ≡ some old
      → old ≢ new
      → ¬ SourceCurrent dec now (update_section_content dec db section new) s
  unfolding update_section_content get_section_version_hash
  edited_not_current db s {section} new e f ne c = elim (hash-update dec db.sections section new) [
    | inl g ↦ let (h, p, q) = rw e at c in ground arith
    | inr g ↦ let (h, p, q) = rw e at c in ground arith
  ]

  lookup-update_section :
      (db : Db K T V) (section new k : K)
      → cache_lookup dec (update_section_content dec db section new) k ≡ cache_lookup dec db k
  unfolding cache_lookup update_section_content
  lookup-update_section db section new k = refl

  not-Servable :
      (db : Db K T V) (cached : Row K T) (i : ℕ) (s : Source K) {section old : K} (new : K)
      → is_temporal_query cached ≡ false
      → get_elem? cached.source_sections i ≡ some s
      → s.section_id ≡ some section
      → s.version_hash ≡ some old
      → old ≢ new
      → ¬ Servable dec now decrypt (update_section_content dec db section new) cached
  not-Servable db cached i s {section} new t g e f ne ok = elim ok.up_to_date [
    | inl p ↦ cc
    | inr a ↦ edited_not_current db s new e f ne (
        All-get_elem (SourceCurrent dec now (update_section_content dec db section new))
          cached.source_sections i s a g)
  ]

  try_cache-none :
      (db : Db K T V) (k : K)
      → cache_lookup dec db k ≡ none
      → (try_cache dec now decrypt db k).1 ≡ none
  unfolding try_cache
  try_cache-none db k e = ground arith

  -- On a table with unique ids and keys: after the content of a section has changed to another hash,
  -- the valid answer of a key that is not temporal and
  -- cites the section at its old hash is not served, and no change of that section, back to the old
  -- hash included, brings it back.
  pub edited_section_refused :
      (db : Db K T V) (k : K) (cached : Row K T) (i : ℕ) (s : Source K) (section old new : K)
      → Distinct db.rows
      → cache_lookup dec db k ≡ some cached
      → is_temporal_query cached ≡ false
      → get_elem? cached.source_sections i ≡ some s
      → s.section_id ≡ some section
      → s.version_hash ≡ some old
      → old ≢ new
      → let after = try_cache dec now decrypt (update_section_content dec db section new) k in
        (after.1 ≡ none)
        × ((h : K)
            → (try_cache dec now decrypt (update_section_content dec after.0 section h) k).1 ≡ none)
  edited_section_refused db k cached i s section old new d found t g e f ne =
      let edited : Db K T V = update_section_content dec db section new in
      let refused : (try_cache dec now decrypt edited k).1 ≡ none =
        elim (Option-cases (try_cache dec now decrypt edited k).1) [
          | inl e ↦ e
          | inr (r, served) ↦
              let (c, l, ok, _, _) = (try_cache_served_iff dec now decrypt edited k r).0 served in
              let same : c ≡ cached = ground (arith, lookup-update_section db section new k) in
              absurd (
                not-Servable db cached i s new t g e f ne
                  (subst (Servable dec now decrypt edited) same ok))
        ] in
      let distinct : Distinct edited.rows = unfold update_section_content in d in
      let gone = (try_cache_refused dec now decrypt edited k distinct).0 refused in
      (
        refused,
        λ h.
            try_cache-none
              (update_section_content dec (try_cache dec now decrypt edited k).0 section h) k
              (lookup-update_section (try_cache dec now decrypt edited k).0 section h k ∙ gone),
      )

module _ {ℓ} {K : Type ℓ} (dec : Discrete K) (like : K → List (Source K) → Bool) where
  -- The prefilter passes every row that cites the section.
  abbrev pub IsComplete : Type ℓ
  IsComplete =
      (section : K) (ss : List (Source K)) → cites dec section ss ≡ true → like section ss ≡ true

module _ {ℓ} {K T : Type ℓ} (dec : Discrete K) (like : K → List (Source K) → Bool) (now : ℕ)
    (section : K) where
  abbrev hit : Row K T → Bool
  hit r = (r.is_valid && like section r.source_sections) && cites dec section r.source_sections

  abbrev marked : List (Row K T) → List (Row K T)
  marked = update_where hit (invalidated now (section_changed section))

  marked_clear :
      IsComplete dec like
      → (rs : List (Row K T))
      → All
          (λ (r : Row K T). r.is_valid ≡ true → cites dec section r.source_sections ≡ false)
          (marked rs)
  marked_clear c [] = tt
  marked_clear c (r ∷ rs) =
      let complete = c section r.source_sections in (ground arith, marked_clear c rs)

  marked_count :
      (rs : List (Row K T))
      → count_where (λ (r : Row K T). r.is_valid) (marked rs) + count_where hit rs
        ≡ count_where (λ (r : Row K T). r.is_valid) rs
  marked_count [] = omega arith
  marked_count (r ∷ rs) = ground (arith, marked_count rs)

  find-marked :
      (k : K) (rs : List (Row K T)) (q : Row K T)
      → find dec k rs ≡ some q
      → cites dec section q.source_sections ≡ false
      → find dec k (marked rs) ≡ some q
  find-marked k [] q h n = h
  find-marked k (r ∷ rs) q h n = ground (arith, find-marked k rs q)

module _ {ℓ} {K T V : Type ℓ} (dec : Discrete K) (like : K → List (Source K) → Bool) (now : ℕ) where
  -- On a table with unique ids and keys, if the prefilter passes every row that cites the section, `cache_invalidate_by_section` leaves no
  -- valid answer that cites it, takes exactly the number that it returns from the valid answers,
  -- keeps ids and keys unique, and keeps every answer that does not cite the section.
  pub invalidate_by_section_lem :
      IsComplete dec like
      → (db : Db K T V) (section : K) → Distinct db.rows
      → let after = cache_invalidate_by_section dec like now db section in
        All
          (λ (r : Row K T). r.is_valid ≡ true → cites dec section r.source_sections ≡ false)
          after.0.rows
        × (count_where (λ (r : Row K T). r.is_valid) after.0.rows + after.1
            ≡ count_where (λ (r : Row K T). r.is_valid) db.rows)
        × Distinct after.0.rows
        × ((k : K) (r : Row K T)
            → cache_lookup dec db k ≡ some r
            → cites dec section r.source_sections ≡ false
            → cache_lookup dec after.0 k ≡ some r)
  unfolding cache_invalidate_by_section cache_lookup
  invalidate_by_section_lem c db section d = (
    marked_clear dec like now section c db.rows,
    marked_count dec like now section db.rows,
    Distinct-update (hit dec like now section) (invalidated now (section_changed section))
        (invalidated-KeepsKeys now (section_changed section)) db.rows d,
    λ k r. find-marked dec like now section k db.rows r,
  )
