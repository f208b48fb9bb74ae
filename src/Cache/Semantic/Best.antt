-- ===== src/Cache/Semantic/Best.antt =====
-- core/bitmod/cache_engine.py: which answer `semantic_cache_match` serves.
use mathlib.Core.Path.{subst}
use bit_mod_ai_inference_cac.Cache.Semantic.{
  serve_best, semantic_cache_match, is_newer, embeddings_of, pair_with, cache_get_embeddings,
  join_rows, in_scope, best_match,
}
use bit_mod_ai_inference_cac.Prelude.{
  leb→le, leb, none, take, sym, refl, ltb→lt, ◌<◌, equal_iff, ap, ltb, inr, [], max, All-append,
  arith, Option-cases, ◌≤◌, Bool-cases, min, some, ◌&&◌, true, inl, ◌⊎◌, ◌≡◌, ℕ, All, ◌∷◌, Option,
  Bool, List,
}
use mathlib.Core.List.{Memᴰ}
use bit_mod_ai_inference_cac.Cache.{Section, Row, Db}
use bit_mod_ai_inference_cac.Cache.Backend.{
  cache_increment_serve, has_id, select_one, cache_lookup_by_id,
}
use bit_mod_ai_inference_cac.Cache.Table.{Distinct, Apart}
use bit_mod_ai_inference_cac.Cache.Evict.Order.{All-take, All-sort_by, All-zip, All-imp}
use bit_mod_ai_inference_cac.Cache.Evict.{select_where, sort_by}

pub All-Memᴰ {ℓ κ} :
    {A : Type ℓ} (P : A → Type κ) (a : A) (rs : List A) → Memᴰ a rs → All P rs → P a
All-Memᴰ P a _ (Memᴰ.head e) h = subst P (sym e) h.0
All-Memᴰ P a _ (Memᴰ.tail m) h = All-Memᴰ P a _ m h.1

All-select_true {ℓ κ} :
    {A : Type ℓ} (P : A → Type κ) (p : A → Bool) (rs : List A)
    → All (λ r. p r ≡ true → P r) rs
    → All P (select_where p rs)
unfolding select_where
All-select_true P p [] h = tt
All-select_true P p (r ∷ rs) h = elim (Bool-cases (p r)) [
  | inl e ↦ rw e (h.0 e, All-select_true P p rs h.1)
  | inr e ↦ rw e (All-select_true P p rs h.1)
]

-- The start, or the id and the similarity of an embedding that none exceeds.
abbrev IsBest {ℓ} : {K V : Type ℓ} → (V → ℕ) → List (K × V) → Option K × ℕ → Option K × ℕ → Type ℓ
IsBest {K} {V} similarity es best b =
    ((b ≡ best) ⊎ ((e : K × V) × Memᴰ e es × (b ≡ (some e.0, similarity e.1))))
    × All (λ f. similarity f.1 ≤ b.1) es
    × (best.1 ≤ b.1)

best_match-IsBest {ℓ} :
    {K V : Type ℓ} (similarity : V → ℕ) (es : List (K × V)) (best : Option K × ℕ)
    → IsBest similarity es best (best_match similarity es best)
unfolding best_match
best_match-IsBest similarity [] best = (inl refl, tt, omega arith)
best_match-IsBest similarity ((k, v) ∷ es) best = elim (Bool-cases (ltb best.1 (similarity v))) [
  | inl e ↦
      let (out, all, above) = best_match-IsBest similarity es (some k, similarity v) in
      let more : best.1 < similarity v = ltb→lt best.1 (similarity v) e in
      subst (IsBest similarity ((k, v) ∷ es) best) (rw e refl) (
        elim out [
          | inl same ↦ inr ((k, v), Memᴰ.head refl, same)
          | inr (f, m, same) ↦ inr (f, Memᴰ.tail m, same)
        ],
        (above, all),
        omega arith,
      )
  | inr e ↦
      let (out, all, above) = best_match-IsBest similarity es best in
      subst (IsBest similarity ((k, v) ∷ es) best) (rw e refl) (
        elim out [ inl same ↦ inl same | inr (f, m, same) ↦ inr (f, Memᴰ.tail m, same) ],
        (ground arith, all),
        above,
      )
]

module _ {ℓ} {K T : Type ℓ} (dec : Discrete K) (namespace_id : Option K) where
  in_scope-valid : (r : Row K T) → in_scope dec namespace_id r ≡ true → r.is_valid ≡ true
  in_scope-valid r h = elim (Option-cases namespace_id) [
    | inl e ↦ ground (arith, ap (λ n. in_scope dec n r) e)
    | inr (n, e) ↦ ground (arith, ap (λ m. in_scope dec m r) e)
  ]

  -- A row in scope is the one that the lookup by its id finds.
  lookup_scoped :
      (k : K) (rs : List (Row K T))
      → Distinct rs
      → All
          (λ r.
            (has_id dec k r && in_scope dec namespace_id r) ≡ true
            → select_one (λ q. has_id dec k q && q.is_valid) rs ≡ some r)
          rs
  lookup_scoped k [] d = tt
  lookup_scoped k (r ∷ rs) d = (
    (λ h. ground (arith, in_scope-valid r)),
    All-zip (Apart r)
        (λ q.
          (has_id dec k q && in_scope dec namespace_id q) ≡ true
          → select_one (λ q. has_id dec k q && q.is_valid) rs ≡ some q)
        (λ q.
          (has_id dec k q && in_scope dec namespace_id q) ≡ true
          → select_one (λ q. has_id dec k q && q.is_valid) (r ∷ rs) ≡ some q)
        (λ q apart ih h.
          ground (arith, apart.ids, ih h, equal_iff dec r.id k, equal_iff dec q.id k))
        rs d.0 (lookup_scoped k rs d.1),
  )

module _ {ℓ} {K T V : Type ℓ} (dec : Discrete K) (namespace_id : Option K) (db : Db K T V) where
  -- The lookup by the embedding's id finds a row in scope.
  abbrev pub IsFound : K × V → Type ℓ
  IsFound e =
      (q : Row K T) × (cache_lookup_by_id dec db e.0 ≡ some q)
      × (in_scope dec namespace_id q ≡ true)

  pair_with-IsFound :
      (e : K × V) (rs : List (Row K T)) → IsFound e → All (λ p. IsFound p.1) (pair_with e rs)
  pair_with-IsFound e [] h = tt
  pair_with-IsFound e (r ∷ rs) h = (h, pair_with-IsFound e rs h)

  pair_with-All :
      (e : K × V) (rs : List (Row K T))
      → All (λ r. IsFound e) rs
      → All (λ p. IsFound p.1) (pair_with e rs)
  pair_with-All e [] h = tt
  pair_with-All e (r ∷ rs) h = pair_with-IsFound e (r ∷ rs) h.0

  join_rows-IsFound :
      (es : List (K × V))
      → Distinct db.rows
      → All (λ p. IsFound p.1) (join_rows dec namespace_id db.rows es)
  unfolding join_rows cache_lookup_by_id
  join_rows-IsFound [] d = tt
  join_rows-IsFound (e ∷ es) d =
      let p = λ (r : Row K T). has_id dec e.0 r && in_scope dec namespace_id r in
      All-append (λ p. IsFound p.1) (pair_with e (select_where p db.rows))
        (join_rows dec namespace_id db.rows es)
        (pair_with-All e (select_where p db.rows) (
          All-select_true (λ r. IsFound e) p db.rows
            (All-imp _ (λ r. p r ≡ true → IsFound e) (λ r h t. (r, h t, ground arith)) db.rows
              (lookup_scoped dec namespace_id e.0 db.rows d))))
        (join_rows-IsFound es d)

  embeddings_of-All :
      (ps : List (Row K T × (K × V))) → All (λ p. IsFound p.1) ps → All IsFound (embeddings_of ps)
  embeddings_of-All [] h = tt
  embeddings_of-All (p ∷ ps) h = (h.0, embeddings_of-All ps h.1)

  pub cache_get_embeddings-IsFound :
      (limit : ℕ) → Distinct db.rows → All IsFound (cache_get_embeddings dec db limit namespace_id)
  unfolding cache_get_embeddings
  cache_get_embeddings-IsFound limit d = embeddings_of-All _ (
      All-take (λ p. IsFound p.1) (min (max 1 limit) 5000)
        (sort_by is_newer (join_rows dec namespace_id db.rows db.embeddings))
        (All-sort_by (λ p. IsFound p.1) is_newer _ (join_rows-IsFound db.embeddings d)))

module _ {ℓ} {K T V : Type ℓ} (dec : Discrete K) (now : ℕ) (decrypt : T → T)
    (similarity : V → V → ℕ) where
  abbrev pub scanned : ℕ → Option K → Db K T V → List (K × V)
  scanned max_scan namespace_id db =
      take max_scan (cache_get_embeddings dec db max_scan namespace_id)

  serve_best-sections :
      (threshold now' : ℕ) (db : Db K T V) (sections : List (Section K)) (b : Option K × ℕ)
      → (serve_best dec now' decrypt similarity threshold (record db { sections = sections }) b).1
        ≡ (serve_best dec now decrypt similarity threshold db b).1
  unfolding cache_lookup_by_id
  serve_best-sections threshold now' db sections (none, sim) = refl
  serve_best-sections threshold now' db sections (some k, sim) =
      elim (Bool-cases (leb threshold sim)) [
        | inl e ↦ elim (Option-cases (select_one (λ q. has_id dec k q && q.is_valid) db.rows)) [
          | inl missing ↦ rw (e, missing) refl
          | inr (q, found) ↦ rw (e, found) refl
        ]
        | inr e ↦ rw e refl
      ]

  -- An answer: of a row in scope, by an embedding that none exceeds.
  abbrev pub IsServed : ℕ → ℕ → Option K → V → Db K T V → Db K T V × Option (Row K T) → Type ℓ
  IsServed threshold max_scan namespace_id query_emb db (db', o) =
      (q : Row K T) × (e : K × V) × (o ≡ some (record q { answer_text = decrypt q.answer_text }))
      × (db' ≡ cache_increment_serve dec now db q.id)
      × (cache_lookup_by_id dec db e.0 ≡ some q)
      × (in_scope dec namespace_id q ≡ true)
      × Memᴰ e (scanned max_scan namespace_id db)
      × (threshold ≤ similarity query_emb e.1)
      × All (λ f. similarity query_emb f.1 ≤ similarity query_emb e.1)
          (scanned max_scan namespace_id db)

  abbrev pub IsMissed : ℕ → ℕ → Option K → V → Db K T V → Db K T V × Option (Row K T) → Type ℓ
  IsMissed threshold max_scan namespace_id query_emb db (db', o) =
      (o ≡ none)
      × (db' ≡ db)
      × All (λ f. (similarity query_emb f.1 < threshold) ⊎ (similarity query_emb f.1 ≡ 0))
          (scanned max_scan namespace_id db)

  -- Where `semantic_cache_match` answers, the answer is a valid row of the namespace given, decrypted; its
  -- embedding is one that is scanned, reaches the threshold, and is exceeded by none; and the row is
  -- counted as served. Where it does not answer, each embedding scanned is below the threshold or not
  -- similar at all, and nothing is changed. In both cases the answer would be the same at any other time
  -- and whatever the table of sections holds: neither its expiry nor its sources are checked.
  pub semantic_cache_match_lem :
      (threshold max_scan : ℕ) (namespace_id : Option K) (query_emb : V) (db : Db K T V)
      → Distinct db.rows
      → let result =
          semantic_cache_match dec now decrypt similarity threshold max_scan namespace_id
            (some query_emb)
            db in
        (IsServed threshold max_scan namespace_id query_emb db result
          ⊎ IsMissed threshold max_scan namespace_id query_emb db result)
        × ((now' : ℕ) (sections : List (Section K))
            → (semantic_cache_match dec now' decrypt similarity threshold max_scan namespace_id
                (some query_emb)
                (record db { sections = sections })).1
              ≡ result.1)
  unfolding semantic_cache_match cache_get_embeddings
  semantic_cache_match_lem threshold max_scan namespace_id query_emb db d =
      let es = scanned max_scan namespace_id db in
      let b = best_match (similarity query_emb) es (none, 0) in
      let (out, all, above) = best_match-IsBest (similarity query_emb) es (none, 0) in
      (
        elim out [
          | inl same ↦ inr (
            rw same refl,
            rw same refl,
            All-imp (λ f. similarity query_emb f.1 ≤ b.1) _
                (λ f h. inr (omega (arith, ap (λ p. p.1) same))) es all,
          )
          | inr (e, m, same) ↦ elim (Bool-cases (leb threshold (similarity query_emb e.1))) [
            | inl reached ↦
                let (q, found, scope) = All-Memᴰ (IsFound dec namespace_id db) e es m (
                  All-take (IsFound dec namespace_id db) max_scan _
                    (cache_get_embeddings-IsFound dec namespace_id db max_scan d)) in
                inl (
                  q,
                  e,
                  rw (same, reached, found) refl,
                  rw (same, reached, found) refl,
                  found,
                  scope,
                  m,
                  leb→le threshold (similarity query_emb e.1) reached,
                  All-imp (λ f. similarity query_emb f.1 ≤ b.1) _
                      (λ f h. omega (arith, ap (λ p. p.1) same)) es all,
                )
            | inr below ↦ inr (
              rw (same, below) refl,
              rw (same, below) refl,
              All-imp (λ f. similarity query_emb f.1 ≤ b.1) _
                  (λ f h. inl (ground (arith, ap (λ p. p.1) same))) es all,
            )
          ]
        ],
        λ now' sections. serve_best-sections threshold now' db sections b,
      )
