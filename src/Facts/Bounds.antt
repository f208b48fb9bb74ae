-- ===== src/Facts/Bounds.antt =====
-- core/bitmod/adapters/db_sqlite.py, core/bitmod/proxy/base.py: what the search of the facts can find, and how many
-- facts an answer adds.
use mathlib.Core.Path.{subst}
use bit_mod_ai_inference_cac.Prelude.{
  ◌==◌, ◌%◌, ltb, ◌<◌, ◌-◌, ◌⊎◌, length-append, length-take, take, ◌&&◌, equal, refl, ◌+◌, leb,
  Option-cases, inr, inl, suc, arith, true, Bool-cases, ap, ◌≤◌, ◌≡◌, All, length, ℕ, Option, List,
  Bool, [], ◌∷◌, none, some,
}
use bit_mod_ai_inference_cac.Facts.{
  is_among, is_less_used, fact_ids, duplicate, store_atomic_facts, evict_atomic_facts, store_each,
  made_fact, fact_scores, store_unless, sort_by, FactText, in_namespace,
  store_atomic_fact_embedding, FactDb, lookup_fact, update_where, delete_where, store_atomic_fact,
  search_atomic_facts, build_facts, select_one, Text, AtomicFact,
}

length-delete {ℓ} :
    {A : Type ℓ} (p : A → Bool) (rs : List A) → length (delete_where p rs) ≤ length rs
length-delete p [] = omega arith
length-delete p (r ∷ rs) = ground (arith, length-delete p rs)

length-update {ℓ} :
    {A : Type ℓ} (p : A → Bool) (f : A → A) (rs : List A) → length (update_where p f rs) ≡ length rs
length-update p f [] = refl
length-update p f (r ∷ rs) = ap suc (length-update p f rs)

module _ (dec : Discrete Text) (namespace_id : Option Text) where
  select_one-holds {ℓ} :
      {A : Type ℓ} (p : A → Bool) (rs : List A) (r : A) → select_one p rs ≡ some r → p r ≡ true
  select_one-holds p [] r h = absurd (ground arith)
  select_one-holds p (q ∷ rs) r h = elim (Bool-cases (p q)) [
    | inl e ↦ let same : q ≡ r = ground arith in subst (λ a. p a ≡ true) same e
    | inr e ↦ select_one-holds p rs r (ground arith)
  ]

  build_facts-in :
      (facts : List AtomicFact) (top : List (ℕ × Text))
      → All (λ m. in_namespace dec namespace_id m.0 ≡ true) (build_facts dec namespace_id facts top)
        × (length (build_facts dec namespace_id facts top) ≤ length top)
  unfolding build_facts lookup_fact
  build_facts-in facts [] = (tt, omega arith)
  build_facts-in facts ((sim, id) ∷ top) =
      let (all, short) = build_facts-in facts top in
      elim (Option-cases (lookup_fact dec namespace_id facts id)) [
        | inl e ↦ rw e (all, omega arith)
        | inr (f, e) ↦
            let both =
              select_one-holds (λ g. equal dec g.id id && in_namespace dec namespace_id g) facts f
                e in
            rw e ((ground arith, all), omega arith)
      ]

  -- What the search of the facts gives is at most `limit` facts, each of the namespace that is given.
  pub search_atomic_facts-in :
      {V : Type 0} (similarity : V → V → ℕ) (embedding : V) (limit : ℕ) (db : FactDb V)
      → All
          (λ m. in_namespace dec namespace_id m.0 ≡ true)
          (search_atomic_facts dec similarity embedding limit namespace_id db)
        × (length (search_atomic_facts dec similarity embedding limit namespace_id db) ≤ limit)
  unfolding search_atomic_facts
  search_atomic_facts-in similarity embedding limit db =
      let scored =
        sort_by (λ a b. leb b.0 a.0) (fact_scores dec similarity embedding db.embeddings) in
      let (all, short) = build_facts-in db.facts (take limit scored) in
      (all, omega (arith, length-take limit scored))

module _ {V : Type 0} (dec : Discrete Text) (similarity : V → V → ℕ) (unit : ℕ)
    (embed : Text → Option V) (uuids : ℕ → Text) (now : ℕ) (cache_id : Text)
    (namespace_id : Option Text) where
  stored-length :
      (fact : AtomicFact) (db : FactDb V)
      → length (store_atomic_fact dec now fact db).facts ≤ length db.facts + 1
  unfolding store_atomic_fact
  stored-length fact db =
      let kept = delete_where (λ (f : AtomicFact). equal dec f.id fact.id) db.facts in
      omega (
        arith,
        length-delete {0} (λ (f : AtomicFact). equal dec f.id fact.id) db.facts,
        length-append kept (record fact { created_at = now } ∷ []),
      )

  store_unless-length :
      (o : Option AtomicFact) (n : ℕ) (t : FactText) (db : FactDb V)
      → length
          (store_unless dec similarity unit embed uuids now cache_id namespace_id o n t db).facts
        ≤ length db.facts + 1
  unfolding store_atomic_fact_embedding
  store_unless-length (some f) n t db = omega (
    arith,
    length-update {0} (λ (g : AtomicFact). equal dec g.id f.id)
        (λ g. record g { serve_count = g.serve_count + 1 }) db.facts,
  )
  store_unless-length none n t db =
      let made = made_fact dec similarity unit embed uuids now cache_id namespace_id n t in
      elim (Option-cases (embed t.fact_text)) [
        | inl e ↦ rw e (stored-length made db)
        | inr (v, e) ↦ rw e (stored-length made db)
      ]

  store_each-length :
      (n : ℕ) (ts : List FactText) (db : FactDb V)
      → length (store_each dec similarity unit embed uuids now cache_id namespace_id n ts db).facts
        ≤ length db.facts + length ts
  unfolding store_each
  store_each-length n [] db = omega arith
  store_each-length n (t ∷ ts) db =
      let o =
        duplicate dec similarity unit embed uuids now cache_id namespace_id (embed t.fact_text)
          db in
      let db' = store_unless dec similarity unit embed uuids now cache_id namespace_id o n t db in
      omega (arith, store_unless-length o n t db, store_each-length (n + 1) ts db')

  evict-length :
      (max_facts : ℕ) (db : FactDb V)
      → length (evict_atomic_facts dec max_facts db).0.facts ≤ length db.facts
  unfolding evict_atomic_facts
  evict-length max_facts db =
      let ids = fact_ids (take (length db.facts - max_facts) (sort_by is_less_used db.facts)) in
      elim (Bool-cases (leb (length db.facts) max_facts)) [
        | inl e ↦ rw e (omega arith)
        | inr e ↦ rw e (length-delete (λ (f : AtomicFact). is_among dec f.id ids) db.facts)
      ]

  -- An answer adds ten facts at most, whatever it decomposes into; one of fewer than 100 characters, and one
  -- that cannot be decomposed, change neither the facts nor the count of the calls.
  pub store_atomic_facts_bounded :
      (n write_counter : ℕ) (answer_text : Text) (decomposed : Option (List FactText))
      (db : FactDb V)
      → let after =
          store_atomic_facts dec similarity unit embed uuids now cache_id namespace_id n answer_text
            decomposed
            (write_counter, db) in
        (length after.1.facts ≤ length db.facts + 10)
        × ((decomposed ≡ none) ⊎ (length answer_text < 100) → after ≡ (write_counter, db))
  unfolding store_atomic_facts
  store_atomic_facts_bounded n write_counter answer_text none db = (omega arith, λ h. refl)
  store_atomic_facts_bounded n write_counter answer_text (some ts) db =
      let stored =
        store_each dec similarity unit embed uuids now cache_id namespace_id n (take 10 ts) db in
      let few = store_each-length n (take 10 ts) db in
      let ten = length-take 10 ts in
      elim (Bool-cases (ltb (length answer_text) 100)) [
        | inl e ↦ rw e (omega arith, λ h. refl)
        | inr e ↦ elim (Bool-cases ((write_counter + 1) % 100 == 0)) [
          | inl due ↦
              rw (e, due) (omega (arith, evict-length 500000 stored), λ h. absurd (ground arith))
          | inr due ↦ rw (e, due) (omega arith, λ h. absurd (ground arith))
        ]
      ]
