-- ===== src/Facts.antt =====
-- The atomic facts: the tables `atomic_facts` and `atomic_fact_embeddings` of core/bitmod/adapters/db_sqlite.py, and
-- `_store_atomic_facts` of core/bitmod/proxy/base.py. A similarity is a number of parts of which `unit` make 1.0;
-- `embed` is the embedder, `none` where it raises or gives nothing, and `uuids` the ids of the facts made.
pub mod Bounds
use bit_mod_ai_inference_cac.Links.{is_among}
use bit_mod_ai_inference_cac.Cache.Backend.{update_where, select_one, delete_where}
use bit_mod_ai_inference_cac.Prelude.{
  ◌%◌, ◌*◌, if◌then◌else◌, leb, ◌&&◌, false, ◌-◌, ◌++◌, ◌==◌, [], ◌+◌, none, take, some, true,
  length, equal, ◌||◌, Option, ltb, ◌∷◌, ℕ, Bool, List,
}
use bit_mod_ai_inference_cac.Strings.{Text}
use bit_mod_ai_inference_cac.Cache.Evict.{select_where, sort_by}
use bit_mod_ai_inference_cac.Evidence.{Ratio}

pub record AtomicFact : Type 0 where
  pub id : Text
  pub source_cache_id : Text
  pub fact_text : Text
  pub entity : Text
  pub category : Text
  pub quality_score : Ratio
  pub serve_count : ℕ
  pub namespace_id : Option Text
  pub created_at : ℕ

-- The two tables.
pub record FactDb (V : Type 0) : Type 0 where
  pub facts : List AtomicFact
  pub embeddings : List (Text × V)

-- What `decompose_answer` says of a fact.
pub record FactText : Type 0 where
  pub fact_text : Text
  pub entity : Text
  pub category : Text
  pub quality_score : Ratio

abbrev pub fact_ids : List AtomicFact → List Text
fact_ids [] = []
fact_ids (f ∷ fs) = f.id ∷ fact_ids fs

-- `ORDER BY serve_count ASC, created_at ASC`
abbrev pub is_less_used : AtomicFact → AtomicFact → Bool
is_less_used a b =
    ltb a.serve_count b.serve_count
    || (a.serve_count == b.serve_count && leb a.created_at b.created_at)

abbrev pub with_fact : Option AtomicFact → ℕ → List (AtomicFact × ℕ) → List (AtomicFact × ℕ)
with_fact none sim rest = rest
with_fact (some f) sim rest = (f, sim) ∷ rest

module _ (dec : Discrete Text) where
  -- `namespace_id = ?`, where one is given
  abbrev pub in_namespace : Option Text → AtomicFact → Bool
  in_namespace none f = true
  in_namespace (some n) f = elim f.namespace_id [ none ↦ false | some m ↦ equal dec m n ]

  -- `_lookup_fact`
  unfoldable pub lookup_fact : Option Text → List AtomicFact → Text → Option AtomicFact
  lookup_fact namespace_id facts id =
      select_one (λ f. equal dec f.id id && in_namespace namespace_id f) facts

  unfoldable pub build_facts :
      Option Text → List AtomicFact → List (ℕ × Text) → List (AtomicFact × ℕ)
  unfolding lookup_fact
  build_facts namespace_id facts [] = []
  build_facts namespace_id facts ((sim, id) ∷ top) =
      with_fact (lookup_fact namespace_id facts id) sim (build_facts namespace_id facts top)

module _ {V : Type 0} (dec : Discrete Text) where
  -- `INSERT OR REPLACE`, twice.
  unfoldable pub store_atomic_fact : ℕ → AtomicFact → FactDb V → FactDb V
  store_atomic_fact now fact db = record db {
    facts =
        delete_where (λ (f : AtomicFact). equal dec f.id fact.id) db.facts
        ++ record fact { created_at = now } ∷ [];
  }

  unfoldable pub store_atomic_fact_embedding : Text → V → FactDb V → FactDb V
  store_atomic_fact_embedding fact_id embedding db = record db {
    embeddings =
        delete_where (λ (e : Text × V). equal dec e.0 fact_id) db.embeddings
        ++ (fact_id, embedding) ∷ [];
  }

  unfoldable pub evict_atomic_facts : ℕ → FactDb V → FactDb V × ℕ
  unfolding sort_by
  evict_atomic_facts max_facts db =
      let excess = length db.facts - max_facts in
      let ids = fact_ids (take excess (sort_by is_less_used db.facts)) in
      let kept = delete_where (λ (f : AtomicFact). is_among dec f.id ids) db.facts in
      if leb (length db.facts) max_facts then (db, 0) else (
        record {
          facts = kept;
          embeddings =
              select_where (λ (e : Text × V). is_among dec e.0 (fact_ids kept)) db.embeddings;
        },
        excess,
      )

  module _ (similarity : V → V → ℕ) where
    abbrev pub fact_scores : V → List (Text × V) → List (ℕ × Text)
    fact_scores embedding [] = []
    fact_scores embedding ((id, v) ∷ es) = (similarity embedding v, id) ∷ fact_scores embedding es

    -- The scan without a vector index.
    unfoldable pub search_atomic_facts : V → ℕ → Option Text → FactDb V → List (AtomicFact × ℕ)
    unfolding sort_by build_facts
    search_atomic_facts embedding limit namespace_id db =
        build_facts dec namespace_id db.facts
          (take limit (sort_by (λ a b. leb b.0 a.0) (fact_scores embedding db.embeddings)))

    module _ (unit : ℕ) (embed : Text → Option V) (uuids : ℕ → Text) (now : ℕ) (cache_id : Text)
        (namespace_id : Option Text) where
      -- The first match of the search, if it is above 0.95.
      abbrev pub duplicate_in : List (AtomicFact × ℕ) → Option AtomicFact
      duplicate_in [] = none
      duplicate_in ((f, sim) ∷ fs) = if ltb (95 * unit) (100 * sim) then some f else none

      unfoldable pub duplicate : Option V → FactDb V → Option AtomicFact
      unfolding search_atomic_facts
      duplicate none db = none
      duplicate (some v) db = duplicate_in (search_atomic_facts v 1 namespace_id db)

      abbrev pub made_fact : ℕ → FactText → AtomicFact
      made_fact n t = record {
        id = uuids n;
        source_cache_id = cache_id;
        fact_text = t.fact_text;
        entity = t.entity;
        category = t.category;
        quality_score = t.quality_score;
        serve_count = 0;
        namespace_id = namespace_id;
        created_at = 0;
      }

      abbrev pub embed_stored : Option V → Text → FactDb V → FactDb V
      embed_stored none id db = db
      embed_stored (some v) id db = store_atomic_fact_embedding id v db

      -- A duplicate is counted as served instead.
      abbrev pub store_unless : Option AtomicFact → ℕ → FactText → FactDb V → FactDb V
      store_unless (some f) n t db = record db {
        facts =
            update_where (λ (g : AtomicFact). equal dec g.id f.id)
              (λ g. record g { serve_count = g.serve_count + 1 }) db.facts;
      }
      store_unless none n t db =
          embed_stored (embed t.fact_text) (uuids n) (store_atomic_fact now (made_fact n t) db)

      unfoldable pub store_each : ℕ → List FactText → FactDb V → FactDb V
      unfolding duplicate store_atomic_fact store_atomic_fact_embedding
      store_each n [] db = db
      store_each n (t ∷ ts) db =
          store_each (n + 1) ts (store_unless (duplicate (embed t.fact_text) db) n t db)

      -- `decomposed` is what `decompose_answer` gives for the answer, `none` where it raises; the counter of the calls
      -- comes first.
      unfoldable pub store_atomic_facts :
          ℕ → Text → Option (List FactText) → ℕ × FactDb V → ℕ × FactDb V
      unfolding store_each evict_atomic_facts
      store_atomic_facts n answer_text none s = s
      store_atomic_facts n answer_text (some decomposed) (write_counter, db) =
          let stored = store_each n (take 10 decomposed) db in
          if ltb (length answer_text) 100 then (write_counter, db) else (
            write_counter + 1,
            if (write_counter + 1) % 100 == 0 then (evict_atomic_facts 500000 stored).0 else stored,
          )
